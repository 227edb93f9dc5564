-- ===== src/Commands/SendOp/Polling.antt =====
-- The loop of cmd/erc4337/main.go that waits for the receipt.
use samanager_backend.Base.{ℕ, zero, suc, ◌<◌, ◌≡◌, ◌≢◌, ◌↔◌, refl, List, Error, arith}
use samanager_backend.Network.{Network}
use samanager_backend.Bundler.Wait.{Answer, receipt, missing, failed}
use samanager_backend.Commands.SendOp.{Polled, crashed, found, gave_up, retry_on, ask, poll_receipt}

-- What the loop makes of an answer that it does not try again after.
abbrev pub outcome : Answer → Polled
outcome (receipt r) = found r
outcome missing = crashed
outcome (failed e) = gave_up

module _ (n : Network) (sleep : n.State → n.State) (bundler : n.RpcClient) (hash : List ℕ) where
  abbrev asked : n.State → Answer × n.State
  asked s = ask n sleep bundler hash s

  -- The state after `k` attempts, each with its wait.
  abbrev pub after : ℕ → n.State → n.State
  after zero s = s
  after (suc k) s = after k (sleep (asked s).1)

  -- The first `k` attempts were errors.
  abbrev pub AllFailed : ℕ → n.State → Type 0
  AllFailed zero s = Unit
  AllFailed (suc k) s = ((e : Error) × ((asked s).0 ≡ failed e)) × AllFailed k (sleep (asked s).1)

  abbrev pub Ends : ℕ → n.State → Polled → Type 0
  Ends m s x = (k : ℕ) × (k < m) × AllFailed k s × (outcome (asked (after k s)).0 ≡ x)

  abbrev Loop : Type 0
  Loop = n.State → Polled × n.State

  retry_on-Ends :
      (left : ℕ) (rest : Loop) (a : Answer × n.State) (s : n.State) (x : Polled)
      → asked s ≡ a
      → x ≢ gave_up
      → ((s' : n.State) → (rest s').0 ≡ x → Ends left s' x)
      → (retry_on n sleep bundler hash left rest a).0 ≡ x
      → Ends (suc left) s x
  unfolding retry_on
  retry_on-Ends left rest (receipt r, s') s x now ends ih same = (0, omega arith, tt, rw now same)
  retry_on-Ends left rest (missing, s') s x now ends ih same = (0, omega arith, tt, rw now same)
  retry_on-Ends zero rest (failed e, s') s x now ends ih same = absurd (ends (cc))
  retry_on-Ends (suc left) rest (failed e, s') s x now ends ih same =
      let (k, below, before, there) = ih (sleep s') same in
      (suc k, omega arith, rw now ((e, refl), before), rw now there)

  poll_receipt-Ends :
      (m : ℕ) (s : n.State) (x : Polled)
      → x ≢ gave_up
      → (poll_receipt n sleep bundler hash m s).0 ≡ x
      → Ends m s x
  unfolding poll_receipt
  poll_receipt-Ends zero s x ends same = absurd (ends (cc))
  poll_receipt-Ends (suc left) s x ends same =
      retry_on-Ends left (λ s'. poll_receipt n sleep bundler hash left s') (asked s) s x refl ends
        (λ s' same'. poll_receipt-Ends left s' x ends same') same

  retry_on-now :
      (left : ℕ) (rest : Loop) (a : Answer × n.State) (x : Polled)
      → x ≢ gave_up
      → outcome a.0 ≡ x
      → (retry_on n sleep bundler hash left rest a).0 ≡ x
  unfolding retry_on
  retry_on-now left rest (receipt r, s') x ends same = same
  retry_on-now left rest (missing, s') x ends same = same
  retry_on-now left rest (failed e, s') x ends same = absurd (ends (cc))

  retry_on-later :
      (left : ℕ) (rest : Loop) (a : Answer × n.State) (e : Error)
      → a.0 ≡ failed e
      → retry_on n sleep bundler hash (suc left) rest a ≡ rest (sleep a.1)
  unfolding retry_on
  retry_on-later left rest (receipt r, s') e same = cc
  retry_on-later left rest (missing, s') e same = cc
  retry_on-later left rest (failed e', s') e same = refl

  Ends-poll_receipt :
      (m k : ℕ) (s : n.State) (x : Polled)
      → x ≢ gave_up
      → k < m
      → AllFailed k s
      → outcome (asked (after k s)).0 ≡ x
      → (poll_receipt n sleep bundler hash m s).0 ≡ x
  unfolding poll_receipt
  Ends-poll_receipt zero k s x ends below before there = absurd (omega arith)
  Ends-poll_receipt (suc left) zero s x ends below before there =
      retry_on-now left (λ s'. poll_receipt n sleep bundler hash left s') (asked s) x ends there
  Ends-poll_receipt (suc zero) (suc k) s x ends below before there = absurd (omega arith)
  Ends-poll_receipt (suc (suc left)) (suc k) s x ends below ((e, was), before) there =
      rw
        (retry_on-later left (λ s'. poll_receipt n sleep bundler hash (suc left) s') (asked s) e
          was)
        (Ends-poll_receipt (suc left) k (sleep (asked s).1) x ends (omega arith) before there)

  -- The loop ends before its attempts are used up exactly with the first answer that is no error: with the receipt, if
  -- that is one, and with the reading of a nil pointer, a panic, if the bundler has none yet.
  pub poll_receipt_iff :
      (attempts : ℕ) (s : n.State) (x : Polled)
      → x ≢ gave_up
      → ((poll_receipt n sleep bundler hash attempts s).0 ≡ x) ↔ (
          (k : ℕ) × (k < attempts)
          × AllFailed k s
          × (outcome (ask n sleep bundler hash (after k s)).0 ≡ x))
  poll_receipt_iff attempts s x ends = (
    poll_receipt-Ends attempts s x ends,
    λ (k, below, before, there). Ends-poll_receipt attempts k s x ends below before there,
  )
