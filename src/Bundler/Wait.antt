-- ===== src/Bundler/Wait.antt =====
-- erc4337/bundler.go, WaitForUserOpReceipt. What happens between two attempts is an argument: the error of the
-- context if it is done, and nothing if the poll interval passes first.
use samanager_backend.Base.{
  ℕ, zero, suc, ◌<◌, ◌≡◌, ◌≢◌, ◌↔◌, refl, ◌⊎◌, inl, inr, List, Option, none, some, Error, failure,
  wrapped, Reply, ok, err, arith,
}
use samanager_backend.Base.Int.{ℤ, pos, negsuc}
use samanager_backend.Network.{Network, UserOperationReceipt}
use samanager_backend.Bundler.{get_user_operation_receipt}

-- An answer that is not a receipt: an error, or none yet.
pub data Answer : Type 0 where
  receipt : UserOperationReceipt → Answer
  missing : Answer
  failed : Error → Answer

unfoldable pub answer_of : Reply (Option UserOperationReceipt) → Answer
answer_of (err e) = failed e
answer_of (ok none) = missing
answer_of (ok (some r)) = receipt r

-- The error of the last attempt.
unfoldable pub last_error : Answer → Error
last_error (receipt r) = failure "failed to get user operation receipt after attempts"
last_error missing = failure "failed to get user operation receipt after attempts: receipt is nil"
last_error (failed e) = wrapped "failed to get user operation receipt after attempts" e

module _ (n : Network) (wait : n.State → Option Error × n.State) (bundler : n.RpcClient)
    (hash : List ℕ) where
  unfoldable pub attempt : n.State → Answer × n.State
  attempt s = let (reply, s') = get_user_operation_receipt n bundler hash s in (answer_of reply, s')

  resume :
      (n.State → Reply UserOperationReceipt × n.State)
      → Option Error × n.State
      → Reply UserOperationReceipt × n.State
  resume rest (some e, s) = (err e, s)
  resume rest (none, s) = rest s

  -- After an attempt without a receipt, with so many attempts left.
  retry :
      ℕ
      → (n.State → Reply UserOperationReceipt × n.State)
      → Answer
      → n.State
      → Reply UserOperationReceipt × n.State
  unfolding resume
  retry zero rest answer s = (err (last_error answer), s)
  retry (suc more) rest answer s = resume rest (wait s)

  one_attempt :
      ℕ
      → (n.State → Reply UserOperationReceipt × n.State)
      → Answer × n.State
      → Reply UserOperationReceipt × n.State
  unfolding retry
  one_attempt left rest (receipt r, s) = (ok r, s)
  one_attempt left rest (missing, s) = retry left rest missing s
  one_attempt left rest (failed e, s) = retry left rest (failed e) s

  -- The loop, by the number of attempts left.
  unfoldable pub poll : ℕ → n.State → Reply UserOperationReceipt × n.State
  unfolding one_attempt
  poll zero s = (err (failure "failed to get user operation receipt after attempts"), s)
  poll (suc left) s = one_attempt left (λ s'. poll left s') (attempt s)

  unfoldable pub wait_for_user_op_receipt : ℤ → n.State → Reply UserOperationReceipt × n.State
  wait_for_user_op_receipt (pos max_attempts) s = poll max_attempts s
  wait_for_user_op_receipt (negsuc m) s = poll 0 s

  -- The state after `k` attempts, each with its wait.
  abbrev pub after : ℕ → n.State → n.State
  after zero s = s
  after (suc k) s = after k (wait (attempt s).1).1

  -- The first `k` attempts had no receipt, and the context was not done in the waits after them.
  abbrev pub IsQuiet : ℕ → n.State → Type 0
  IsQuiet zero s = Unit
  IsQuiet (suc k) s =
      ((r : UserOperationReceipt) → (attempt s).0 ≢ receipt r)
      × ((wait (attempt s).1).0 ≡ none)
      × IsQuiet k (wait (attempt s).1).1

  abbrev Loop : Type 0
  Loop = n.State → Reply UserOperationReceipt × n.State

  resume_inv :
      (rest : Loop) (p : Option Error × n.State) (r : UserOperationReceipt)
      → (resume rest p).0 ≡ ok r
      → (p.0 ≡ none) × ((rest p.1).0 ≡ ok r)
  unfolding resume
  resume_inv rest (some e, s) r h = cc
  resume_inv rest (none, s) r h = (refl, h)

  abbrev GoesOn : ℕ → Loop → Answer × n.State → UserOperationReceipt → Type 0
  GoesOn left rest a r =
      ((r' : UserOperationReceipt) → a.0 ≢ receipt r')
      × (0 < left)
      × ((wait a.1).0 ≡ none)
      × ((rest (wait a.1).1).0 ≡ ok r)

  retry_inv :
      (left : ℕ) (rest : Loop) (a : Answer) (s : n.State) (r : UserOperationReceipt)
      → ((r' : UserOperationReceipt) → a ≢ receipt r')
      → (retry left rest a s).0 ≡ ok r
      → GoesOn left rest (a, s) r
  unfolding retry
  retry_inv zero rest a s r none_yet h = cc
  retry_inv (suc more) rest a s r none_yet h =
      let (quiet, found) = resume_inv rest (wait s) r h in (none_yet, omega arith, quiet, found)

  one_attempt_inv :
      (left : ℕ) (rest : Loop) (a : Answer × n.State) (r : UserOperationReceipt)
      → (one_attempt left rest a).0 ≡ ok r
      → (a.0 ≡ receipt r) ⊎ GoesOn left rest a r
  unfolding one_attempt
  one_attempt_inv left rest (receipt r', s) r h = inl (cc)
  one_attempt_inv left rest (missing, s) r h = inr (retry_inv left rest missing s r (λ r' e. cc) h)
  one_attempt_inv left rest (failed e, s) r h =
      inr (retry_inv left rest (failed e) s r (λ r' e'. cc) h)

  abbrev Found : ℕ → n.State → UserOperationReceipt → Type 0
  Found m s r = (k : ℕ) × (k < m) × IsQuiet k s × ((attempt (after k s)).0 ≡ receipt r)

  poll-Found : (m : ℕ) (s : n.State) (r : UserOperationReceipt) → (poll m s).0 ≡ ok r → Found m s r
  unfolding poll
  poll-Found zero s r e = cc
  poll-Found (suc left) s r e = elim (one_attempt_inv left (λ s'. poll left s') (attempt s) r e) [
    | inl now ↦ (0, omega arith, tt, now)
    | inr (none_yet, more, quiet, found) ↦
        let (k, below, before, there) = poll-Found left (wait (attempt s).1).1 r found in
        (suc k, omega arith, (none_yet, quiet, before), there)
  ]

  one_attempt_now :
      (left : ℕ) (rest : Loop) (a : Answer × n.State) (r : UserOperationReceipt)
      → a.0 ≡ receipt r
      → (one_attempt left rest a).0 ≡ ok r
  unfolding one_attempt
  one_attempt_now left rest (receipt r', s) r h = cc
  one_attempt_now left rest (missing, s) r h = cc
  one_attempt_now left rest (failed e, s) r h = cc

  one_attempt_later :
      (left : ℕ) (rest : Loop) (a : Answer × n.State)
      → ((r : UserOperationReceipt) → a.0 ≢ receipt r)
      → (wait a.1).0 ≡ none
      → one_attempt (suc left) rest a ≡ rest (wait a.1).1
  unfolding one_attempt retry resume
  one_attempt_later left rest (receipt r', s) none_yet quiet = absurd (none_yet r' refl)
  one_attempt_later left rest (missing, s) none_yet quiet = ground arith
  one_attempt_later left rest (failed e, s) none_yet quiet = ground arith

  Found-poll :
      (m k : ℕ) (s : n.State) (r : UserOperationReceipt)
      → k < m
      → IsQuiet k s
      → (attempt (after k s)).0 ≡ receipt r
      → (poll m s).0 ≡ ok r
  unfolding poll
  Found-poll zero k s r below before there = absurd (omega arith)
  Found-poll (suc left) zero s r below before there =
      one_attempt_now left (λ s'. poll left s') (attempt s) r there
  Found-poll (suc zero) (suc k) s r below before there = absurd (omega arith)
  Found-poll (suc (suc left)) (suc k) s r below (none_yet, quiet, before) there =
      rw (one_attempt_later left (λ s'. poll (suc left) s') (attempt s) none_yet quiet)
        (Found-poll (suc left) k (wait (attempt s).1).1 r (omega arith) before there)

  -- Waiting ends with a receipt exactly when, among the first `maxAttempts` attempts, there is one that has it,
  -- none before it has one, and the context is not done in the waits before it: the receipt is the first there is.
  pub wait_for_user_op_receipt_iff :
      (max_attempts : ℕ) (s : n.State) (r : UserOperationReceipt)
      → ((wait_for_user_op_receipt (pos max_attempts) s).0 ≡ ok r)
        ↔ ((k : ℕ) × (k < max_attempts) × IsQuiet k s × ((attempt (after k s)).0 ≡ receipt r))
  unfolding wait_for_user_op_receipt
  wait_for_user_op_receipt_iff m s r =
      (poll-Found m s r, λ (k, below, before, there). Found-poll m k s r below before there)
