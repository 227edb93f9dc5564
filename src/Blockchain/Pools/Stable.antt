-- ===== src/Blockchain/Pools/Stable.antt =====
-- src/service/blockchain.go: a client stays in the pool until Close.
use samanager_backend.Base.{
  ◌≡◌, refl, String, false, List, Option, none, some, Option-cases, Bool-cases, Reply, ok, err, inl,
  inr, arith,
}
use samanager_backend.Base.Int.{ℤ, eq_ℤ, eq_ℤ-refl, eq_of_eq_ℤ}
use samanager_backend.Network.{Network}
use samanager_backend.Blockchain.{
  Chains, find_pool, get_client, get_client_locked, get_bundler_client, get_bundler_client_locked,
  get_bundler_url, dial_client, dial_bundler, add_client, add_bundler, rpc_url,
}
use samanager_backend.Bundler.{dial_context}

module _ (n : Network) where
  -- What follows while Close is not called: calls for any chain, each as a whole or, where it had missed the pool
  -- before, its part under the lock alone, and any use of the network.
  pub data Later (s : Chains n) : Chains n → Type 0 where
    here : Later s s
    client : {t : Chains n} (id : ℤ) → Later s t → Later s (get_client n id t).1
    client_locked : {t : Chains n} (id : ℤ) → Later s t → Later s (get_client_locked n id t).1
    bundler : {t : Chains n} (id : ℤ) → Later s t → Later s (get_bundler_client n id t).1
    bundler_locked :
        {t : Chains n} (id : ℤ) → Later s t → Later s (get_bundler_client_locked n id t).1
    network : {t : Chains n} (net : n.State) → Later s t → Later s (record t { net = net })

  abbrev Holds : ℤ → n.EthClient → Chains n → Type 0
  Holds id c t = find_pool id t.client_pool ≡ some c

  other_chain :
      (i id : ℤ) (c : n.EthClient) (pool : List (ℤ × n.EthClient))
      → find_pool i pool ≡ none
      → find_pool id pool ≡ some c
      → eq_ℤ i id ≡ false
  other_chain i id c pool missing there = elim (Bool-cases (eq_ℤ i id)) [
    | inl same ↦ (let e = eq_of_eq_ℤ i id same in cc (rw e at missing))
    | inr differs ↦ differs
  ]

  add_client-Holds :
      (i id : ℤ) (c : n.EthClient) (reply : Reply n.EthClient × n.State) (t : Chains n)
      → eq_ℤ i id ≡ false
      → Holds id c t
      → Holds id c (add_client n i reply t).1
  unfolding add_client find_pool
  add_client-Holds i id c (err e, net) t differs h = h
  add_client-Holds i id c (ok v, net) t differs h = rw (differs, find_pool) h

  dial_client-Holds :
      (i id : ℤ) (c : n.EthClient) (url : Option String) (t : Chains n)
      → eq_ℤ i id ≡ false
      → Holds id c t
      → Holds id c (dial_client n i url t).1
  unfolding dial_client
  dial_client-Holds i id c none t differs h = h
  dial_client-Holds i id c (some url) t differs h =
      add_client-Holds i id c (n.dial_eth url t.net) t differs h

  locked-Holds :
      (i id : ℤ) (c : n.EthClient) (t : Chains n)
      → Holds id c t
      → Holds id c (get_client_locked n i t).1
  unfolding get_client_locked
  locked-Holds i id c t h = elim (Option-cases (find_pool i t.client_pool)) [
    | inl missing ↦
        rw (missing, get_client_locked)
          (dial_client-Holds i id c (rpc_url t.urls i) t
            (other_chain i id c t.client_pool missing h) h)
    | inr (v, found) ↦ rw (found, get_client_locked) h
  ]

  client-Holds :
      (i id : ℤ) (c : n.EthClient) (t : Chains n) → Holds id c t → Holds id c (get_client n i t).1
  unfolding get_client
  client-Holds i id c t h = elim (Option-cases (find_pool i t.client_pool)) [
    | inl missing ↦ rw (missing, get_client) (locked-Holds i id c t h)
    | inr (v, found) ↦ rw (found, get_client) h
  ]

  add_bundler-pool :
      (i : ℤ) (reply : Reply n.RpcClient × n.State) (t : Chains n)
      → (add_bundler n i reply t).1.client_pool ≡ t.client_pool
  unfolding add_bundler
  add_bundler-pool i (err e, net) t = refl
  add_bundler-pool i (ok v, net) t = refl

  dial_bundler-pool :
      (i : ℤ) (url : Reply String) (t : Chains n)
      → (dial_bundler n i url t).1.client_pool ≡ t.client_pool
  unfolding dial_bundler
  dial_bundler-pool i (err e) t = refl
  dial_bundler-pool i (ok url) t = add_bundler-pool i (dial_context n url t.net) t

  bundler_locked-pool :
      (i : ℤ) (t : Chains n) → (get_bundler_client_locked n i t).1.client_pool ≡ t.client_pool
  unfolding get_bundler_client_locked
  bundler_locked-pool i t = elim (Option-cases (find_pool i t.bundler_pool)) [
    | inl missing ↦
        rw (missing, get_bundler_client_locked) (dial_bundler-pool i (get_bundler_url n i t) t)
    | inr (v, found) ↦ rw (found, get_bundler_client_locked) refl
  ]

  bundler-pool : (i : ℤ) (t : Chains n) → (get_bundler_client n i t).1.client_pool ≡ t.client_pool
  unfolding get_bundler_client
  bundler-pool i t = elim (Option-cases (find_pool i t.bundler_pool)) [
    | inl missing ↦ rw (missing, get_bundler_client) (bundler_locked-pool i t)
    | inr (v, found) ↦ rw (found, get_bundler_client) refl
  ]

  Later-Holds :
      {s t : Chains n} (id : ℤ) (c : n.EthClient) → Later s t → Holds id c s → Holds id c t
  Later-Holds id c here h = h
  Later-Holds id c (client i l) h = client-Holds i id c _ (Later-Holds id c l h)
  Later-Holds id c (client_locked i l) h = locked-Holds i id c _ (Later-Holds id c l h)
  Later-Holds id c (bundler {t} i l) h = rw (bundler-pool i t) (Later-Holds id c l h)
  Later-Holds id c (bundler_locked {t} i l) h = rw (bundler_locked-pool i t) (Later-Holds id c l h)
  Later-Holds id c (network net l) h = Later-Holds id c l h

  pooled :
      (id : ℤ) (s : Chains n) (c : n.EthClient)
      → (get_client n id s).0 ≡ ok c
      → Holds id c (get_client n id s).1
  unfolding get_client get_client_locked dial_client add_client find_pool
  pooled id s c h = ground (arith, eq_ℤ-refl id)

  -- Once GetClient has returned a client, it returns the same client for that chain after any calls of GetClient and
  -- GetBundlerClient for any chains, Close not being among them; it then dials nothing and changes nothing, also where it
  -- waited for the lock after it had missed the pool.
  pub get_client-Later :
      (id : ℤ) (s t : Chains n) (c : n.EthClient)
      → (get_client n id s).0 ≡ ok c
      → Later (get_client n id s).1 t
      → (get_client n id t ≡ (ok c, t)) × (get_client_locked n id t ≡ (ok c, t))
  unfolding get_client get_client_locked
  get_client-Later id s t c got later =
      let held = Later-Holds id c later (pooled id s c got) in
      (rw (held, get_client) refl, rw (held, get_client_locked) refl)
