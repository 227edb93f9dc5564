-- ===== src/Blockchain/Pools.antt =====
-- The pools: one client for a chain, and none for a chain that is not supported.
pub mod Stable
use samanager_backend.Base.{
  ◌≡◌, refl, ap, String, List, ◌∷◌, Option, none, some, Option-cases, Bool-cases, failure, Reply,
  ok, err, inl, inr, arith,
}
use samanager_backend.Base.Int.{ℤ, eq_ℤ, eq_ℤ-refl, eq_of_eq_ℤ}
use samanager_backend.Network.{Network}
use samanager_backend.Blockchain.{
  Urls, rpc_url, Chains, find_pool, get_client_locked, get_client, get_bundler_client_locked,
  get_bundler_client, get_bundler_url, dial_client, add_client,
}

-- Pooled chains are supported ones.
abbrev pub Supported {ℓ} : {V : Type ℓ} → Urls → List (ℤ × V) → Type ℓ
Supported u pool = (id : ℤ) → rpc_url u id ≡ none → find_pool id pool ≡ none

pub Supported-∷ {ℓ} :
    {V : Type ℓ} (u : Urls) (i : ℤ) (url : String) (v : V) (pool : List (ℤ × V))
    → rpc_url u i ≡ some url
    → Supported u pool
    → Supported u ((i, v) ∷ pool)
unfolding find_pool
Supported-∷ u i url v pool h all id unsupported = elim (Bool-cases (eq_ℤ i id)) [
  | inl e ↦ (let same = ap (rpc_url u) (eq_of_eq_ℤ i id e) in cc)
  | inr e ↦ rw (e, find_pool) (all id unsupported)
]

module _ (n : Network) where
  pub record IsConsistent (s : Chains n) : Type 0 where
    pub clients : Supported s.urls s.client_pool
    pub bundlers : Supported s.urls s.bundler_pool

  -- A chain id outside the seven supported ones is an error, and changes neither pool.
  pub get_client-unsupported :
      (id : ℤ) (s : Chains n)
      → IsConsistent s
      → rpc_url s.urls id ≡ none
      → (get_client n id s ≡ (err (failure "unsupported chain id"), s))
        × (get_bundler_client n id s ≡ (err (failure "unsupported chain id for bundler"), s))
  unfolding get_client get_client_locked get_bundler_client get_bundler_client_locked
      get_bundler_url
  get_client-unsupported id s v h = (
    rw (v.clients id h, get_client) (rw (v.clients id h, get_client_locked) (rw h refl)),
    rw (v.bundlers id h, get_bundler_client)
        (rw (v.bundlers id h, get_bundler_client_locked) (rw (h, get_bundler_url) refl)),
  )

  add_client-IsConsistent :
      (id : ℤ) (url : String) (reply : Reply n.EthClient × n.State) (s : Chains n)
      → rpc_url s.urls id ≡ some url
      → IsConsistent s
      → IsConsistent (add_client n id reply s).1
  unfolding add_client
  add_client-IsConsistent id url (err e, net) s h v = record {
    clients = v.clients;
    bundlers = v.bundlers;
  }
  add_client-IsConsistent id url (ok client, net) s h v = record {
    clients = Supported-∷ s.urls id url client s.client_pool h v.clients;
    bundlers = v.bundlers;
  }

  dial_client-IsConsistent :
      (id : ℤ) (url : Option String) (s : Chains n)
      → rpc_url s.urls id ≡ url
      → IsConsistent s
      → IsConsistent (dial_client n id url s).1
  unfolding dial_client
  dial_client-IsConsistent id none s h v = v
  dial_client-IsConsistent id (some url) s h v =
      add_client-IsConsistent id url (n.dial_eth url s.net) s h v

  pub get_client-IsConsistent :
      (id : ℤ) (s : Chains n) → IsConsistent s → IsConsistent (get_client n id s).1
  unfolding get_client get_client_locked
  get_client-IsConsistent id s v = elim (Option-cases (find_pool id s.client_pool)) [
    | inl e ↦
        rw (e, get_client)
          (rw (e, get_client_locked) (dial_client-IsConsistent id (rpc_url s.urls id) s refl v))
    | inr (client, e) ↦ rw (e, get_client) v
  ]
