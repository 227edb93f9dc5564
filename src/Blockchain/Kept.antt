-- ===== src/Blockchain/Kept.antt =====
-- What the calls on the pools leave as it was.
use samanager_backend.Base.{
  ◌≡◌, refl, ◌∙◌, String, Option, none, some, Reply, ok, err, Option-cases, inl, inr,
}
use samanager_backend.Base.Int.{ℤ}
use samanager_backend.Network.{Network}
use samanager_backend.Blockchain.{
  Chains, close, rpc_url, get_client, get_client_locked, dial_client, add_client, find_pool,
  get_rpc_client, get_bundler_client, get_bundler_client_locked, dial_bundler, add_bundler,
  bundler_url, get_bundler_url,
}
use samanager_backend.Blockchain.Pools.{Supported-∷, IsConsistent}
use samanager_backend.Bundler.{dial_context}

module _ (n : Network) where
  pub record IsKept (s s' : Chains n) : Type 0 where
    pub urls : s'.urls ≡ s.urls
    pub consistent : IsConsistent n s → IsConsistent n s'

  pub nothing_done : (s : Chains n) → IsKept s s
  nothing_done s = record { urls = refl; consistent = λ v. v }

  pub in_turn : (a b c : Chains n) → IsKept a b → IsKept b c → IsKept a c
  in_turn a b c f g = record {
    urls = g.urls ∙ f.urls;
    consistent = λ v. g.consistent (f.consistent v);
  }

  pub only_net : (s : Chains n) (net : n.State) → IsKept s (record s { net = net })
  only_net s net = record {
    urls = refl;
    consistent = λ v. record { clients = v.clients; bundlers = v.bundlers };
  }

  add_client-IsKept :
      (id : ℤ) (url : String) (reply : Reply n.EthClient × n.State) (s : Chains n)
      → rpc_url s.urls id ≡ some url
      → IsKept s (add_client n id reply s).1
  unfolding add_client
  add_client-IsKept id url (err e, net) s h = only_net s net
  add_client-IsKept id url (ok client, net) s h = record {
    urls = refl;
    consistent = λ v. record {
      clients = Supported-∷ s.urls id url client s.client_pool h v.clients;
      bundlers = v.bundlers;
    };
  }

  dial_client-IsKept :
      (id : ℤ) (url : Option String) (s : Chains n)
      → rpc_url s.urls id ≡ url
      → IsKept s (dial_client n id url s).1
  unfolding dial_client
  dial_client-IsKept id none s h = nothing_done s
  dial_client-IsKept id (some url) s h = add_client-IsKept id url (n.dial_eth url s.net) s h

  -- Under the lock, after the pool was missed.
  pub get_client_locked-IsKept : (id : ℤ) (s : Chains n) → IsKept s (get_client_locked n id s).1
  unfolding get_client_locked
  get_client_locked-IsKept id s = elim (Option-cases (find_pool id s.client_pool)) [
    | inl e ↦ rw (e, get_client_locked) (dial_client-IsKept id (rpc_url s.urls id) s refl)
    | inr (client, e) ↦ rw (e, get_client_locked) (nothing_done s)
  ]

  pub get_client-IsKept : (id : ℤ) (s : Chains n) → IsKept s (get_client n id s).1
  unfolding get_client
  get_client-IsKept id s = elim (Option-cases (find_pool id s.client_pool)) [
    | inl e ↦ rw (e, get_client) (get_client_locked-IsKept id s)
    | inr (client, e) ↦ rw (e, get_client) (nothing_done s)
  ]

  pub get_rpc_client-IsKept : (id : ℤ) (s : Chains n) → IsKept s (get_rpc_client n id s).1
  unfolding get_rpc_client
  get_rpc_client-IsKept id s = get_client-IsKept id s

  add_bundler-IsKept :
      (id : ℤ) (url : String) (reply : Reply n.RpcClient × n.State) (s : Chains n)
      → rpc_url s.urls id ≡ some url
      → IsKept s (add_bundler n id reply s).1
  unfolding add_bundler
  add_bundler-IsKept id url (err e, net) s h = only_net s net
  add_bundler-IsKept id url (ok bundler, net) s h = record {
    urls = refl;
    consistent = λ v. record {
      clients = v.clients;
      bundlers = Supported-∷ s.urls id url bundler s.bundler_pool h v.bundlers;
    };
  }

  dial_url-IsKept :
      (id : ℤ) (url : Option String) (s : Chains n)
      → rpc_url s.urls id ≡ url
      → IsKept s (dial_bundler n id (bundler_url n url) s).1
  unfolding dial_bundler
  dial_url-IsKept id none s h = nothing_done s
  dial_url-IsKept id (some url) s h = add_bundler-IsKept id url (dial_context n url s.net) s h

  pub get_bundler_client_locked-IsKept :
      (id : ℤ) (s : Chains n) → IsKept s (get_bundler_client_locked n id s).1
  unfolding get_bundler_client_locked get_bundler_url
  get_bundler_client_locked-IsKept id s = elim (Option-cases (find_pool id s.bundler_pool)) [
    | inl e ↦ rw (e, get_bundler_client_locked) (dial_url-IsKept id (rpc_url s.urls id) s refl)
    | inr (bundler, e) ↦ rw (e, get_bundler_client_locked) (nothing_done s)
  ]

  pub get_bundler_client-IsKept : (id : ℤ) (s : Chains n) → IsKept s (get_bundler_client n id s).1
  unfolding get_bundler_client
  get_bundler_client-IsKept id s = elim (Option-cases (find_pool id s.bundler_pool)) [
    | inl e ↦ rw (e, get_bundler_client) (get_bundler_client_locked-IsKept id s)
    | inr (bundler, e) ↦ rw (e, get_bundler_client) (nothing_done s)
  ]

  pub close-IsKept : (s : Chains n) → IsKept s (close n s)
  unfolding close find_pool
  close-IsKept s = record {
    urls = refl;
    consistent = λ v. record { clients = λ id h. refl; bundlers = λ id h. refl };
  }
