-- ===== src/Cache/Redis.antt =====
-- The Redis commands that src/repository/job_cache.go uses, and what it relies on of them. A command
-- takes the state of the server and returns its reply and the next state; errors of the network are
-- replies. `held` is what a key holds, `items` what a list holds, its head first.
use samanager_backend.Base.{
  ℕ, ◌≡◌, ◌⊎◌, String, false, List, [], ◌∷◌, ◌++◌, Option, none, some, redis_nil, Reply, ok, err,
  Done, str_eq,
}

pub record Redis : Type 1 where
  pub State : Type 0
  pub get : String → State → Reply String × State
  pub set : String → String → ℕ → State → Reply Done × State
  pub del : String → State → Reply Done × State
  pub keys : String → State → Reply (List String) × State
  pub lpush : String → String → State → Reply Done × State
  pub brpop : ℕ → String → State → Reply String × State

-- Documented behaviour. No law says that a command succeeds. What a key holds changes by a command
-- alone: no key expires while a function of the repository runs.
pub record IsLawful (r : Redis) : Type 0 where
  pub held : r.State → String → Option String
  pub items : r.State → String → List String
  pub get_ok : (k v : String) (s : r.State) → (r.get k s).0 ≡ ok v → held s k ≡ some v
  pub get_nil : (k : String) (s : r.State) → (r.get k s).0 ≡ err redis_nil → held s k ≡ none
  pub get_held : (k j : String) (s : r.State) → held (r.get k s).1 j ≡ held s j
  pub set_ok :
      (k v : String) (ttl : ℕ) (s : r.State)
      → (r.set k v ttl s).0 ≡ ok tt
      → held (r.set k v ttl s).1 k ≡ some v
  -- A set whose reply is lost may have been run.
  pub set_or_not :
      (k v : String) (ttl : ℕ) (s : r.State)
      → (held (r.set k v ttl s).1 k ≡ some v) ⊎ (held (r.set k v ttl s).1 k ≡ held s k)
  pub set_other :
      (k v : String) (ttl : ℕ) (s : r.State) (j : String)
      → str_eq k j ≡ false
      → held (r.set k v ttl s).1 j ≡ held s j
  pub del_ok : (k : String) (s : r.State) → (r.del k s).0 ≡ ok tt → held (r.del k s).1 k ≡ none
  pub del_other :
      (k : String) (s : r.State) (j : String) → str_eq k j ≡ false → held (r.del k s).1 j ≡ held s j
  pub keys_held : (p j : String) (s : r.State) → held (r.keys p s).1 j ≡ held s j
  pub lpush_held : (q v j : String) (s : r.State) → held (r.lpush q v s).1 j ≡ held s j
  pub brpop_held : (t : ℕ) (q j : String) (s : r.State) → held (r.brpop t q s).1 j ≡ held s j
  pub lpush_ok :
      (q v : String) (s : r.State)
      → (r.lpush q v s).0 ≡ ok tt
      → items (r.lpush q v s).1 q ≡ v ∷ items s q
  pub brpop_ok :
      (t : ℕ) (q v : String) (s : r.State)
      → (r.brpop t q s).0 ≡ ok v
      → items s q ≡ items (r.brpop t q s).1 q ++ v ∷ []
