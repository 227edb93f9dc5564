-- ===== src/Blockchain/Configs/Unsupported.antt =====
-- One job on an unsupported chain, and the batch that reads the configurations.
use samanager_backend.Base.{
  ◌≡◌, refl, ap, ◌∙◌, ◌⊎◌, inl, inr, true, List, [], ◌∷◌, none, err, Reply-cases, Bool-cases, arith,
}
use samanager_backend.Base.Errors.{IsErr}
use samanager_backend.Base.Int.{ℤ, eq_of_eq_ℤ}
use samanager_backend.Base.{failure, wrapped}
use samanager_backend.Domain.Job.{EntityJob}
use samanager_backend.Network.{Network}
use samanager_backend.Blockchain.{Chains, rpc_url}
use samanager_backend.Blockchain.Pools.{IsConsistent, get_client-unsupported}
use samanager_backend.Blockchain.Configs.Kept.{process_group-IsKept}
use samanager_backend.Blockchain.Configs.{
  Configs, Group, same_group, add_to_group, group_jobs, get_execution_configs_batch, process_group,
  process_groups,
}

-- Some group, and some job, of a chain.
abbrev pub HasChain : ℤ → List Group → Type 0
HasChain id [] = ⊥
HasChain id (g ∷ groups) = (g.chain_id ≡ id) ⊎ HasChain id groups

abbrev pub OnChain : ℤ → List EntityJob → Type 0
OnChain id [] = ⊥
OnChain id (job ∷ jobs) = (job.chain_id ≡ id) ⊎ OnChain id jobs

same_chain : (job : EntityJob) (g : Group) → same_group job g ≡ true → g.chain_id ≡ job.chain_id
same_chain job g h = eq_of_eq_ℤ g.chain_id job.chain_id (ground arith)

add_to_group-HasChain_own :
    (job : EntityJob) (groups : List Group) → HasChain job.chain_id (add_to_group job groups)
unfolding add_to_group
add_to_group-HasChain_own job [] = inl refl
add_to_group-HasChain_own job (g ∷ groups) = elim (Bool-cases (same_group job g)) [
  | inl e ↦ rw (e, add_to_group) (inl (same_chain job g e))
  | inr e ↦ rw (e, add_to_group) (inr (add_to_group-HasChain_own job groups))
]

add_to_group-HasChain :
    (id : ℤ) (job : EntityJob) (groups : List Group)
    → HasChain id groups
    → HasChain id (add_to_group job groups)
unfolding add_to_group
add_to_group-HasChain id job [] none_there = elim none_there [ ]
add_to_group-HasChain id job (g ∷ groups) (inl own) = elim (Bool-cases (same_group job g)) [
  | inl e ↦ rw (e, add_to_group) (inl own)
  | inr e ↦ rw (e, add_to_group) (inl own)
]
add_to_group-HasChain id job (g ∷ groups) (inr later) = elim (Bool-cases (same_group job g)) [
  | inl e ↦ rw (e, add_to_group) (inr later)
  | inr e ↦ rw (e, add_to_group) (inr (add_to_group-HasChain id job groups later))
]

group_jobs-HasChain :
    (id : ℤ) (jobs : List EntityJob) (groups : List Group)
    → OnChain id jobs ⊎ HasChain id groups
    → HasChain id (group_jobs jobs groups)
unfolding group_jobs
group_jobs-HasChain id [] groups (inr has) = has
group_jobs-HasChain id [] groups (inl none_there) = elim none_there [ ]
group_jobs-HasChain id (job ∷ jobs) groups (inl (inl own)) =
    group_jobs-HasChain id jobs (add_to_group job groups)
      (inr (rw (← own) (add_to_group-HasChain_own job groups)))
group_jobs-HasChain id (job ∷ jobs) groups (inl (inr later)) =
    group_jobs-HasChain id jobs (add_to_group job groups) (inl later)
group_jobs-HasChain id (job ∷ jobs) groups (inr has) =
    group_jobs-HasChain id jobs (add_to_group job groups)
      (inr (add_to_group-HasChain id job groups has))

module _ (n : Network) where
  process_groups-unsupported :
      (groups : List Group) (id : ℤ) (results : Configs) (s : Chains n)
      → IsConsistent n s
      → rpc_url s.urls id ≡ none
      → HasChain id groups
      → IsErr (process_groups n groups results s).0
  unfolding process_groups process_group
  process_groups-unsupported [] id results s v h none_there = elim none_there [ ]
  process_groups-unsupported (g ∷ groups) id results s v h (inl own) =
      let answer = (get_client-unsupported n g.chain_id s v (ap (rpc_url s.urls) own ∙ h)).0 in
      let refused : (process_group n g results s).0
          ≡ err (wrapped "failed to get client for chain" (failure "unsupported chain id")) =
        rw (answer, process_group) refl in
      (
        wrapped "failed to get client for chain" (failure "unsupported chain id"),
        rw (refused, process_groups) refl,
      )
  process_groups-unsupported (g ∷ groups) id results s v h (inr later) =
      let kept = process_group-IsKept n g results s in
      elim (Reply-cases (process_group n g results s).0) [
        | inr (e', e) ↦ rw (e, process_groups) (e', refl)
        | inl (more, e) ↦
            rw (e, process_groups)
              (process_groups-unsupported groups id more (process_group n g results s).1
                (kept.consistent v) (ap (λ u. rpc_url u id) kept.urls ∙ h) later)
      ]

  -- With pools that hold supported chains alone, one job on an unsupported chain makes the whole batch an error,
  -- in whatever order its groups are visited: no job of any chain gets its configuration.
  pub get_execution_configs_batch-unsupported :
      (order : List Group → List Group) (jobs : List EntityJob) (s : Chains n) (id : ℤ)
      → ((groups : List Group) → HasChain id groups → HasChain id (order groups))
      → IsConsistent n s
      → rpc_url s.urls id ≡ none
      → OnChain id jobs
      → IsErr (get_execution_configs_batch n order jobs s).0
  unfolding get_execution_configs_batch
  get_execution_configs_batch-unsupported order [] s id visits v h none_there = elim none_there [ ]
  get_execution_configs_batch-unsupported order (job ∷ jobs) s id visits v h on_chain =
      process_groups-unsupported (order (group_jobs (job ∷ jobs) [])) id [] s v h (
        visits (group_jobs (job ∷ jobs) []) (group_jobs-HasChain id (job ∷ jobs) [] (inl on_chain)))
