-- ===== src/Blockchain/Configs/Kept.antt =====
-- What reading the configurations leaves as it was in the pools.
use samanager_backend.Base.{List, [], ◌∷◌, inl, inr, Reply-cases}
use samanager_backend.Domain.Job.{EntityJob}
use samanager_backend.Network.{Network}
use samanager_backend.Blockchain.{Chains, get_client, get_contract_address}
use samanager_backend.Blockchain.Kept.{IsKept, nothing_done, in_turn, only_net, get_client-IsKept}
use samanager_backend.Blockchain.Configs.{
  Configs, Group, group_jobs, get_execution_configs_batch, process_group, process_groups,
  call_group, pack_calls, run_calls, wrap_job,
}

module _ (n : Network) where
  call_group-IsKept :
      (client : n.EthClient) (g : Group) (results : Configs) (s : Chains n)
      → IsKept n s (call_group n client g results s).1
  unfolding call_group
  call_group-IsKept client g results s =
      elim (Reply-cases (
        wrap_job "failed to get contract address for job type" (get_contract_address g.job_type))) [
          | inr (e', e) ↦ rw (e, call_group) (nothing_done n s)
          | inl (address, e) ↦ elim (Reply-cases (pack_calls n g.jobs)) [
            | inr (e', f) ↦ rw (e, call_group, f) (nothing_done n s)
            | inl (calls, f) ↦
                rw (e, call_group, f)
                  (only_net n s (run_calls n client address calls results s.net).1)
          ]
        ]

  pub process_group-IsKept :
      (g : Group) (results : Configs) (s : Chains n) → IsKept n s (process_group n g results s).1
  unfolding process_group
  process_group-IsKept g results s = elim (Reply-cases (get_client n g.chain_id s).0) [
    | inr (e', e) ↦ rw (e, process_group) (get_client-IsKept n g.chain_id s)
    | inl (client, e) ↦
        rw (e, process_group)
          (in_turn n s (get_client n g.chain_id s).1 _ (get_client-IsKept n g.chain_id s)
            (call_group-IsKept client g results (get_client n g.chain_id s).1))
  ]

  process_groups-IsKept :
      (groups : List Group) (results : Configs) (s : Chains n)
      → IsKept n s (process_groups n groups results s).1
  unfolding process_groups
  process_groups-IsKept [] results s = nothing_done n s
  process_groups-IsKept (g ∷ groups) results s =
      elim (Reply-cases (process_group n g results s).0) [
        | inr (e', e) ↦ rw (e, process_groups) (process_group-IsKept g results s)
        | inl (more, e) ↦
            rw (e, process_groups)
              (in_turn n s (process_group n g results s).1 _ (process_group-IsKept g results s)
                (process_groups-IsKept groups more (process_group n g results s).1))
      ]

  pub get_execution_configs_batch-IsKept :
      (order : List Group → List Group) (jobs : List EntityJob) (s : Chains n)
      → IsKept n s (get_execution_configs_batch n order jobs s).1
  unfolding get_execution_configs_batch
  get_execution_configs_batch-IsKept order [] s = nothing_done n s
  get_execution_configs_batch-IsKept order (job ∷ jobs) s =
      process_groups-IsKept (order (group_jobs (job ∷ jobs) [])) [] s
