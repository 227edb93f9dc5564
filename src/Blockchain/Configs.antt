-- ===== src/Blockchain/Configs.antt =====
-- src/service/blockchain.go: execution configs read from the chain. `range` over a map visits its entries in any
-- order, so the loop over the groups takes the order as an argument.
pub mod Kept
pub mod Unsupported
use samanager_backend.Base.{
  ℕ, String, Bool, List, [], ◌∷◌, ◌++◌, Option, none, some, wrapped, Reply, ok, err, str_eq, ◌&&◌,
  if◌then◌else◌,
}
use samanager_backend.Base.Errors.{◌>>=◌}
use samanager_backend.Base.Int.{ℤ, eq_ℤ}
use samanager_backend.Domain.Job.{EntityJob}
use samanager_backend.Domain.Schedule.{ExecutionConfig}
use samanager_backend.Network.{Network}
use samanager_backend.Blockchain.{Chains, get_client, get_contract_address}

-- `results[key]`; a later assignment stands before an earlier one.
abbrev pub Configs : Type 0
Configs = List (String × ExecutionConfig)

unfoldable pub find_config : String → Configs → Option ExecutionConfig
find_config id [] = none
find_config id ((key, config) ∷ configs) =
    if str_eq key id then some config else find_config id configs

-- The jobs of one chain and one type.
pub record Group : Type 0 where
  pub chain_id : ℤ
  pub job_type : String
  pub jobs : List EntityJob

abbrev pub same_group : EntityJob → Group → Bool
same_group job g = eq_ℤ g.chain_id job.chain_id && str_eq g.job_type job.job_type

unfoldable pub add_to_group : EntityJob → List Group → List Group
add_to_group job [] =
    record { chain_id = job.chain_id; job_type = job.job_type; jobs = job ∷ [] } ∷ []
add_to_group job (g ∷ groups) =
    let rest = add_to_group job groups in
    if same_group job g then record g { jobs = g.jobs ++ job ∷ [] } ∷ groups else g ∷ rest

unfoldable pub group_jobs : List EntityJob → List Group → List Group
group_jobs [] groups = groups
group_jobs (job ∷ jobs) groups = group_jobs jobs (add_to_group job groups)

abbrev pub wrap_job {ℓ} : {A : Type ℓ} → String → Reply A → Reply A
wrap_job text (ok a) = ok a
wrap_job text (err e) = err (wrapped text e)

module _ (n : Network) where
  unfoldable pub pack_calls : List EntityJob → Reply (List (String × List ℕ))
  pack_calls [] = ok []
  pack_calls (job ∷ jobs) = do
    call ←
        wrap_job "failed to pack calldata for job"
          (n.pack_execution_log job.account_address job.on_chain_job_id)
    calls ← pack_calls jobs
    ok ((job.id, call) ∷ calls)

  unfoldable pub read_config : Reply (List ℕ) → Reply ExecutionConfig
  read_config answer = do
    result ← wrap_job "failed to call contract for job" answer
    wrap_job "failed to unpack result for job" (n.unpack_execution_log result)

  unfoldable pub run_calls :
      n.EthClient → String → List (String × List ℕ) → Configs → n.State → Reply Configs × n.State
  run_calls client address [] results s = (ok results, s)
  run_calls client address ((id, call) ∷ calls) results s =
      let (answer, s') = n.call_contract client address call s in
      elim (read_config answer) [
        | err e ↦ (err e, s')
        | ok config ↦ run_calls client address calls ((id, config) ∷ results) s'
      ]

  abbrev pub on_net {ℓ} : {A : Type ℓ} → Reply A × n.State → Chains n → Reply A × Chains n
  on_net (reply, net) s = (reply, record s { net = net })

  call_group : n.EthClient → Group → Configs → Chains n → Reply Configs × Chains n
  call_group client g results s =
      elim (wrap_job "failed to get contract address for job type"
        (get_contract_address g.job_type)) [
          | err e ↦ (err e, s)
          | ok address ↦ elim (pack_calls g.jobs) [
            | err e ↦ (err e, s)
            | ok calls ↦ on_net (run_calls client address calls results s.net) s
          ]
        ]

  unfoldable pub process_group : Group → Configs → Chains n → Reply Configs × Chains n
  unfolding call_group
  process_group g results s =
      let (client, s') = get_client n g.chain_id s in
      elim client [
        | err e ↦ (err (wrapped "failed to get client for chain" e), s')
        | ok client ↦ call_group client g results s'
      ]

  unfoldable pub process_groups : List Group → Configs → Chains n → Reply Configs × Chains n
  process_groups [] results s = (ok results, s)
  process_groups (g ∷ groups) results s =
      let (reply, s') = process_group g results s in
      elim reply [ err e ↦ (err e, s') | ok more ↦ process_groups groups more s' ]

  unfoldable pub get_execution_configs_batch :
      (List Group → List Group) → List EntityJob → Chains n → Reply Configs × Chains n
  get_execution_configs_batch order [] s = (ok [], s)
  get_execution_configs_batch order (job ∷ jobs) s =
      process_groups (order (group_jobs (job ∷ jobs) [])) [] s

  answered : Reply (List ℕ) → Reply ExecutionConfig
  answered answer = answer >>= n.unpack_execution_log

  called : n.EthClient → String → Reply (List ℕ) → Chains n → Reply ExecutionConfig × Chains n
  unfolding answered
  called client address (err e) s = (err e, s)
  called client address (ok call) s =
      let (answer, net) = n.call_contract client address call s.net in
      (answered answer, record s { net = net })

  addressed : n.EthClient → EntityJob → Reply String → Chains n → Reply ExecutionConfig × Chains n
  unfolding called
  addressed client job (err e) s = (err e, s)
  addressed client job (ok address) s =
      called client address (n.pack_execution_log job.account_address job.on_chain_job_id) s

  -- For one job; its errors have no prefix.
  unfoldable pub get_execution_config : EntityJob → Chains n → Reply ExecutionConfig × Chains n
  unfolding addressed
  get_execution_config job s =
      let (client, s') = get_client n job.chain_id s in
      elim client [
        | err e ↦ (err e, s')
        | ok client ↦ addressed client job (get_contract_address job.job_type) s'
      ]
