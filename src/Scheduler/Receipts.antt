-- ===== src/Scheduler/Receipts.antt =====
-- Step 1 of a polling round: the receipts of the pending jobs. The order in which `range` visits the chains is an
-- argument.
pub mod Outcomes
use samanager_backend.Base.{
  ℕ, String, Bool, true, false, List, [], ◌∷◌, ◌++◌, Option, none, some, Reply, ok, err,
  if◌then◌else◌,
}
use samanager_backend.Base.Int.{ℤ, eq_ℤ}
use samanager_backend.Network.{UserOperationReceipt}
use samanager_backend.Bundler.{is_zero_hash, get_user_operation_receipt}
use samanager_backend.Blockchain.{Chains, get_bundler_client}
use samanager_backend.Cache.Repo.{JobCache, pending, get_job_caches_by_status}
use samanager_backend.Scheduler.World.{Services, World, on_cache, set_failed, remove}

-- `groupJobsByChainID`
abbrev pub ByChain : Type 0
ByChain = List (ℤ × List JobCache)

unfoldable pub add_to_chain : JobCache → ByChain → ByChain
add_to_chain job [] = (job.chain_id, job ∷ []) ∷ []
add_to_chain job ((chain_id, jobs) ∷ chains) =
    let rest = add_to_chain job chains in
    if eq_ℤ chain_id job.chain_id
    then (chain_id, jobs ++ job ∷ []) ∷ chains
    else (chain_id, jobs) ∷ rest

unfoldable pub group_jobs_by_chain_id : List JobCache → ByChain → ByChain
group_jobs_by_chain_id [] chains = chains
group_jobs_by_chain_id (job ∷ jobs) chains = group_jobs_by_chain_id jobs (add_to_chain job chains)

module _ (p : Services) where
  unfoldable pub handle_receipt : JobCache → Reply (Option UserOperationReceipt) → World p → World p
  handle_receipt job (err e) w = w
  handle_receipt job (ok none) w = w
  handle_receipt job (ok (some receipt)) w =
      if receipt.success
      then remove p job.job_id w
      else set_failed p job.job_id "User operation failed on-chain" w

  unfoldable pub check_single_job_receipt : p.network.RpcClient → JobCache → World p → World p
  unfolding handle_receipt
  check_single_job_receipt bundler job w =
      if is_zero_hash job.user_op_hash
      then set_failed p job.job_id "Job has empty user operation hash" w
      else let (reply, net) =
          get_user_operation_receipt p.network bundler job.user_op_hash w.chains.net in
        handle_receipt job reply (record w { chains = record w.chains { net = net } })

  unfoldable pub check_jobs : p.network.RpcClient → List JobCache → World p → World p
  check_jobs bundler [] w = w
  check_jobs bundler (job ∷ jobs) w =
      check_jobs bundler jobs (check_single_job_receipt bundler job w)

  unfoldable pub check_receipts_for_chain : ℤ → List JobCache → World p → World p
  check_receipts_for_chain chain_id jobs w =
      let (reply, chains) = get_bundler_client p.network chain_id w.chains in
      let w' : World p = record w { chains = chains } in
      elim reply [ err e ↦ w' | ok bundler ↦ check_jobs bundler jobs w' ]

  unfoldable pub check_chains : ByChain → World p → World p
  check_chains [] w = w
  check_chains ((chain_id, jobs) ∷ chains) w =
      check_chains chains (check_receipts_for_chain chain_id jobs w)

  unfoldable pub check_pending : (ByChain → ByChain) → Reply (List JobCache) → World p → World p
  check_pending order (err e) w = w
  check_pending order (ok []) w = w
  check_pending order (ok (job ∷ jobs)) w =
      check_chains (order (group_jobs_by_chain_id (job ∷ jobs) [])) w

  unfoldable pub check_receipts_for_pending_jobs : (ByChain → ByChain) → World p → World p
  unfolding check_pending
  check_receipts_for_pending_jobs order w =
      let (reply, w') =
        on_cache p (get_job_caches_by_status p.redis p.codec p.queue_name pending) w in
      check_pending order reply w'
