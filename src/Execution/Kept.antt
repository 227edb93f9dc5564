-- ===== src/Execution/Kept.antt =====
-- What executing a job leaves as it was in the pools.
use samanager_backend.Base.{
  ℕ, String, List, ◌++◌, Option, none, some, Bool-cases, inl, inr, Reply, ok, err,
}
use samanager_backend.Erc4337.UserOp.{UserOperation}
use samanager_backend.Erc4337.Hash.{Hashing}
use samanager_backend.Domain.Job.{EntityJob}
use samanager_backend.Network.{Network}
use samanager_backend.Bundler.{estimate_user_operation_gas, send_user_operation}
use samanager_backend.Blockchain.{Chains, get_rpc_client, get_bundler_client}
use samanager_backend.Blockchain.Kept.{
  IsKept, in_turn, only_net, get_bundler_client-IsKept, get_rpc_client-IsKept,
}
use samanager_backend.Execution.{
  Signer, Run, attempt, returned, unless_panic, on_net, has_gas, with_gas, leading_signature,
  sign_op, extract_nonce_key, get_current_nonce, get_max_fee_per_gas, send_signed, price_and_send,
  with_nonce, execute_job,
}

module _ (n : Network) where
  -- A run that does not panic keeps the pools.
  abbrev pub Keeps {ℓ} : {A : Type ℓ} → Chains n → Run n A → Type 0
  Keeps s none = Unit
  Keeps s (some (reply, s')) = IsKept n s s'

  attempt-Keeps {ℓ κ} :
      {A : Type ℓ} {B : Type κ} (text : String) (s : Chains n) (p : Reply A × Chains n)
      (f : A → Chains n → Run n B)
      → IsKept n s p.1
      → ((a : A) (s' : Chains n) → IsKept n s s' → Keeps s (f a s'))
      → Keeps s (attempt n text p f)
  unfolding attempt
  attempt-Keeps text s (err e, s') f kept rest = kept
  attempt-Keeps text s (ok a, s') f kept rest = rest a s' kept

  returned-Keeps {ℓ κ} :
      {A : Type ℓ} {B : Type κ} (s s' : Chains n) (reply : Reply A) (f : A → Run n B)
      → IsKept n s s'
      → ((a : A) → Keeps s (f a))
      → Keeps s (returned n reply s' f)
  unfolding returned
  returned-Keeps s s' (err e) f kept rest = kept
  returned-Keeps s s' (ok a) f kept rest = rest a

  unless_panic-Keeps {ℓ κ} :
      {A : Type ℓ} {B : Type κ} (s : Chains n) (o : Option A) (f : A → Run n B)
      → ((a : A) → Keeps s (f a))
      → Keeps s (unless_panic n o f)
  unfolding unless_panic
  unless_panic-Keeps s none f rest = tt
  unless_panic-Keeps s (some a) f rest = rest a

  on_net-IsKept {ℓ} :
      {A : Type ℓ} (s s' : Chains n) (f : n.State → Reply A × n.State)
      → IsKept n s s'
      → IsKept n s (on_net n f s').1
  on_net-IsKept s s' f kept = in_turn n s s' (on_net n f s').1 kept (only_net n s' (f s'.net).1)

  module _ (h : Hashing) (k : Signer) where
    send_signed-Keeps :
        (bundler : n.RpcClient) (job : EntityJob) (leading : List ℕ) (op : UserOperation)
        (s s' : Chains n)
        → IsKept n s s'
        → Keeps s (send_signed n h k bundler job leading op s')
    unfolding send_signed
    send_signed-Keeps bundler job leading op s s' kept =
        unless_panic-Keeps s (sign_op h k op job.chain_id) _ (λ reply.
          returned-Keeps s s' reply _ kept (λ signature.
            attempt-Keeps "failed to send user operation" s _ _
              (on_net-IsKept s s'
                (send_user_operation n bundler (record op { signature = leading ++ signature })
                  job.entry_point_address)
                kept)
              (λ hash s'' kept'. kept')))

    price_and_send-Keeps :
        (bundler rpc : n.RpcClient) (job : EntityJob) (leading : List ℕ) (op : UserOperation)
        (s s' : Chains n)
        → IsKept n s s'
        → Keeps s (price_and_send n h k bundler rpc job leading op s')
    unfolding price_and_send
    price_and_send-Keeps bundler rpc job leading op s s' kept =
        attempt-Keeps "failed to estimate user operation gas" s _ _
          (on_net-IsKept s s' (estimate_user_operation_gas n bundler op job.entry_point_address)
            kept)
          (λ estimates s1 kept1.
            unless_panic-Keeps s (get_max_fee_per_gas n rpc s1.net).0 _ (λ reply.
              attempt-Keeps "failed to get gas fees" s _ _
                (in_turn n s s1 _ kept1 (only_net n s1 (get_max_fee_per_gas n rpc s1.net).1))
                (λ fees s2 kept2. elim (Bool-cases (has_gas estimates)) [
                  | inl e ↦ rw e (
                      send_signed-Keeps bundler job leading (with_gas op estimates fees) s s2 kept2)
                  | inr e ↦ rw e tt
                ])))

    with_nonce-Keeps :
        (bundler rpc : n.RpcClient) (job : EntityJob) (key : ℕ) (s s' : Chains n)
        → IsKept n s s'
        → Keeps s (with_nonce n h k bundler rpc job key s')
    unfolding with_nonce
    with_nonce-Keeps bundler rpc job key s s' kept =
        attempt-Keeps "failed to get current nonce" s _ _
          (on_net-IsKept s s' (get_current_nonce n rpc job.user_operation.sender key) kept)
          (λ nonce s1 kept1.
            returned-Keeps s s1 (leading_signature job.user_operation.signature) _ kept1 (λ leading.
              price_and_send-Keeps bundler rpc job leading
                (record job.user_operation { nonce = some nonce }) s s1 kept1))

    pub execute_job-Keeps : (job : EntityJob) (s : Chains n) → Keeps s (execute_job n h k job s)
    unfolding execute_job
    execute_job-Keeps job s =
        attempt-Keeps "failed to get bundler client" s (get_bundler_client n job.chain_id s) _
          (get_bundler_client-IsKept n job.chain_id s)
          (λ bundler s1 kept1.
            attempt-Keeps "failed to get RPC client" s (get_rpc_client n job.chain_id s1) _
              (in_turn n s s1 _ kept1 (get_rpc_client-IsKept n job.chain_id s1))
              (λ rpc s2 kept2.
                unless_panic-Keeps s (extract_nonce_key job.user_operation.nonce) _ (λ reply.
                  attempt-Keeps "failed to extract nonce key" s (reply, s2) _ kept2
                    (λ key s3 kept3. with_nonce-Keeps bundler rpc job key s s3 kept3))))
