-- ===== src/Bundler.antt =====
-- erc4337/bundler.go, BundlerClient.
pub mod Wait
use samanager_backend.Base.{
  ℕ, String, ◌<>◌, Bool, true, List, [], ◌∷◌, Option, none, some, Error, failure, wrapped,
  error_text, Reply, ok, err, ◌==◌, ◌&&◌, if◌then◌else◌,
}
use samanager_backend.Base.Int.{ℤ}
use samanager_backend.Erc4337.UserOp.{UserOperation}
use samanager_backend.Network.{Network, GasEstimates, UserOperationReceipt}

-- `h == (common.Hash{})`
unfoldable pub is_zero_hash : List ℕ → Bool
is_zero_hash [] = true
is_zero_hash (b ∷ bs) = b == 0 && is_zero_hash bs

module _ (n : Network) where
  unfoldable pub handle_rpc_error : Error → String → Error
  handle_rpc_error e operation = elim (n.data_error e) [
    | none ↦ wrapped ("bundler call failed in " <> operation) e
    | some none ↦ failure ((("bundler RPC error in " <> operation) <> ": ") <> error_text e)
    | some (some text) ↦
        failure (
          (((("bundler RPC error in " <> operation) <> ": ") <> error_text e) <> ", data: ")
          <> text)
  ]

  abbrev handled {ℓ} : {A : Type ℓ} → String → Reply A × n.State → Reply A × n.State
  handled operation (ok a, s) = (ok a, s)
  handled operation (err e, s) = (err (handle_rpc_error e operation), s)

  unfoldable pub dial_context : String → n.State → Reply n.RpcClient × n.State
  dial_context url s = n.dial_rpc url s

  unfoldable pub chain_id : n.RpcClient → n.State → Reply ℤ × n.State
  chain_id b s = handled "eth_chainId" (n.eth_chain_id b s)

  -- A bundler client is made with a connection that is not nil.
  abbrev pub close : n.RpcClient → n.State → n.State
  close b s = n.close_rpc b s

  unfoldable pub estimate_user_operation_gas :
      n.RpcClient → UserOperation → List ℕ → n.State → Reply GasEstimates × n.State
  estimate_user_operation_gas b op entry_point s =
      handled "eth_estimateUserOperationGas" (n.estimate_gas b op entry_point s)

  unfoldable pub send_user_operation :
      n.RpcClient → UserOperation → List ℕ → n.State → Reply (List ℕ) × n.State
  send_user_operation b op entry_point s =
      handled "eth_sendUserOperation" (n.send_op b op entry_point s)

  -- A receipt with the zero hash is not there yet.
  abbrev present : Reply UserOperationReceipt → Reply (Option UserOperationReceipt)
  present (err e) = err e
  present (ok receipt) = if is_zero_hash receipt.user_op_hash then ok none else ok (some receipt)

  unfoldable pub get_user_operation_receipt :
      n.RpcClient → List ℕ → n.State → Reply (Option UserOperationReceipt) × n.State
  get_user_operation_receipt b hash s =
      let (reply, s') = handled "eth_getUserOperationReceipt" (n.receipt b hash s) in
      (present reply, s')
