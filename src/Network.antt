-- ===== src/Network.antt =====
-- The network as the services see it: the clients of go-ethereum, the RPC methods that they call, the
-- clock, and the ABI of `executionLog`. Every answer is a parameter of the model.
use samanager_backend.Base.{ℕ, String, List, Bool, Option, Error, Reply}
use samanager_backend.Base.Int.{ℤ}
use samanager_backend.Erc4337.UserOp.{UserOperation}
use samanager_backend.Domain.Schedule.{ExecutionConfig}

-- erc4337/bundler.go, GasEstimates
pub record GasEstimates : Type 0 where
  pub pre_verification_gas : Option ℤ
  pub verification_gas_limit : Option ℤ
  pub call_gas_limit : Option ℤ
  pub paymaster_verification_gas_limit : Option ℤ
  pub max_fee_per_gas : Option ℤ
  pub max_priority_fee_per_gas : Option ℤ

-- erc4337/bundler.go, parsedTransaction and UserOperationReceipt, without their logs
pub record ParsedTransaction : Type 0 where
  pub block_hash : List ℕ
  pub block_number : String
  pub from_address : List ℕ
  pub cumulative_gas_used : String
  pub gas_used : String
  pub transaction_hash : List ℕ
  pub transaction_index : String
  pub effective_gas_price : String

pub record UserOperationReceipt : Type 0 where
  pub user_op_hash : List ℕ
  pub sender : List ℕ
  pub paymaster : List ℕ
  pub nonce : String
  pub success : Bool
  pub actual_gas_cost : String
  pub actual_gas_used : String
  pub from_address : List ℕ
  pub receipt : Option ParsedTransaction

pub record Network : Type 1 where
  pub State : Type 0
  pub EthClient : Type 0
  pub RpcClient : Type 0
  -- `time.Now().Unix()`
  pub clock : State → ℕ × State
  pub dial_eth : String → State → Reply EthClient × State
  pub dial_rpc : String → State → Reply RpcClient × State
  pub close_eth : EthClient → State → State
  pub close_rpc : RpcClient → State → State
  -- eth_chainId
  pub eth_chain_id : RpcClient → State → Reply ℤ × State
  -- `ethClient.Client()`
  pub rpc_of : EthClient → RpcClient
  -- `CallContract` at an address with call data
  pub call_contract : EthClient → String → List ℕ → State → Reply (List ℕ) × State
  pub pack_execution_log : List ℕ → ℤ → Reply (List ℕ)
  pub unpack_execution_log : List ℕ → Reply ExecutionConfig
  -- eth_estimateUserOperationGas, eth_sendUserOperation, eth_getUserOperationReceipt; a receipt that
  -- the bundler does not have is the zero structure
  pub estimate_gas : RpcClient → UserOperation → List ℕ → State → Reply GasEstimates × State
  pub send_op : RpcClient → UserOperation → List ℕ → State → Reply (List ℕ) × State
  pub receipt : RpcClient → List ℕ → State → Reply UserOperationReceipt × State
  -- eth_call at the entry point with call data, and the hexadecimal number that it answers
  pub eth_call : RpcClient → List ℕ → List ℕ → State → Reply String × State
  -- `big.Int.UnmarshalText`
  pub parse_big : String → Reply ℤ
  -- the batch of eth_getBlockByNumber and rundler_maxPriorityFeePerGas: its error, or the answer of
  -- each call; the first is the block's base fee, or none where the block is null
  pub fee_batch : RpcClient → State → Reply (Reply (Option String) × Reply String) × State
  -- `rpc.DataError`: whether an error is one, and the text of its data if it has any
  pub data_error : Error → Option (Option String)
