-- ===== src/Tests/ChainRuns.antt =====
-- The pools, and a job executed, on a network that answers.
use samanager_backend.Base.{
  ℕ, ◌+◌, ◌≡◌, refl, String, true, [], ◌∷◌, none, some, failure, ok, err, replicate, take, str_eq,
  if◌then◌else◌,
}
use samanager_backend.Base.Int.{pos}
use samanager_backend.Erc4337.Hash.{Hashing}
use samanager_backend.Domain.Job.{EntityJob}
use samanager_backend.Domain.Schedule.{ExecutionConfig}
use samanager_backend.Network.{Network, GasEstimates, UserOperationReceipt}
use samanager_backend.Base.{List, Bool}
use samanager_backend.Blockchain.{
  Urls, rpc_url, Chains, find_pool, get_client, get_client_locked, get_bundler_client,
}
use samanager_backend.Base.{inl, inr}
use samanager_backend.Base.Errors.{IsErr}
use samanager_backend.Blockchain.Configs.{get_execution_configs_batch}
use samanager_backend.Blockchain.Configs.Unsupported.{get_execution_configs_batch-unsupported}
use samanager_backend.Blockchain.Pools.{IsConsistent}
use samanager_backend.Blockchain.Pools.Stable.{here, client, network, bundler, get_client-Later}
use samanager_backend.Execution.{Signer, dummy_signature}
use samanager_backend.Tests.Samples.{job, op}

abbrev pub estimates : GasEstimates
estimates = record {
  pre_verification_gas = some (pos 50000);
  verification_gas_limit = some (pos 90000);
  call_gas_limit = some (pos 70000);
  paymaster_verification_gas_limit = none;
  max_fee_per_gas = none;
  max_priority_fee_per_gas = none;
}

abbrev pub config : ExecutionConfig
config = record {
  execute_interval = 60;
  number_of_executions = 3;
  number_of_executions_completed = 1;
  start_date = some 1000;
  is_enabled = true;
  last_execution_time = some 1000;
  execution_data = [];
}

abbrev pub receipt_of : List ℕ → Bool → UserOperationReceipt
receipt_of hash success = record {
  user_op_hash = hash;
  sender = [];
  paymaster = replicate 20 0;
  nonce = "0x8";
  success = success;
  actual_gas_cost = "0x1";
  actual_gas_used = "0x1";
  from_address = [];
  receipt = none;
}

-- Its state counts the calls.
abbrev pub net : Network
net = record {
  State = ℕ;
  EthClient = String;
  RpcClient = String;
  clock = λ s. (s, s);
  dial_eth = λ url s. (ok url, s + 1);
  dial_rpc = λ url s. (ok url, s + 1);
  close_eth = λ client s. s;
  close_rpc = λ client s. s;
  eth_chain_id = λ client s. (ok (pos 11155111), s + 1);
  rpc_of = λ client. client;
  call_contract = λ client address call s. (ok [], s + 1);
  pack_execution_log = λ account id. ok [];
  unpack_execution_log = λ answer. ok config;
  estimate_gas = λ client op entry_point s. (ok estimates, s + 1);
  send_op = λ client op entry_point s. (ok (replicate 32 9), s + 1);
  receipt = λ client hash s. (ok (receipt_of hash true), s + 1);
  eth_call = λ client to call s. (ok "0x8", s + 1);
  parse_big = λ text. if str_eq text "0x8" then ok (pos 8) else err (failure "not a number");
  fee_batch = λ client s. (ok (ok (some "0x8"), ok "0x8"), s + 1);
  data_error = λ e. none;
}

abbrev pub urls : Urls
urls = record {
  sepolia = "sepolia";
  arbitrum_sepolia = "arbitrum sepolia";
  base_sepolia = "base sepolia";
  optimism_sepolia = "optimism sepolia";
  polygon_amoy = "polygon amoy";
  arbitrum = "arbitrum";
  base = "base";
}

abbrev pub start : Chains net
start = record { urls = urls; client_pool = []; bundler_pool = []; net = 0 }

abbrev with_client : Chains net
with_client = record start { client_pool = (pos 11155111, "sepolia") ∷ []; net = 1 }

-- After a client for Base, some time, and a bundler.
abbrev mixed : Chains net
mixed =
    (get_bundler_client net (pos 11155111)
      (record (get_client net (pos 8453) (get_client net (pos 11155111) start).1).1 { net = 9 })).1

get_client-Later_example :
    (get_client net (pos 11155111) mixed ≡ (ok "sepolia", mixed))
    × (get_client_locked net (pos 11155111) mixed ≡ (ok "sepolia", mixed))
unfolding get_client get_client_locked find_pool rpc_url
get_client-Later_example =
    get_client-Later net (pos 11155111) start mixed "sepolia" refl
      (bundler (pos 11155111) (network 9 (client (pos 8453) here)))

start-IsConsistent : IsConsistent net start
unfolding find_pool
start-IsConsistent = record { clients = λ id h. refl; bundlers = λ id h. refl }

abbrev pub hashing : Hashing
hashing = record { keccak256 = λ xs. take 32 xs; abi_pack = λ values. ok (7 ∷ []) }

abbrev pub signer : Signer
signer = record { personal_sign_hash = λ hash. hash; sign = λ hash. ok (replicate 65 1) }

abbrev pub signed_job : EntityJob
signed_job = record job { user_operation = record op { signature = 1 ∷ 2 ∷ dummy_signature } }

abbrev pub after : Chains net
after = record {
  urls = urls;
  client_pool = (pos 11155111, "sepolia") ∷ [];
  bundler_pool = (pos 11155111, "sepolia") ∷ [];
  net = 6;
}

-- The second job stands on a chain that is not supported.
get_execution_configs_batch-unsupported_example :
    IsErr
      (get_execution_configs_batch net
        (λ groups. groups)
        (job ∷ record job { id = "b"; chain_id = pos 1 } ∷ [])
        start).0
unfolding rpc_url
get_execution_configs_batch-unsupported_example =
    get_execution_configs_batch-unsupported net (λ groups. groups)
      (job ∷ record job { id = "b"; chain_id = pos 1 } ∷ []) start (pos 1) (λ groups has. has)
      start-IsConsistent refl (inr (inl refl))
