-- ===== src/Tests/CommandRuns.antt =====
-- The programs under cmd/ on a table with the job, and on a bundler whose receipt comes late.
use samanager_backend.Base.{
  ℕ, ◌≡◌, ◌↔◌, ◌<◌, ◌+◌, refl, String, true, false, ◌∷◌, none, some, ok, str_eq, replicate,
  if◌then◌else◌,
}
use samanager_backend.Base.Int.{pos}
use samanager_backend.Domain.Job.{Texts}
use samanager_backend.Blockchain.{rpc_url}
use samanager_backend.Execution.{dummy_signature}
use samanager_backend.Settings.Config.{Env, AppConfig, new_app_config}
use samanager_backend.Settings.Wiring.{blockchain_config}
use samanager_backend.Bundler.{get_user_operation_receipt, is_zero_hash}
use samanager_backend.Bundler.Wait.{answer_of}
use samanager_backend.Settings.Config.{
  load_required_config, required, known_environment, load_optional_config, get_env_with_default,
  get_polling_interval, load_host_config, load_rpc_config, load_webauthn_config,
  load_webauthn_origins, parse_origins, trim_origins,
}
use samanager_backend.Settings.Texts.{
  trim_0x, split_comma, trim_space, trim_left, trim_right, is_space, atoi,
}
use samanager_backend.Settings.Wiring.{new_blockchain_service}
use samanager_backend.Execution.Service.{new_execution_service, personal_sign_hash, signed_message}
use samanager_backend.Jobs.Repo.{find_job_by_id}
use samanager_backend.Domain.Job.{to_entity_job}
use samanager_backend.Execution.{
  execute_job, attempt, returned, unless_panic, extract_nonce_key, leading_signature, add_at,
  get_current_nonce, get_max_fee_per_gas, fees_of, sign_op, with_gas, send_signed,
}
use samanager_backend.Blockchain.{
  find_pool, get_client, get_client_locked, get_rpc_client, get_bundler_client,
  get_bundler_client_locked, get_bundler_url,
}
use samanager_backend.Bundler.{dial_context, estimate_user_operation_gas, send_user_operation}
use samanager_backend.Bundler.Wait.{wait_for_user_op_receipt, poll, attempt as attempt_receipt}
use samanager_backend.Erc4337.Hash.{get_user_op_hash}
use samanager_backend.Erc4337.Pack.{pack_user_op, pack_pair, put_limit, pack_paymaster}
use samanager_backend.Base.Digits.{digits, of_digits}
use samanager_backend.Commands.ExecuteJob
use samanager_backend.Commands.ExecuteJob.{job_id, command_config, Desk, reported}
use samanager_backend.Commands.ExecuteJob.Reported.{
  Report, IsLeftOut, main-Report, rpc_url-command_config,
}
use samanager_backend.Commands.SendOp.{crashed, ask, poll_receipt}
use samanager_backend.Commands.SendOp.Polling.{outcome, after, AllFailed, poll_receipt_iff}
use samanager_backend.Commands.Worker
use samanager_backend.Commands.Worker.Closing.{Life-closes}
use samanager_backend.Tests.Stores.{table}
use samanager_backend.Tests.Samples.{op}
use samanager_backend.Tests.JobRuns.{texts, row}
use samanager_backend.Tests.ChainRuns.{receipt_of, net, hashing}
use samanager_backend.Tests.WaitRuns.{late, awaited}
use samanager_backend.Tests.LifeRuns.{ecdsa, drivers, config}

rpc_url-command_config_example :
    (IsLeftOut (pos 42161) → rpc_url (command_config config) (pos 42161) ≡ some "")
    × (¬ IsLeftOut (pos 42161)
        → rpc_url (command_config config) (pos 42161)
          ≡ rpc_url (blockchain_config config) (pos 42161))
rpc_url-command_config_example = rpc_url-command_config config (pos 42161)

abbrev wait : ℕ → ℕ
wait s = s

poll_receipt_iff_example : ((poll_receipt late wait "sepolia" awaited 3 0).0 ≡ crashed) ↔ (
    (k : ℕ) × (k < 3)
    × AllFailed late wait "sepolia" awaited k 0
    × (outcome (ask late wait "sepolia" awaited (after late wait "sepolia" awaited k 0)).0
        ≡ crashed))
poll_receipt_iff_example = poll_receipt_iff late wait "sepolia" awaited 3 0 crashed (λ e. cc)

-- The receipt comes with the second attempt, which WaitForUserOpReceipt waits for; here the first panics.
crashes : (poll_receipt late wait "sepolia" awaited 3 0).0 ≡ crashed
unfolding poll_receipt ask answer_of get_user_operation_receipt is_zero_hash
crashes = refl

abbrev given : Texts
given = record texts {
  unmarshal_op = λ text. ok (record op { signature = 1 ∷ 2 ∷ dummy_signature });
}

abbrev env : Env
env key = if str_eq key "ENVIRONMENT" then "staging" else "set"

abbrev desk : Desk net wait hashing table given drivers ecdsa
desk = record {
  drivers = 0;
  table = λ id. if str_eq id job_id then some (record row { id = job_id }) else none;
  net = 0;
}

main-Report_example :
    (c : AppConfig) × (new_app_config env "migrations" ≡ ok c)
    × Report net wait hashing table given drivers ecdsa desk.table c
        (receipt_of (replicate 32 9) true)
unfolding load_required_config required known_environment load_optional_config get_env_with_default
    get_polling_interval load_host_config load_rpc_config load_webauthn_config load_webauthn_origins
    parse_origins trim_origins trim_0x split_comma trim_space trim_left trim_right is_space atoi
    new_blockchain_service new_execution_service personal_sign_hash signed_message find_job_by_id
    to_entity_job execute_job attempt returned unless_panic extract_nonce_key leading_signature
    add_at get_current_nonce get_max_fee_per_gas fees_of sign_op with_gas send_signed find_pool
    get_client get_client_locked get_rpc_client get_bundler_client get_bundler_client_locked
    get_bundler_url dial_context estimate_user_operation_gas send_user_operation
    wait_for_user_op_receipt poll attempt_receipt get_user_op_hash pack_user_op pack_pair put_limit
    pack_paymaster digits of_digits answer_of get_user_operation_receipt is_zero_hash rpc_url
    new_app_config ExecuteJob.main ExecuteJob.run_job
main-Report_example =
    main-Report net wait hashing table given drivers ecdsa env "migrations" desk
      (receipt_of (replicate 32 9) true) refl

abbrev worker_drivers : Worker.Drivers
worker_drivers = record {
  State = ℕ;
  Db = String;
  Redis = String;
  open_db = λ dsn s. (ok dsn, s + 1);
  ping_db = λ db s. (ok tt, s + 1);
  close_db = λ db s. (ok tt, s + 1);
  new_client = λ addr. addr;
  ping_redis = λ redis s. (ok tt, s + 1);
  set_last_poll = λ redis s. (ok tt, s + 1);
  close_redis = λ redis s. (ok tt, s + 1);
}

abbrev Alive : Type 0
Alive = (s : Worker.Program worker_drivers) × Worker.Life worker_drivers "db" "redis" 0 s

abbrev go :
    (l : Alive) {t : Worker.Program worker_drivers} → Worker.Move worker_drivers l.0 t → Alive
go (s, life) {t} move = (t, Worker.later life move)

-- A poll, the signal, and the ends of the two workers.
abbrev ended : Alive
unfolding Worker.http_step Worker.polling_step
ended =
    go
      (go
        (go
          (go
            (go
              (go
                (go (Worker.launch worker_drivers "db" "redis" 0, Worker.launched)
                  (Worker.polling_moved true))
                (Worker.signal refl))
              Worker.http_moved)
            Worker.http_moved)
          Worker.http_moved)
        (Worker.polling_moved false))
      (Worker.all_ended refl refl)

Life-closes_example :
    (ended.0.db_closes + Worker.http_weight worker_drivers ended.0.http ≡ 1)
    × (ended.0.redis_closes + Worker.polling_weight worker_drivers ended.0.polling ≡ 1)
    × (ended.0.main ≡ Worker.Main.graceful → (ended.0.db_closes ≡ 1) × (ended.0.redis_closes ≡ 1))
unfolding ended
Life-closes_example = Life-closes worker_drivers "db" "redis" 0 ended.0 ended.1
