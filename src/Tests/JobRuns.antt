-- ===== src/Tests/JobRuns.antt =====
-- The jobs table, run on the table in memory, and the due time of a job.
use samanager_backend.Base.{
  ◌≡◌, ◌≤◌, ◌==◌, ◌↔◌, refl, String, true, [], ◌∷◌, Option, none, some, ok, if◌then◌else◌, str_eq,
  replicate,
}
use samanager_backend.Base.Int.{pos}
use samanager_backend.Domain.Job.{DbJob, queuing, Texts, to_entity_job, to_db_job}
use samanager_backend.Domain.Schedule.{ExecutionConfig, is_time_to_execute, is_time_to_execute_iff}
use samanager_backend.Jobs.Laws.{to_entity_job-to_db_job}
use samanager_backend.Tests.Sameness.{encode_two, decode_two, decode_two-encode_two}
use samanager_backend.Tests.Samples.{job, op, of_UserOperation}
use samanager_backend.Erc4337.UserOp.{zero_op}

abbrev pub config : ExecutionConfig
config = record {
  execute_interval = 60;
  number_of_executions = 3;
  number_of_executions_completed = 1;
  start_date = some 1000;
  is_enabled = true;
  last_execution_time = some 1000;
  execution_data = [];
}

is_time_to_execute_iff_example :
    (is_time_to_execute config 1060 ≡ true) ↔ ((config.is_enabled ≡ true) × (1060 ≤ 1060))
is_time_to_execute_iff_example = is_time_to_execute_iff config 1060

-- Every address has the account's text, but for the entry point's.
abbrev pub texts : Texts
texts = record {
  hex = λ a. elim a [ [] ↦ "none" | b ∷ bs ↦ if b == 0xab then "0xab" else "0x07" ];
  hex_to_address = λ text. if str_eq text "0xab" then replicate 20 0xab else replicate 20 0x07;
  marshal_op = encode_two of_UserOperation op zero_op;
  marshal_op_pointer = encode_two of_UserOperation op zero_op;
  unmarshal_op = decode_two of_UserOperation op zero_op;
}

abbrev pub row : DbJob
row = record {
  id = "a";
  account_address = "0xab";
  chain_id = pos 11155111;
  on_chain_job_id = pos 1;
  user_operation = "first";
  entry_point_address = "0x07";
  job_type = "transfer";
  status = queuing;
  err_msg = none;
  created_at = 10;
  updated_at = 10;
}

abbrev pub rows : String → Option DbJob
rows id = if str_eq id "a" then some row else none

to_entity_job-to_db_job_example : to_entity_job texts row ≡ ok job
unfolding to_db_job
to_entity_job-to_db_job_example =
    to_entity_job-to_db_job texts job
      (record {
        unmarshal-marshal = decode_two-encode_two of_UserOperation op zero_op op;
        account = refl;
        entry_point = refl;
      })
      row refl
