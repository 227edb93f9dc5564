-- ===== src/Domain/Job.antt =====
-- src/domain/job.go: jobs. A UUID is its canonical text, an address a list of bytes, a time a number
-- of seconds. JSON columns and the checksummed text of an address are made by libraries.
use samanager_backend.Base.{ℕ, String, List, Option, Reply, ok, err, wrapped}
use samanager_backend.Base.Int.{ℤ}
use samanager_backend.Base.Errors.{◌>>=◌}
use samanager_backend.Erc4337.UserOp.{UserOperation}

pub data DbJobStatus : Type 0 where
  queuing completed failed : DbJobStatus

abbrev pub job_type_transfer : String
job_type_transfer = "transfer"

abbrev pub job_type_swap : String
job_type_swap = "swap"

pub record DbJob : Type 0 where
  pub id : String
  pub account_address : String
  pub chain_id : ℤ
  pub on_chain_job_id : ℤ
  pub user_operation : String
  pub entry_point_address : String
  pub job_type : String
  pub status : DbJobStatus
  pub err_msg : Option String
  pub created_at : ℕ
  pub updated_at : ℕ

pub record EntityJob : Type 0 where
  pub id : String
  pub account_address : List ℕ
  pub chain_id : ℤ
  pub on_chain_job_id : ℤ
  pub user_operation : UserOperation
  pub entry_point_address : List ℕ
  pub job_type : String
  pub status : DbJobStatus
  pub err_msg : Option String
  pub created_at : ℕ
  pub updated_at : ℕ

-- `Address.Hex`, `common.HexToAddress`, and the JSON text of a user operation. A pointer to an operation
-- is written by its MarshalJSON; an operation passed by value is not addressable, and is written by
-- encoding/json field by field.
pub record Texts : Type 0 where
  pub hex : List ℕ → String
  pub hex_to_address : String → List ℕ
  pub marshal_op : UserOperation → Reply String
  pub marshal_op_pointer : UserOperation → Reply String
  pub unmarshal_op : String → Reply UserOperation

abbrev wrap {ℓ} : {A : Type ℓ} → String → Reply A → Reply A
wrap text (ok a) = ok a
wrap text (err e) = err (wrapped text e)

module _ (t : Texts) where
  unfoldable pub to_entity_job : DbJob → Reply EntityJob
  to_entity_job j = do
    user_op ← wrap "failed to unmarshal user operation" (t.unmarshal_op j.user_operation)
    ok (record {
      id = j.id;
      account_address = t.hex_to_address j.account_address;
      chain_id = j.chain_id;
      on_chain_job_id = j.on_chain_job_id;
      user_operation = user_op;
      entry_point_address = t.hex_to_address j.entry_point_address;
      job_type = j.job_type;
      status = j.status;
      err_msg = j.err_msg;
      created_at = j.created_at;
      updated_at = j.updated_at;
    })

  unfoldable pub to_db_job : EntityJob → Reply DbJob
  to_db_job rj = do
    user_op_json ← wrap "failed to marshal user operation" (t.marshal_op rj.user_operation)
    ok (record {
      id = rj.id;
      account_address = t.hex rj.account_address;
      chain_id = rj.chain_id;
      on_chain_job_id = rj.on_chain_job_id;
      user_operation = user_op_json;
      entry_point_address = t.hex rj.entry_point_address;
      job_type = rj.job_type;
      status = rj.status;
      err_msg = rj.err_msg;
      created_at = rj.created_at;
      updated_at = rj.updated_at;
    })
