-- ===== src/Http/Jobs.antt =====
-- src/handler/job_handler.go, JobHandler. What gin's ShouldBindJSON makes of the body of a request is an
-- argument; `common.IsHexAddress` and `Time.Format` are parameters.
pub mod Checks
pub mod Laws
pub mod Listing
use samanager_backend.Base.{
  ℕ, String, Bool, true, false, not, List, [], ◌∷◌, map, Option, none, some, Error, failure, Reply,
  ok, err, str_eq, ◌&&◌, ◌||◌, ◌⊎◌, inl, inr, if◌then◌else◌,
}
use samanager_backend.Base.Int.{ℤ}
use samanager_backend.Erc4337.UserOp.{UserOperation}
use samanager_backend.Domain.Job.{EntityJob, Texts, job_type_transfer, job_type_swap}
use samanager_backend.Jobs.Database.{Database}
use samanager_backend.Jobs.Service as Service
use samanager_backend.Http.Errors.{AnyError, native, parameter_invalid, with_msg, new_error}
use samanager_backend.Http.Responses.{
  Response, respond_with_error, respond_with_success, respond_with_success_and_status,
}

pub record RegisterJobRequest : Type 0 where
  pub account_address : String
  pub chain_id : ℤ
  pub job_id : ℤ
  pub job_type : String
  pub user_operation : Option UserOperation
  pub entry_point : String

pub record RegisterJobResponse : Type 0 where
  pub job_uuid : String
  pub account_address : String
  pub chain_id : ℤ
  pub job_id : ℤ
  pub job_type : String
  pub entry_point : String
  pub created_at : String
  pub updated_at : String
  pub message : String

pub record JobResponse : Type 0 where
  pub id : String
  pub account_address : String
  pub chain_id : ℤ
  pub on_chain_job_id : ℤ
  pub job_type : String
  pub user_operation : String
  pub entry_point_address : String
  pub created_at : String
  pub updated_at : String

-- The error of a bad request, with its cause and its message for the client.
abbrev pub bad_request : Error → String → AnyError
bad_request cause message = new_error parameter_invalid (native cause) (with_msg message ∷ [])

abbrev or_null : Reply String → String
or_null (err e) = "null"
or_null (ok text) = text

abbrev pub Check : Type 0
Check = AnyError ⊎ UserOperation

-- `if stops { respondWithError(...); return }`, before the rest.
unfoldable pub stop_if : Bool → Error → String → Check → Check
stop_if true cause message rest = inl (bad_request cause message)
stop_if false cause message rest = rest

-- The checks of a request: its first error, or the operation that it has.
unfoldable pub check_request : (String → Bool) → RegisterJobRequest → Check
unfolding stop_if
check_request is_hex_address req = elim req.user_operation [
  | none ↦ inl (
      bad_request (failure "missing required fields")
        "accountAddress, entryPoint, and userOperation are required")
  | some op ↦
      stop_if (str_eq req.account_address "" || str_eq req.entry_point "")
        (failure "missing required fields")
        "accountAddress, entryPoint, and userOperation are required"
        (stop_if (str_eq req.job_type "") (failure "missing job type") "jobType is required" (
          stop_if
            (not (str_eq req.job_type job_type_transfer) && not (str_eq req.job_type job_type_swap))
            (failure "invalid job type") "jobType must be 'transfer' or 'swap'"
            (stop_if (not (is_hex_address req.account_address))
              (failure "invalid account address format")
              "accountAddress must be a valid hex address"
              (stop_if (not (is_hex_address req.entry_point))
                (failure "invalid entry point address format")
                "entryPoint must be a valid hex address" (inr op)))))
]

module _ (d : Database) (t : Texts) (is_hex_address : String → Bool) (format : ℕ → String) where
  unfoldable pub to_job_response : EntityJob → JobResponse
  to_job_response job = record {
    id = job.id;
    account_address = t.hex job.account_address;
    chain_id = job.chain_id;
    on_chain_job_id = job.on_chain_job_id;
    job_type = job.job_type;
    user_operation = or_null (t.marshal_op job.user_operation);
    entry_point_address = t.hex job.entry_point_address;
    created_at = format job.created_at;
    updated_at = format job.updated_at;
  }

  abbrev pub register_job_response : EntityJob → RegisterJobResponse
  register_job_response job = record {
    job_uuid = job.id;
    account_address = t.hex job.account_address;
    chain_id = job.chain_id;
    job_id = job.on_chain_job_id;
    job_type = job.job_type;
    entry_point = t.hex job.entry_point_address;
    created_at = format job.created_at;
    updated_at = format job.updated_at;
    message = "Job registered successfully";
  }

  unfoldable pub answer_registered :
      Reply EntityJob × d.State → Response RegisterJobResponse × d.State
  answer_registered (err e, s) = (respond_with_error (native e), s)
  answer_registered (ok job, s) = (
    respond_with_success_and_status 201 (register_job_response job)
        (some "Job registered successfully"),
    s,
  )

  unfoldable pub register_checked :
      RegisterJobRequest
      → AnyError ⊎ UserOperation
      → d.State
      → Response RegisterJobResponse × d.State
  unfolding answer_registered
  register_checked req (inl e) s = (respond_with_error e, s)
  register_checked req (inr op) s = answer_registered (
      Service.register_job d t (t.hex_to_address req.account_address) req.chain_id req.job_id
        req.job_type op (t.hex_to_address req.entry_point) s)

  unfoldable pub register_job :
      Reply RegisterJobRequest → d.State → Response RegisterJobResponse × d.State
  unfolding register_checked check_request
  register_job (err e) s = (respond_with_error (bad_request e "Invalid request payload"), s)
  register_job (ok req) s = register_checked req (check_request is_hex_address req) s

  unfoldable pub answer_list :
      Reply (List EntityJob) × d.State → Response (List JobResponse) × d.State
  answer_list (err e, s) = (respond_with_error (native e), s)
  answer_list (ok jobs, s) = (respond_with_success (map to_job_response jobs), s)

  unfoldable pub get_job_list : d.State → Response (List JobResponse) × d.State
  unfolding answer_list
  get_job_list s = answer_list (Service.get_active_jobs d t s)
