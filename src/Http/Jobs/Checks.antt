-- ===== src/Http/Jobs/Checks.antt =====
-- What the checks of RegisterJob let through.
use samanager_backend.Base.{
  ◌≡◌, refl, inl, inr, String, Bool, true, false, not, ◌&&◌, ◌||◌, Option, none, some, Error,
  failure, str_eq, Option-cases,
}
use samanager_backend.Erc4337.UserOp.{UserOperation}
use samanager_backend.Domain.Job.{job_type_transfer, job_type_swap}
use samanager_backend.Http.Errors.{new_error, apply_options, name, http_status}
use samanager_backend.Http.Responses.{
  Response, respond_with_error, parse_domain_error, map_domain_error_to_code,
}
use samanager_backend.Http.Jobs.{RegisterJobRequest, Check, stop_if, bad_request, check_request}

-- What a request needs: the operation, a known type, and two addresses.
abbrev pub has_operation : Option UserOperation → Bool
has_operation none = false
has_operation (some op) = true

abbrev pub is_valid_request : (String → Bool) → RegisterJobRequest → Bool
is_valid_request is_hex_address req =
    has_operation req.user_operation
    && (not (str_eq req.account_address "" || str_eq req.entry_point "")
        && (not (str_eq req.job_type "")
            && ((str_eq req.job_type job_type_transfer || str_eq req.job_type job_type_swap)
                && (is_hex_address req.account_address && is_hex_address req.entry_point))))

-- The answer to a bad request.
abbrev pub IsBadRequest {ℓ} : {A : Type ℓ} → Response A → Type 0
IsBadRequest r = (r.status ≡ 400) × (r.body.code ≡ 1001)

pub bad_request-IsBadRequest :
    (A : Type 0) (cause : Error) (message : String)
    → IsBadRequest (respond_with_error {A = A} (bad_request cause message))
unfolding respond_with_error new_error apply_options map_domain_error_to_code name http_status
    parse_domain_error
bad_request-IsBadRequest A cause message = (refl, refl)

-- What a check has found, for a request that is valid or is not.
abbrev pub IsFound : Bool → Check → Type 0
IsFound true c = (op : UserOperation) × (c ≡ inr op)
IsFound false c = (cause : Error) × (message : String) × (c ≡ inl (bad_request cause message))

pub IsFound-eq : (a b : Bool) (c : Check) → a ≡ b → IsFound a c → IsFound b c
IsFound-eq true true c e found = found
IsFound-eq true false c e found = cc
IsFound-eq false true c e found = cc
IsFound-eq false false c e found = found

-- One check before others.
IsFound-if :
    (stops valid rest : Bool) (cause : Error) (message : String) (others : Check)
    → not stops ≡ valid
    → IsFound rest others
    → IsFound (valid && rest) (stop_if stops cause message others)
unfolding stop_if
IsFound-if true true rest cause message others h found = cc
IsFound-if true false rest cause message others h found = (cause, message, refl)
IsFound-if false true rest cause message others h found = found
IsFound-if false false rest cause message others h found = cc

not_twice : (b : Bool) → not (not b) ≡ b
not_twice true = refl
not_twice false = refl

not_and : (a b : Bool) → not (not a && not b) ≡ (a || b)
not_and true b = refl
not_and false true = refl
not_and false false = refl

last_check :
    (valid : Bool) (cause : Error) (message : String) (op : UserOperation)
    → IsFound valid (stop_if (not valid) cause message (inr op))
unfolding stop_if
last_check true cause message op = (op, refl)
last_check false cause message op = (cause, message, refl)

pub check_request-IsFound :
    (is_hex_address : String → Bool) (req : RegisterJobRequest)
    → IsFound (is_valid_request is_hex_address req) (check_request is_hex_address req)
unfolding check_request
check_request-IsFound is_hex_address req = elim (Option-cases req.user_operation) [
  | inl none_given ↦
      rw (none_given, check_request)
        (
          failure "missing required fields",
          "accountAddress, entryPoint, and userOperation are required",
          refl,
        )
  | inr (op, given) ↦
      rw (given, check_request)
        (IsFound-if (str_eq req.account_address "" || str_eq req.entry_point "") _ _ _ _ _ refl (
          IsFound-if (str_eq req.job_type "") _ _ _ _ _ refl (
            IsFound-if _ _ _ _ _ _
              (not_and (str_eq req.job_type job_type_transfer) (str_eq req.job_type job_type_swap))
              (IsFound-if _ _ _ _ _ _ (not_twice (is_hex_address req.account_address))
                (last_check (is_hex_address req.entry_point) _ _ op)))))
]
