-- ===== src/Http/Responses.antt =====
-- src/handler/response.go.
pub mod Laws
use samanager_backend.Base.{
  ℕ, String, Bool, true, false, List, Option, none, some, str_eq, if◌then◌else◌,
}
use samanager_backend.Base.Int.{pos}
use samanager_backend.Http.Errors.{
  AnyError, nil, native, wrapping, domain_error, DomainError, Detail, any_error_text, name,
  http_status,
}

pub record StandardResponse {ℓ} (A : Type ℓ) : Type ℓ where
  pub code : ℕ
  pub message : String
  pub payload : Option A
  pub error : Option Detail

-- What goes to the client. An aborted request reaches no later handler.
pub record Response {ℓ} (A : Type ℓ) : Type ℓ where
  pub status : ℕ
  pub body : StandardResponse A
  pub aborted : Bool

-- The zero value of the structure.
abbrev pub empty_error : DomainError
empty_error = record {
  code = record { name = ""; status_code = 0 };
  err = nil;
  client_msg = "";
  remote_status = pos 0;
  detail = none;
}

-- `errors.As`: the first domain error of the chain; without one, the zero value.
unfoldable pub parse_domain_error : AnyError → DomainError
parse_domain_error nil = empty_error
parse_domain_error (native e) = empty_error
parse_domain_error (wrapping text e) = parse_domain_error e
parse_domain_error (domain_error c e m r d) = record {
  code = c;
  err = e;
  client_msg = m;
  remote_status = r;
  detail = d;
}

unfoldable pub map_name_to_code : String → ℕ
map_name_to_code name =
    if str_eq name "PARAMETER_INVALID"
    then 1001
    else if str_eq name "RESOURCE_NOT_FOUND"
    then 1002
    else if str_eq name "AUTH_PERMISSION_DENIED"
    then 1003
    else if str_eq name "AUTH_NOT_AUTHENTICATED"
    then 1004
    else if str_eq name "INTERNAL_PROCESS"
    then 1005
    else if str_eq name "REMOTE_PROCESS_ERROR"
    then 1006
    else 1000

unfoldable pub map_domain_error_to_code : DomainError → ℕ
unfolding map_name_to_code
map_domain_error_to_code e = map_name_to_code (name e)

module _ {ℓ} {A : Type ℓ} where
  unfoldable pub respond_with_success_and_status : ℕ → A → Option String → Response A
  respond_with_success_and_status status a none = record {
    status = status;
    body = record { code = 0; message = "OK"; payload = some a; error = none };
    aborted = false;
  }
  respond_with_success_and_status status a (some message) = record {
    status = status;
    body = record {
      code = 0;
      message = if str_eq message "" then "OK" else message;
      payload = some a;
      error = none;
    };
    aborted = false;
  }

  unfoldable pub respond_with_success : A → Response A
  respond_with_success a = record {
    status = 200;
    body = record { code = 0; message = "OK"; payload = some a; error = none };
    aborted = false;
  }

  unfoldable pub respond_with_error : AnyError → Response A
  respond_with_error e =
      let found = parse_domain_error e in
      record {
        status = http_status found;
        body = record {
          code = map_domain_error_to_code found;
          message = if str_eq found.client_msg "" then any_error_text e else found.client_msg;
          payload = none;
          error = found.detail;
        };
        aborted = true;
      }
