-- ===== src/Http/Errors.antt =====
-- src/domain/error.go: errors with a code, and errors of any kind as the handlers meet them.
use samanager_backend.Base.{
  ℕ, suc, String, ◌<>◌, Bool, true, false, not, List, [], ◌∷◌, ◌++◌, Option, none, Error,
  error_text, str_eq, ◌==◌, if◌then◌else◌,
}
use samanager_backend.Base.Int.{ℤ, pos, negsuc, eq_ℤ}
use samanager_backend.Base.Digits.{digits}

pub record ErrorCode : Type 0 where
  pub name : String
  pub status_code : ℕ

abbrev pub internal_process : ErrorCode
internal_process = record { name = "INTERNAL_PROCESS"; status_code = 500 }

abbrev pub auth_permission_denied : ErrorCode
auth_permission_denied = record { name = "AUTH_PERMISSION_DENIED"; status_code = 403 }

abbrev pub auth_not_authenticated : ErrorCode
auth_not_authenticated = record { name = "AUTH_NOT_AUTHENTICATED"; status_code = 401 }

abbrev pub resource_not_found : ErrorCode
resource_not_found = record { name = "RESOURCE_NOT_FOUND"; status_code = 404 }

abbrev pub parameter_invalid : ErrorCode
parameter_invalid = record { name = "PARAMETER_INVALID"; status_code = 400 }

abbrev pub remote_process : ErrorCode
remote_process = record { name = "REMOTE_PROCESS_ERROR"; status_code = 502 }

-- A detail is a key with the JSON text of its value.
abbrev pub Detail : Type 0
Detail = List (String × String)

-- An `error` value. `domain_error` is a DomainError, with its fields in the order of the structure;
-- `wrapping` is an error of fmt.Errorf with %w; `nil` is no error.
pub data AnyError : Type 0 where
  nil : AnyError
  native : Error → AnyError
  wrapping : String → AnyError → AnyError
  domain_error : ErrorCode → AnyError → String → ℤ → Option Detail → AnyError

pub record DomainError : Type 0 where
  pub code : ErrorCode
  pub err : AnyError
  pub client_msg : String
  pub remote_status : ℤ
  pub detail : Option Detail

abbrev pub as_error : DomainError → AnyError
as_error e = domain_error e.code e.err e.client_msg e.remote_status e.detail

-- `strconv.Itoa`
abbrev digit_text : ℕ → String
digit_text d =
    if d == 0
    then "0"
    else if d == 1
    then "1"
    else if d == 2
    then "2"
    else if d == 3
    then "3"
    else if d == 4
    then "4"
    else if d == 5
    then "5"
    else if d == 6
    then "6"
    else if d == 7
    then "7"
    else if d == 8
    then "8"
    else "9"

texts_of_digits : List ℕ → String
texts_of_digits [] = ""
texts_of_digits (d ∷ ds) = digit_text d <> texts_of_digits ds

unfoldable pub itoa : ℤ → String
unfolding texts_of_digits
itoa (pos n) = if n == 0 then "0" else texts_of_digits (digits 10 n)
itoa (negsuc n) = "-" <> texts_of_digits (digits 10 (suc n))

-- `strings.Join(msgs, ": ")`
unfoldable pub join : List String → String
join [] = ""
join (x ∷ []) = x
join (x ∷ y ∷ xs) = (x <> ": ") <> join (y ∷ xs)

abbrev when : Bool → String → List String
when true text = text ∷ []
when false text = []

-- `remoteStatus != 0` and `clientMsg != ""`
abbrev no_text : String → Bool
no_text text = str_eq text ""

abbrev pub is_nil : AnyError → Bool
is_nil nil = true
is_nil _ = false

-- `err.Error()`
unfoldable pub any_error_text : AnyError → String
any_error_text nil = ""
any_error_text (native e) = error_text e
any_error_text (wrapping text e) = (text <> ": ") <> any_error_text e
any_error_text (domain_error code e client_msg remote_status detail) = join (
    when (not (eq_ℤ remote_status (pos 0))) (itoa remote_status)
    ++ (when (not (is_nil e)) (any_error_text e) ++ when (not (no_text client_msg)) client_msg))

unfoldable pub name : DomainError → String
name e = if no_text e.code.name then "UNKNOWN_ERROR" else e.code.name

unfoldable pub http_status : DomainError → ℕ
http_status e = if e.code.status_code == 0 then 500 else e.code.status_code

pub data ErrorOption : Type 0 where
  with_msg : String → ErrorOption
  with_status : ℤ → ErrorOption
  with_detail : Option Detail → ErrorOption

unfoldable pub apply_option : ErrorOption → DomainError → DomainError
apply_option (with_msg msg) e = record e { client_msg = msg }
apply_option (with_status status) e = record e { remote_status = status }
apply_option (with_detail detail) e = record e { detail = detail }

unfoldable pub apply_options : List ErrorOption → DomainError → DomainError
unfolding apply_option
apply_options [] e = e
apply_options (o ∷ os) e = apply_options os (apply_option o e)

-- `DomainError{code: code, err: err}`
abbrev pub fresh_error : ErrorCode → AnyError → DomainError
fresh_error code e = record {
  code = code;
  err = e;
  client_msg = "";
  remote_status = pos 0;
  detail = none;
}

-- An error that is a domain error already is kept as it is.
unfoldable pub new_error : ErrorCode → AnyError → List ErrorOption → AnyError
unfolding apply_options
new_error code (domain_error c e m r d) opts = domain_error c e m r d
new_error code nil opts = as_error (apply_options opts (fresh_error code nil))
new_error code (native e) opts = as_error (apply_options opts (fresh_error code (native e)))
new_error code (wrapping text e) opts =
    as_error (apply_options opts (fresh_error code (wrapping text e)))
