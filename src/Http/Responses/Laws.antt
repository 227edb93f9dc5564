-- ===== src/Http/Responses/Laws.antt =====
-- What a client sees of an error.
use samanager_backend.Base.{
  ℕ, ◌≡◌, refl, String, true, false, List, [], ◌∷◌, none, Error, str_eq, All,
}
use samanager_backend.Base.Int.{pos}
use samanager_backend.Http.Errors.{
  ErrorCode, AnyError, DomainError, native, wrapping, domain_error, with_msg, new_error, name,
  http_status, any_error_text, internal_process, auth_permission_denied, auth_not_authenticated,
  resource_not_found, parameter_invalid, remote_process,
}
use samanager_backend.Http.Responses.{
  Response, parse_domain_error, map_domain_error_to_code, respond_with_error,
}

-- An error wrapped by the contexts that it has passed, the innermost last.
abbrev pub wraps : List String → AnyError → AnyError
wraps [] e = e
wraps (text ∷ texts) e = wrapping text (wraps texts e)

parse_domain_error-wraps :
    (texts : List String) (e : AnyError) → parse_domain_error (wraps texts e) ≡ parse_domain_error e
unfolding parse_domain_error
parse_domain_error-wraps [] e = refl
parse_domain_error-wraps (text ∷ texts) e = parse_domain_error-wraps texts e

-- The codes of the domain, each with the code that the API answers with.
abbrev pub api_codes : List (ErrorCode × ℕ)
api_codes =
    (parameter_invalid, 1001)
    ∷ (resource_not_found, 1002)
    ∷ (auth_permission_denied, 1003)
    ∷ (auth_not_authenticated, 1004)
    ∷ (internal_process, 1005)
    ∷ (remote_process, 1006)
    ∷ []

-- What is answered to an error: its HTTP status, its API code, its message.
abbrev pub Answers {ℓ} : {A : Type ℓ} → Response A → ℕ → ℕ → String → Type ℓ
Answers {A} r status code message = r ≡ record {
  status = status;
  body = record { code = code; message = message; payload = none; error = none };
  aborted = true;
}

module _ {ℓ} {A : Type ℓ} where
  respond_with_error-found :
      (e : AnyError) (found : DomainError)
      → parse_domain_error e ≡ found
      → str_eq found.client_msg "" ≡ false
      → respond_with_error {A = A} e ≡ record {
        status = http_status found;
        body = record {
          code = map_domain_error_to_code found;
          message = found.client_msg;
          payload = none;
          error = found.detail;
        };
        aborted = true;
      }
  unfolding respond_with_error
  respond_with_error-found e found p h = rw (p, respond_with_error, h) refl

  -- An error made for one of the six codes with a message for the client, however often it was wrapped on its way,
  -- is answered with that code's HTTP status and API code, and with that message alone: neither the cause nor the
  -- contexts are shown. Nothing later handles the request.
  pub respond_with_error-new_error :
      (texts : List String) (cause : Error) (message : String)
      → str_eq message "" ≡ false
      → All
          (λ (entry : ErrorCode × ℕ).
            Answers {A = A}
              (respond_with_error
                (wraps texts (new_error entry.0 (native cause) (with_msg message ∷ []))))
              entry.0.status_code
              entry.1
              message)
          api_codes
  unfolding respond_with_error new_error map_domain_error_to_code http_status name
      parse_domain_error
  respond_with_error-new_error texts cause message h =
      let answered = λ (code : ErrorCode).
        let e = domain_error code (native cause) message (pos 0) none in
        respond_with_error-found (wraps texts e)
          (record {
            code = code;
            err = native cause;
            client_msg = message;
            remote_status = pos 0;
            detail = none;
          })
          (parse_domain_error-wraps texts e) h in
      (
        answered parameter_invalid,
        (
          answered resource_not_found,
          (
            answered auth_permission_denied,
            (
              answered auth_not_authenticated,
              (answered internal_process, (answered remote_process, tt)),
            ),
          ),
        ),
      )

  -- An error without a domain error in its chain, such as one of the database, is answered with 500, the API code
  -- 1000, and its whole text, which thus goes to the client.
  pub respond_with_error-native :
      (texts : List String) (e : Error)
      → Answers {A = A}
          (respond_with_error (wraps texts (native e)))
          500
          1000
          (any_error_text (wraps texts (native e)))
  unfolding respond_with_error map_domain_error_to_code http_status name parse_domain_error
  respond_with_error-native texts e =
      rw (parse_domain_error-wraps texts (native e), respond_with_error) refl
