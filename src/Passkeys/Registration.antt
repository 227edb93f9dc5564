-- ===== src/Passkeys/Registration.antt =====
-- The way of a registration: src/repository/passkey_repo.go, src/service/passkey.go and src/handler/passkey_handler.go. The
-- table, the making of a UUID and the webauthn library are parameters.
use samanager_backend.Base.{ℕ, String, List, some, Reply, ok, err, Done}
use samanager_backend.Passkeys.Credential.{Library, Credential}
use samanager_backend.Passkeys.User.{User}
use samanager_backend.Http.Errors.{native}
use samanager_backend.Http.Responses.{Response, respond_with_error, respond_with_success_and_status}
use samanager_backend.Http.Jobs.{bad_request}

pub record Registrar (l : Library) : Type 1 where
  pub State : Type 0
  pub Options : Type 0
  pub Session : Type 0
  -- the bytes of the text of a new UUID
  pub new_id : State → List ℕ × State
  -- `Preload("Credentials").Where("name = ?", name).FirstOrCreate`, with the id of a user that is not there yet
  pub first_or_create : String → List ℕ → State → Reply (User l) × State
  pub create : Credential l → State → Reply Done × State
  -- `webauthn.BeginRegistration`, which draws a challenge and may read the user's credentials
  pub begin : User l → State → Reply (Options × Session) × State

module _ (l : Library) (p : Registrar l) where
  unfoldable pub get_or_create_user : String → p.State → Reply (User l) × p.State
  get_or_create_user username s = let (id, s') = p.new_id s in p.first_or_create username id s'

  unfoldable pub save_credential : List ℕ → Credential l → p.State → Reply Done × p.State
  save_credential user_id cred s = p.create cred s

  begin_for : Reply (User l) × p.State → Reply (p.Options × p.Session) × p.State
  begin_for (err e, s) = (err e, s)
  begin_for (ok user, s) = p.begin user s

  unfoldable pub begin_registration : String → p.State → Reply (p.Options × p.Session) × p.State
  unfolding begin_for
  begin_registration username s = begin_for (get_or_create_user username s)

  answer_begun : Reply (p.Options × p.Session) × p.State → Response p.Options × p.State
  answer_begun (err e, s) = (respond_with_error (native e), s)
  answer_begun (ok (options, session), s) = (
    respond_with_success_and_status 201 options (some "Registration options created successfully"),
    s,
  )

  -- The session is not kept.
  unfoldable pub register_begin : Reply String → p.State → Response p.Options × p.State
  unfolding answer_begun
  register_begin (err e) s = (respond_with_error (bad_request e "invalid parameter"), s)
  register_begin (ok username) s = answer_begun (begin_registration username s)
