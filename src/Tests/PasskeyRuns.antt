-- ===== src/Tests/PasskeyRuns.antt =====
-- A user who gets a passkey, and then another that cannot be written.
use samanager_backend.Base.{
  ℕ, ◌≡◌, refl, sym, Bool, true, false, List, [], ◌∷◌, Option, none, some, failure, Reply, ok, err,
}
use samanager_backend.Passkeys.Credential.{Library, IsFaithful, WebauthnCredential}
use samanager_backend.Passkeys.User.{User, web_authn_credentials, converted}
use samanager_backend.Passkeys.User.Cache.{Act, read, add, act_all, web_authn_credentials-current}

-- An authenticator is a number or, when it cannot be written, nothing.
abbrev written : Option ℕ → Reply (List ℕ)
written none = err (failure "unsupported value")
written (some n) = ok (n ∷ [])

abbrev read_back : List ℕ → Reply (Option ℕ)
read_back [] = err (failure "unexpected end of JSON input")
read_back (n ∷ ns) = ok (some n)

read_back-written : (a : Option ℕ) (text : List ℕ) → written a ≡ ok text → read_back text ≡ ok a
read_back-written none text e = cc
read_back-written (some n) text e = let same : n ∷ [] ≡ text = cc in rw (← same) refl

abbrev library : Library
library = record {
  Transport = ℕ;
  Flags = Bool;
  Authenticator = Option ℕ;
  Rest = ℕ;
  zero_rest = 0;
  marshal_transports = λ xs. ok xs;
  unmarshal_transports = λ xs. ok xs;
  marshal_authenticator = written;
  unmarshal_authenticator = read_back;
}

library-IsFaithful : IsFaithful library
library-IsFaithful = record { transports = λ xs text e. sym e; authenticator = read_back-written }

abbrev passkey : WebauthnCredential library
passkey = record {
  id = 1 ∷ [];
  public_key = 2 ∷ [];
  attestation_type = "none";
  transport = 3 ∷ [];
  flags = true;
  authenticator = some 4;
  rest = 5;
}

abbrev odd_passkey : WebauthnCredential library
odd_passkey = record passkey { authenticator = none }

abbrev user : User library
user = record {
  id = 7 ∷ [];
  name = "user";
  credentials = [];
  created_at = 0;
  updated_at = 0;
  webauthn_credentials = none;
}

abbrev acts : List (Act library)
acts = read ∷ add passkey ∷ read ∷ add odd_passkey ∷ []

web_authn_credentials-current_example :
    (web_authn_credentials library (act_all library false acts user)).0
    ≡ record passkey { rest = 0 } ∷ []
unfolding converted
web_authn_credentials-current_example =
    web_authn_credentials-current library library-IsFaithful false acts user refl
