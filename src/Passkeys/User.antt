-- ===== src/Passkeys/User.antt =====
-- src/domain/user.go. The cache of the converted credentials is nil (`none`) until it is first asked for. Methods with a
-- pointer receiver return the user that they leave.
pub mod Cache
use samanager_backend.Base.{ℕ, String, List, [], ◌∷◌, ◌++◌, Option, none, some, Reply, ok, err}
use samanager_backend.Base.Errors.{◌>>=◌}
use samanager_backend.Passkeys.Credential.{
  Library, Credential, WebauthnCredential, to_webauthn, from_webauthn,
}

module _ (l : Library) where
  pub record User : Type 0 where
    pub id : List ℕ
    pub name : String
    pub credentials : List (Credential l)
    pub created_at : ℕ
    pub updated_at : ℕ
    pub webauthn_credentials : Option (List (WebauthnCredential l))

  abbrev pub web_authn_id : User → List ℕ
  web_authn_id u = u.id

  abbrev pub web_authn_name : User → String
  web_authn_name u = u.name

  abbrev pub web_authn_display_name : User → String
  web_authn_display_name u = u.name

  -- The credentials that can be converted.
  unfoldable pub converted : List (Credential l) → List (WebauthnCredential l)
  converted [] = []
  converted (c ∷ cs) = elim (to_webauthn l c) [ err e ↦ converted cs | ok wc ↦ wc ∷ converted cs ]

  cached_or_converted :
      Option (List (WebauthnCredential l)) → User → List (WebauthnCredential l) × User
  unfolding converted
  cached_or_converted (some wcs) u = (wcs, u)
  cached_or_converted none u =
      (converted u.credentials, record u { webauthn_credentials = some (converted u.credentials) })

  unfoldable pub web_authn_credentials : User → List (WebauthnCredential l) × User
  unfolding cached_or_converted
  web_authn_credentials u = cached_or_converted u.webauthn_credentials u

  -- `var c Credential` has the library's zero value of the flags; it is overwritten.
  unfoldable pub add_credential : l.Flags → WebauthnCredential l → User → Reply User
  add_credential zero_flags cred u = do
    c ← from_webauthn l cred u.id (record {
      id = [];
      user_id = [];
      public_key = [];
      attestation_type = "";
      transports = [];
      flags = zero_flags;
      authenticator = [];
      created_at = 0;
      updated_at = 0;
    })
    ok (record u { credentials = u.credentials ++ c ∷ []; webauthn_credentials = none })
