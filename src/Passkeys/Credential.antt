-- ===== src/Passkeys/Credential.antt =====
-- src/domain/credential.go. The types of the webauthn library are parameters, and so is their JSON text. The fields of
-- the library's credential that the code neither reads nor sets (its Attestation) are one field, `rest`.
use samanager_backend.Base.{ℕ, ◌≡◌, refl, String, List, Reply, ok, arith}
use samanager_backend.Base.Errors.{◌>>=◌, >>=-eq-ok}

pub record Library : Type 1 where
  pub Transport : Type 0
  pub Flags : Type 0
  pub Authenticator : Type 0
  pub Rest : Type 0
  -- what a composite literal gives to the fields that it does not name
  pub zero_rest : Rest
  pub marshal_transports : List Transport → Reply (List ℕ)
  pub unmarshal_transports : List ℕ → Reply (List Transport)
  pub marshal_authenticator : Authenticator → Reply (List ℕ)
  pub unmarshal_authenticator : List ℕ → Reply Authenticator

-- What is written is read back.
pub record IsFaithful (l : Library) : Type 0 where
  pub transports :
      (xs : List l.Transport) (text : List ℕ)
      → l.marshal_transports xs ≡ ok text
      → l.unmarshal_transports text ≡ ok xs
  pub authenticator :
      (a : l.Authenticator) (text : List ℕ)
      → l.marshal_authenticator a ≡ ok text
      → l.unmarshal_authenticator text ≡ ok a

module _ (l : Library) where
  -- A row of the table.
  pub record Credential : Type 0 where
    pub id : List ℕ
    pub user_id : List ℕ
    pub public_key : List ℕ
    pub attestation_type : String
    pub transports : List ℕ
    pub flags : l.Flags
    pub authenticator : List ℕ
    pub created_at : ℕ
    pub updated_at : ℕ

  -- `webauthn.Credential`
  pub record WebauthnCredential : Type 0 where
    pub id : List ℕ
    pub public_key : List ℕ
    pub attestation_type : String
    pub transport : List l.Transport
    pub flags : l.Flags
    pub authenticator : l.Authenticator
    pub rest : l.Rest

  -- A credential without what the table has no column for.
  abbrev pub stripped : WebauthnCredential → WebauthnCredential
  stripped wc = record wc { rest = l.zero_rest }

  unfoldable pub to_webauthn : Credential → Reply WebauthnCredential
  to_webauthn c = do
    transports ← l.unmarshal_transports c.transports
    authenticator ← l.unmarshal_authenticator c.authenticator
    ok (record {
      id = c.id;
      public_key = c.public_key;
      attestation_type = c.attestation_type;
      transport = transports;
      flags = c.flags;
      authenticator = authenticator;
      rest = l.zero_rest;
    })

  unfoldable pub from_webauthn : WebauthnCredential → List ℕ → Credential → Reply Credential
  from_webauthn wc user_id c = do
    transports ← l.marshal_transports wc.transport
    authenticator ← l.marshal_authenticator wc.authenticator
    ok (record {
      id = wc.id;
      user_id = user_id;
      public_key = wc.public_key;
      attestation_type = wc.attestation_type;
      transports = transports;
      flags = wc.flags;
      authenticator = authenticator;
      created_at = c.created_at;
      updated_at = c.updated_at;
    })

  -- A credential that FromWebauthn can write is read back by ToWebauthn, but for the fields that are not stored.
  pub to_webauthn-from_webauthn :
      IsFaithful l
      → (wc : WebauthnCredential) (user_id : List ℕ) (c written : Credential)
      → from_webauthn wc user_id c ≡ ok written
      → to_webauthn written ≡ ok (stripped wc)
  unfolding to_webauthn from_webauthn
  to_webauthn-from_webauthn faithful wc user_id c written e =
      let (transports, t, rest) = >>=-eq-ok (l.marshal_transports wc.transport) _ e in
      let (authenticator, a, last) = >>=-eq-ok (l.marshal_authenticator wc.authenticator) _ rest in
      ground (
        arith,
        faithful.transports wc.transport transports t,
        faithful.authenticator wc.authenticator authenticator a,
      )

  pub to_webauthn-written :
      IsFaithful l
      → (wc : WebauthnCredential) (user_id transports authenticator : List ℕ)
      → l.marshal_transports wc.transport ≡ ok transports
      → l.marshal_authenticator wc.authenticator ≡ ok authenticator
      → to_webauthn (record {
        id = wc.id;
        user_id = user_id;
        public_key = wc.public_key;
        attestation_type = wc.attestation_type;
        transports = transports;
        flags = wc.flags;
        authenticator = authenticator;
        created_at = 0;
        updated_at = 0;
      })
        ≡ ok (stripped wc)
  unfolding to_webauthn
  to_webauthn-written faithful wc user_id transports authenticator t a =
      rw
        (
          faithful.transports wc.transport transports t,
          faithful.authenticator wc.authenticator authenticator a,
        )
        refl
