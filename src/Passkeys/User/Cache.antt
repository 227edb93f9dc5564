-- ===== src/Passkeys/User/Cache.antt =====
-- The cache never shows other credentials than the stored ones.
use mathlib.Core.List.{append_assoc, append-nil}
use samanager_backend.Base.{
  ℕ, ◌≡◌, refl, ◌∙◌, sym, ap, List, [], ◌∷◌, ◌++◌, Option, none, some, Reply, ok, err, Reply-cases,
  inl, inr,
}
use samanager_backend.Passkeys.Credential.{
  Library, IsFaithful, Credential, WebauthnCredential, to_webauthn, from_webauthn,
  to_webauthn-written, stripped,
}
use samanager_backend.Passkeys.User.{
  User, converted, cached_or_converted, web_authn_credentials, add_credential,
}

module _ (l : Library) where
  -- What the webauthn library and the service do with a user.
  pub data Act : Type 0 where
    read : Act
    add : WebauthnCredential l → Act

  abbrev added_or_same : User l → Reply (User l) → User l
  added_or_same u (err e) = u
  added_or_same u (ok u') = u'

  unfoldable pub act : l.Flags → Act → User l → User l
  act zero_flags read u = (web_authn_credentials l u).1
  act zero_flags (add wc) u = added_or_same u (add_credential l zero_flags wc u)

  unfoldable pub act_all : l.Flags → List Act → User l → User l
  act_all zero_flags [] u = u
  act_all zero_flags (a ∷ acts) u = act_all zero_flags acts (act zero_flags a u)

  abbrev kept : WebauthnCredential l → Reply (List ℕ) → Reply (List ℕ) → List (WebauthnCredential l)
  kept wc (ok t) (ok a) = stripped l wc ∷ []
  kept wc t a = []

  -- The credentials that the acts add, without the fields that are not stored, and but for those whose JSON text cannot
  -- be made.
  abbrev pub added_by : Act → List (WebauthnCredential l)
  added_by read = []
  added_by (add wc) =
      kept wc (l.marshal_transports wc.transport) (l.marshal_authenticator wc.authenticator)

  abbrev pub added : List Act → List (WebauthnCredential l)
  added [] = []
  added (a ∷ acts) = added_by a ++ added acts

  abbrev pub IsCoherent : User l → Type 0
  IsCoherent u =
      (wcs : List (WebauthnCredential l))
      → u.webauthn_credentials ≡ some wcs
      → wcs ≡ converted l u.credentials

  converted-append :
      (xs : List (Credential l)) (c : Credential l) (wc : WebauthnCredential l)
      → to_webauthn l c ≡ ok wc
      → converted l (xs ++ c ∷ []) ≡ converted l xs ++ wc ∷ []
  unfolding converted
  converted-append [] c wc e = rw (e, converted) refl
  converted-append (x ∷ xs) c wc e = elim (Reply-cases (to_webauthn l x)) [
    | inl (v, f) ↦ rw (f, converted) (ap (◌∷◌ v) (converted-append xs c wc e))
    | inr (v, f) ↦ rw (f, converted) (converted-append xs c wc e)
  ]

  read_cases :
      (cache : Option (List (WebauthnCredential l))) (u : User l)
      → ((wcs : List (WebauthnCredential l)) → cache ≡ some wcs → wcs ≡ converted l u.credentials)
      → cache ≡ u.webauthn_credentials
      → ((cached_or_converted l cache u).0 ≡ converted l u.credentials)
        × ((cached_or_converted l cache u).1.credentials ≡ u.credentials)
        × IsCoherent (cached_or_converted l cache u).1
  unfolding cached_or_converted
  read_cases none u coherent same = (refl, refl, λ wcs e. cc)
  read_cases (some ws) u coherent same = (coherent ws refl, refl, λ wcs e. coherent wcs (same ∙ e))

  abbrev Grows : List (WebauthnCredential l) → User l → User l → Type 0
  Grows more u u' = (converted l u'.credentials ≡ converted l u.credentials ++ more) × IsCoherent u'

  read-Grows : (u : User l) → IsCoherent u → Grows [] u (web_authn_credentials l u).1
  unfolding web_authn_credentials
  read-Grows u coherent =
      let (shown, same, still) = read_cases u.webauthn_credentials u coherent refl in
      (ap (converted l) same ∙ sym (append-nil (converted l u.credentials)), still)

  add-Grows :
      IsFaithful l
      → (zero_flags : l.Flags) (wc : WebauthnCredential l) (u : User l) → IsCoherent u
      → Grows (added_by (add wc)) u (added_or_same u (add_credential l zero_flags wc u))
  unfolding add_credential from_webauthn
  add-Grows faithful zero_flags wc u coherent =
      elim (Reply-cases (l.marshal_transports wc.transport)) [
        | inr (x, t) ↦
            rw (t, add_credential, from_webauthn)
              (sym (append-nil (converted l u.credentials)), coherent)
        | inl (transports, t) ↦ elim (Reply-cases (l.marshal_authenticator wc.authenticator)) [
          | inr (x, a) ↦
              rw (t, a, add_credential, from_webauthn)
                (sym (append-nil (converted l u.credentials)), coherent)
          | inl (authenticator, a) ↦
              rw (t, a, add_credential, from_webauthn)
                (
                  converted-append u.credentials _ (stripped l wc)
                      (to_webauthn-written l faithful wc u.id transports authenticator t a),
                  λ wcs e. cc,
                )
        ]
      ]

  act-Grows :
      IsFaithful l
      → (zero_flags : l.Flags) (a : Act) (u : User l) → IsCoherent u
      → Grows (added_by a) u (act zero_flags a u)
  unfolding act
  act-Grows faithful zero_flags read u coherent = read-Grows u coherent
  act-Grows faithful zero_flags (add wc) u coherent = add-Grows faithful zero_flags wc u coherent

  act_all-Grows :
      IsFaithful l
      → (zero_flags : l.Flags) (acts : List Act) (u : User l) → IsCoherent u
      → Grows (added acts) u (act_all zero_flags acts u)
  unfolding act_all
  act_all-Grows faithful zero_flags [] u coherent =
      (sym (append-nil (converted l u.credentials)), coherent)
  act_all-Grows faithful zero_flags (a ∷ acts) u coherent =
      let (first, still) = act-Grows faithful zero_flags a u coherent in
      let (rest, last) = act_all-Grows faithful zero_flags acts (act zero_flags a u) still in
      (
        rest
            ∙ ap (λ xs. xs ++ added acts) first
            ∙ append_assoc (converted l u.credentials) (added_by a) (added acts),
        last,
      )

  -- However reads and additions of credentials follow each other, WebAuthnCredentials shows those that the user
  -- had and that can be converted, and then those that were added, each once and in their order, without the
  -- fields that are not stored and but for those whose JSON text cannot be made: what it has cached is never out
  -- of date.
  pub web_authn_credentials-current :
      IsFaithful l
      → (zero_flags : l.Flags) (acts : List Act) (u : User l) → u.webauthn_credentials ≡ none
      → (web_authn_credentials l (act_all zero_flags acts u)).0
        ≡ converted l u.credentials ++ added acts
  unfolding web_authn_credentials
  web_authn_credentials-current faithful zero_flags acts u fresh =
      let (all, coherent) = act_all-Grows faithful zero_flags acts u (λ wcs e. cc) in
      let u' = act_all zero_flags acts u in
      (read_cases u'.webauthn_credentials u' coherent refl).0 ∙ all
