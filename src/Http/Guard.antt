-- ===== src/Http/Guard.antt =====
-- src/handler/middleware.go, SharedSecretMiddleware. A header that the request lacks is the empty text. The
-- engine, which calls the handlers of a route one after the other until one has aborted, is a parameter.
use samanager_backend.Base.{
  ◌≡◌, refl, String, true, false, not, [], ◌∷◌, failure, str_eq, ◌&&◌, Bool-cases, inl, inr,
  if◌then◌else◌,
}
use samanager_backend.Http.Errors.{
  native, auth_not_authenticated, with_msg, new_error, name, http_status,
}
use samanager_backend.Http.Responses.{
  Response, respond_with_error, parse_domain_error, map_domain_error_to_code,
}

pub data Verdict {ℓ} (A : Type ℓ) : Type ℓ where
  pass : Verdict A
  refuse : Response A → Verdict A

-- The answer to a request without the secret.
abbrev pub refusal {ℓ} : {A : Type ℓ} → String → String → Response A
refusal cause message =
    respond_with_error
      (new_error auth_not_authenticated (native (failure cause)) (with_msg message ∷ []))

unfoldable pub shared_secret_middleware {ℓ} : {A : Type ℓ} → String → String → Verdict A
shared_secret_middleware api_secret provided =
    if str_eq provided ""
    then refuse (refusal "missing API secret header" "Missing API secret")
    else if str_eq provided api_secret
    then pass
    else refuse (refusal "invalid API secret provided" "Invalid API secret")

module _ (S A : Type 0) where
  -- How the engine runs a middleware before a handler of a route.
  abbrev pub Serve : Type 0
  Serve = Verdict A → (S → Response A × S) → S → Response A × S

  pub record IsEngine (serve : Serve) : Type 0 where
    pub passes : (handle : S → Response A × S) (s : S) → serve pass handle s ≡ handle s
    pub stops :
        (r : Response A) (handle : S → Response A × S) (s : S)
        → r.aborted ≡ true
        → serve (refuse r) handle s ≡ (r, s)

  unfoldable pub protected : Serve → String → String → (S → Response A × S) → S → Response A × S
  protected serve api_secret provided handle s =
      serve (shared_secret_middleware api_secret provided) handle s

  -- A protected handler runs exactly for a request whose secret is there and is the service's; any other request is
  -- answered with 401 and the API code 1004, and changes nothing.
  pub protected_lem :
      (serve : Serve) (engine : IsEngine serve) (api_secret provided : String)
      (handle : S → Response A × S) (s : S)
      → (((not (str_eq provided "") && str_eq provided api_secret) ≡ true)
          → protected serve api_secret provided handle s ≡ handle s)
        × (((not (str_eq provided "") && str_eq provided api_secret) ≡ false)
            → ((protected serve api_secret provided handle s).0.status ≡ 401)
              × ((protected serve api_secret provided handle s).0.body.code ≡ 1004)
              × ((protected serve api_secret provided handle s).1 ≡ s))
  unfolding protected shared_secret_middleware respond_with_error new_error map_domain_error_to_code
      http_status name parse_domain_error
  protected_lem serve engine api_secret provided handle s = elim (Bool-cases (str_eq provided "")) [
    | inl absent ↦
        let stopped =
          engine.stops (refusal "missing API secret header" "Missing API secret") handle s refl in
        (
          λ h. cc (rw absent at h),
          λ _. rw (absent, protected, shared_secret_middleware, stopped) (refl, refl, refl),
        )
    | inr given ↦ elim (Bool-cases (str_eq provided api_secret)) [
      | inl same ↦ (
        λ _. rw (given, protected, shared_secret_middleware, same) (engine.passes handle s),
        λ h. cc (rw (given, same) at h),
      )
      | inr other ↦
          let stopped =
            engine.stops (refusal "invalid API secret provided" "Invalid API secret") handle s
              refl in
          (
            λ h. cc (rw (given, other) at h),
            λ _. rw (given, protected, shared_secret_middleware, other, stopped) (refl, refl, refl),
          )
    ]
  ]
