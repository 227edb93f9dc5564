-- ===== src/Application/Router/Guarded.antt =====
-- src/app/app.go, registerRoutes: what a request without the secret reaches, and what one with it does.
use samanager_backend.Base.{
  ℕ, ◌≡◌, ◌∙◌, refl, String, Bool, true, false, not, List, [], ◌∷◌, ◌++◌, map, none, some, All,
  str_eq, eq_iff, ◌&&◌, Bool-cases, inl, inr,
}
use samanager_backend.Domain.Job.{Texts}
use samanager_backend.Jobs.Database.{Database}
use samanager_backend.Http.Responses.{Response, respond_with_error}
use samanager_backend.Http.Guard.{pass, refuse, refusal, shared_secret_middleware}
use samanager_backend.Http.Jobs.{register_job, get_job_list}
use samanager_backend.Settings.Config.{AppConfig}
use samanager_backend.Application.Router.{
  Library, Gin, IsGin, Handler, log_request, health, list_jobs, register, library, shared_secret,
  Answer, other, refused, healthy, listed, registered, Incoming, cors_config, register_routes, Step,
  run_handler, IsChain,
}
use samanager_backend.Application.Router.Routes.{
  is_guarded, inner, locked_chain, all_guarded, post_jobs_route, get_jobs_route,
}

abbrev pub has_secret : String → String → Bool
has_secret secret provided = not (str_eq provided "") && str_eq provided secret

middleware-pass :
    (secret provided : String)
    → has_secret secret provided ≡ true
    → shared_secret_middleware {A = String} secret provided ≡ pass
unfolding shared_secret_middleware
middleware-pass secret provided right = elim (Bool-cases (str_eq provided "")) [
  | inl absent ↦ absurd (cc (rw absent at right))
  | inr given ↦ elim (Bool-cases (str_eq provided secret)) [
    | inl same ↦ rw (given, same) refl
    | inr differs ↦ absurd (cc (rw (given, differs) at right))
  ]
]

middleware-refuse :
    (secret provided : String)
    → has_secret secret provided ≡ false
    → (r : Response String) × (shared_secret_middleware secret provided ≡ refuse r)
      × (r.aborted ≡ true)
unfolding shared_secret_middleware respond_with_error
middleware-refuse secret provided wrong = elim (Bool-cases (str_eq provided "")) [
  | inl absent ↦ (
    refusal "missing API secret header" "Missing API secret",
    rw (absent, shared_secret_middleware) refl,
    refl,
  )
  | inr given ↦ elim (Bool-cases (str_eq provided secret)) [
    | inl same ↦ absurd (cc (rw (given, same) at wrong))
    | inr differs ↦ (
      refusal "invalid API secret provided" "Invalid API secret",
      rw (given, differs, shared_secret_middleware) refl,
      refl,
    )
  ]
]

module _ (l : Library) (d : Database) (t : Texts) (is_hex_address : String → Bool)
    (format : ℕ → String)
    (serve : List (Step l d t is_hex_address format) → d.State → List (Answer l) × d.State)
    (chain : IsChain l d t is_hex_address format serve) where
  -- No answer of a handler of the jobs.
  abbrev pub is_public : Answer l → Bool
  is_public (other output) = true
  is_public (refused r) = true
  is_public (healthy r) = true
  is_public (listed r) = false
  is_public (registered r) = false

  abbrev pub Kept : d.State → List (Answer l) × d.State → Type 0
  Kept s x = (x.1 ≡ s) × All (λ a. is_public a ≡ true) x.0

  public_both :
      (xs ys : List (Answer l))
      → All (λ a. is_public a ≡ true) xs
      → All (λ a. is_public a ≡ true) ys
      → All (λ a. is_public a ≡ true) (xs ++ ys)
  public_both [] ys _ k = k
  public_both (x ∷ xs) ys (h, hs) k = (h, public_both xs ys hs k)

  public_outputs : (outputs : List l.Output) → All (λ a. is_public a ≡ true) (map other outputs)
  public_outputs [] = tt
  public_outputs (x ∷ outputs) = (refl, public_outputs outputs)

  abbrev pub steps : Incoming l → List (Handler l) → List (Step l d t is_hex_address format)
  steps request hs = map (run_handler l d t is_hex_address format request) hs

  step-Kept :
      (h : Step l d t is_hex_address format) (hs : List (Step l d t is_hex_address format))
      (s : d.State) (answers : List (Answer l)) (aborted : Bool)
      → h s ≡ ((answers, aborted), s)
      → All (λ a. is_public a ≡ true) answers
      → (aborted ≡ false → Kept s (serve hs s))
      → Kept s (serve (h ∷ hs) s)
  step-Kept h hs s answers true e public rest =
      rw (chain.aborted h hs s (rw e refl), e) (refl, public)
  step-Kept h hs s answers false e public rest =
      rw (chain.goes_on h hs s (rw e refl), e)
        ((rest refl).0, public_both answers (serve hs s).0 public (rest refl).1)

  serve-Kept :
      (secret : String) (request : Incoming l)
      → has_secret secret request.secret ≡ false
      → (hs : List (Handler l)) → is_guarded l secret hs ≡ true
      → (s : d.State) → Kept s (serve (steps request hs) s)
  unfolding run_handler
  serve-Kept secret request wrong [] guarded s = rw (chain.none_left s) (refl, tt)
  serve-Kept secret request wrong (log_request ∷ hs) guarded s =
      step-Kept _ _ s [] false refl tt (λ _. serve-Kept secret request wrong hs guarded s)
  serve-Kept secret request wrong (library h ∷ hs) guarded s =
      step-Kept _ _ s _ _ refl (public_outputs (l.run h request.raw).0)
        (λ _. serve-Kept secret request wrong hs guarded s)
  serve-Kept secret request wrong (health ∷ hs) guarded s =
      step-Kept _ _ s _ _ refl (refl, tt) (λ _. serve-Kept secret request wrong hs guarded s)
  serve-Kept secret request wrong (shared_secret tested ∷ hs) guarded s =
      let (r, e, stops) =
        middleware-refuse tested request.secret (rw ((eq_iff tested secret).0 guarded) wrong) in
      step-Kept _ _ s (refused r ∷ []) true (rw (e, stops) refl) (refl, tt)
        (λ goes. absurd (cc goes))
  serve-Kept secret request wrong (list_jobs ∷ hs) guarded s = absurd (cc guarded)
  serve-Kept secret request wrong (register ∷ hs) guarded s = absurd (cc guarded)

  step_on :
      (h : Step l d t is_hex_address format) (hs : List (Step l d t is_hex_address format))
      (s : d.State) (answers : List (Answer l))
      → h s ≡ ((answers, false), s)
      → (serve (h ∷ hs) s).1 ≡ (serve hs s).1
  step_on h hs s answers e = rw (chain.goes_on h hs s (rw e refl), e) refl

  last_step : (h : Step l d t is_hex_address format) (s : d.State) → (serve (h ∷ []) s).1 ≡ (h s).1
  last_step h s = elim (Bool-cases (h s).0.1) [
    | inl stops ↦ rw (chain.aborted h [] s stops) refl
    | inr goes ↦ rw (chain.goes_on h [] s goes, chain.none_left (h s).1) refl
  ]

  serve-last :
      (secret : String) (request : Incoming l)
      → has_secret secret request.secret ≡ true
      → (defaults : List l.Handler) (x : l.Handler) (h : Handler l)
      → All (λ y. (l.run y request.raw).1 ≡ false) defaults
      → (l.run x request.raw).1 ≡ false
      → (s : d.State)
      → (serve
          (steps request (
            (((map library defaults ++ (library x ∷ [])) ++ (log_request ∷ []))
              ++ (shared_secret secret ∷ []))
            ++ (h ∷ [])))
          s).1
        ≡ (run_handler l d t is_hex_address format request h s).1
  unfolding run_handler
  serve-last secret request right [] x h _ goes s =
      step_on _ _ s (map other (l.run x request.raw).0) (rw goes refl)
      ∙ step_on _ _ s [] refl
      ∙ step_on _ _ s [] (rw (middleware-pass secret request.secret right) refl)
      ∙ last_step _ s
  serve-last secret request right (y ∷ defaults) x h (on, ons) goes s =
      step_on _ _ s (map other (l.run y request.raw).0) (rw on refl)
      ∙ serve-last secret request right defaults x h ons goes s

  module _ (g : Gin (Handler l)) (gin : IsGin g) (config : AppConfig) (defaults : List l.Handler)
      (e : g.Engine) (request : Incoming l) (fresh : gin.handlers e g.root ≡ map library defaults)
      (empty : (m p : String) → gin.routes e m p ≡ none) where
    -- On an engine that has gin's own handlers and no route, registerRoutes makes no route, under whatever method and path,
    -- on which a request without the service's secret changes the table or gets an answer of a handler of the jobs.
    pub register_routes-guarded :
        (m p : String) (hs : List (Handler l)) (s : d.State)
        → gin.routes (register_routes l g config e) m p ≡ some hs
        → has_secret config.required.api_secret request.secret ≡ false
        → Kept s (serve (steps request hs) s)
    register_routes-guarded m p hs s there wrong =
        serve-Kept config.required.api_secret request wrong hs
          (rw there at (all_guarded l g gin config defaults e fresh empty m p)) s

    -- On such an engine, registerRoutes makes the two routes of the jobs, and a request with the service's secret, which the
    -- handlers of the libraries let pass, does to the table there what the route's handler does.
    pub register_routes-jobs :
        has_secret config.required.api_secret request.secret ≡ true
        → All (λ x. (l.run x request.raw).1 ≡ false) defaults
        → (l.run (l.cors (cors_config l config)) request.raw).1 ≡ false
        → (s : d.State)
        → ((hs : List (Handler l)) × (gin.routes
                (register_routes l g config e)
                "POST"
                (gin.path (inner l g gin config defaults e).0 "/jobs")
              ≡ some hs)
            × ((serve (steps request hs) s).1
                ≡ (register_job d t is_hex_address format request.bound s).1))
          × ((hs : List (Handler l)) × (gin.routes
                  (register_routes l g config e)
                  "GET"
                  (gin.path (inner l g gin config defaults e).0 "/jobs")
                ≡ some hs)
              × ((serve (steps request hs) s).1 ≡ (get_job_list d t is_hex_address format s).1))
    unfolding run_handler
    register_routes-jobs right ons goes s = (
      (
        locked_chain l g gin config defaults e register,
        post_jobs_route l g gin config defaults e fresh empty,
        serve-last config.required.api_secret request right defaults (l.cors (cors_config l config))
            register ons goes s,
      ),
      (
        locked_chain l g gin config defaults e list_jobs,
        get_jobs_route l g gin config defaults e fresh empty,
        serve-last config.required.api_secret request right defaults (l.cors (cors_config l config))
            list_jobs ons goes s,
      ),
    )
