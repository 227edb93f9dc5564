-- ===== src/Application/Router.antt =====
-- src/app/app.go, registerRoutes, with the middlewares of src/handler/middleware.go: which handlers a route has, and what
-- each makes of a request. The handlers of the libraries (gin's own, cors, swagger) are a parameter: they see the
-- request alone, and may write something and abort.
pub mod Routes
pub mod Guarded
use samanager_backend.Base.{
  ℕ, ◌≡◌, ◌⊎◌, String, Bool, true, false, List, [], ◌∷◌, ◌++◌, map, Option, none, some, Reply,
}
use samanager_backend.Domain.Job.{Texts}
use samanager_backend.Jobs.Database.{Database}
use samanager_backend.Http.Responses.{Response}
use samanager_backend.Http.Guard.{Verdict, pass, refuse, shared_secret_middleware}
use samanager_backend.Http.Jobs.{
  RegisterJobRequest, RegisterJobResponse, JobResponse, register_job, get_job_list,
}
use samanager_backend.Settings.Config.{AppConfig}
use samanager_backend.Settings.Wiring.{handle_health_check}

-- `cors.Config`; `rest` is its other fields.
pub record CorsConfig (Rest : Type 0) : Type 0 where
  pub allow_origins : List String
  pub allow_methods : List String
  pub allow_headers : List String
  pub allow_credentials : Bool
  pub rest : Rest

pub record Library : Type 1 where
  pub Handler : Type 0
  pub Request : Type 0
  pub Output : Type 0
  pub CorsRest : Type 0
  -- what it writes, and whether it aborts
  pub run : Handler → Request → List Output × Bool
  pub default_config : CorsConfig CorsRest
  pub cors : CorsConfig CorsRest → Handler
  pub swagger : Handler

-- gin's engine, on handlers of a type of the client's. A group is what `Group` returns; `root` is the engine's own.
pub record Gin (H : Type 0) : Type 1 where
  pub Engine : Type 0
  pub Group : Type 0
  pub root : Group
  pub use_handler : Group → H → Engine → Engine
  pub group : Group → String → Engine → Group × Engine
  pub handle : String → Group → String → H → Engine → Engine

-- Documented behaviour of the calls that return: a route has the handlers that its group has when it is registered, and
-- its own; a group starts with those of the group that it is made from.
pub record IsGin {H : Type 0} (g : Gin H) : Type 0 where
  pub handlers : g.Engine → g.Group → List H
  pub path : g.Group → String → String
  pub routes : g.Engine → String → String → Option (List H)
  pub use_handlers :
      (r : g.Group) (h : H) (e : g.Engine)
      → handlers (g.use_handler r h e) r ≡ handlers e r ++ (h ∷ [])
  pub use_routes :
      (r : g.Group) (h : H) (e : g.Engine) (m p : String)
      → routes (g.use_handler r h e) m p ≡ routes e m p
  pub group_handlers :
      (r : g.Group) (q : String) (e : g.Engine)
      → handlers (g.group r q e).1 (g.group r q e).0 ≡ handlers e r
  pub group_routes :
      (r : g.Group) (q : String) (e : g.Engine) (m p : String)
      → routes (g.group r q e).1 m p ≡ routes e m p
  pub handle_handlers :
      (n : String) (r : g.Group) (q : String) (h : H) (e : g.Engine) (s : g.Group)
      → handlers (g.handle n r q h e) s ≡ handlers e s
  pub handle_route :
      (n : String) (r : g.Group) (q : String) (h : H) (e : g.Engine)
      → routes (g.handle n r q h e) n (path r q) ≡ some (handlers e r ++ (h ∷ []))
  pub handle_other :
      (n : String) (r : g.Group) (q : String) (h : H) (e : g.Engine) (m p : String)
      → ((m ≡ n) × (p ≡ path r q)) ⊎ (routes (g.handle n r q h e) m p ≡ routes e m p)

module _ (l : Library) where
  pub data Handler : Type 0 where
    log_request health list_jobs register : Handler
    library : l.Handler → Handler
    shared_secret : String → Handler

  pub data Answer : Type 0 where
    other : l.Output → Answer
    refused : Response String → Answer
    healthy : Response (String × String) → Answer
    listed : Response (List JobResponse) → Answer
    registered : Response RegisterJobResponse → Answer

  -- What gin makes of a request: the header X-API-Secret, and what ShouldBindJSON returns.
  pub record Incoming : Type 0 where
    pub raw : l.Request
    pub secret : String
    pub bound : Reply RegisterJobRequest

  unfoldable pub cors_config : AppConfig → CorsConfig l.CorsRest
  cors_config config = record l.default_config {
    allow_origins = config.required.allow_origins;
    allow_methods = "GET" ∷ "POST" ∷ "PUT" ∷ "DELETE" ∷ "OPTIONS" ∷ [];
    allow_headers =
        "Origin" ∷ "Content-Type" ∷ "Accept" ∷ "Authorization" ∷ "X-Requested-With" ∷ [];
    allow_credentials = true;
  }

  module _ (g : Gin Handler) where
    abbrev pub v1 : g.Engine → g.Group × g.Engine
    v1 e = g.group g.root "/api/v1" e

    abbrev pub with_health : g.Group × g.Engine → g.Group × g.Engine
    with_health (group, e) = g.group group "/" (g.handle "GET" group "/health" health e)

    abbrev pub with_jobs : String → g.Group × g.Engine → g.Engine
    with_jobs secret (protected, e) = g.handle "POST" protected "/jobs" register (
        g.handle "GET" protected "/jobs" list_jobs
          (g.use_handler protected (shared_secret secret) e))

    -- SetMiddlewares is the second `Use`.
    abbrev pub with_middlewares : AppConfig → g.Engine → g.Engine
    with_middlewares config e =
        g.use_handler g.root log_request
          (g.use_handler g.root (library (l.cors (cors_config config))) e)

    unfoldable pub register_routes : AppConfig → g.Engine → g.Engine
    register_routes config e = with_jobs config.required.api_secret (
        with_health (
          v1 (
            g.handle "GET" g.root "/swagger/*any" (library l.swagger) (with_middlewares config e))))

  module _ (d : Database) (t : Texts) (is_hex_address : String → Bool) (format : ℕ → String) where
    -- What a handler writes, whether it aborts, and what it does to the table.
    abbrev pub Step : Type 0
    Step = d.State → (List Answer × Bool) × d.State

    abbrev pub of_verdict : Verdict String → List Answer × Bool
    of_verdict pass = ([], false)
    of_verdict (refuse r) = (refused r ∷ [], r.aborted)

    unfoldable pub run_handler : Incoming → Handler → Step
    run_handler request log_request s = (([], false), s)
    run_handler request health s =
        ((healthy handle_health_check ∷ [], handle_health_check.aborted), s)
    run_handler request list_jobs s =
        let (answer, s') = get_job_list d t is_hex_address format s in
        ((listed answer ∷ [], answer.aborted), s')
    run_handler request register s =
        let (answer, s') = register_job d t is_hex_address format request.bound s in
        ((registered answer ∷ [], answer.aborted), s')
    run_handler request (library h) s =
        let (output, aborted) = l.run h request.raw in ((map other output, aborted), s)
    run_handler request (shared_secret secret) s =
        (of_verdict (shared_secret_middleware secret request.secret), s)

    -- Documented behaviour of gin: the handlers of a route run one after another, until one has aborted.
    pub record IsChain (serve : List Step → d.State → List Answer × d.State) : Type 0 where
      pub none_left : (s : d.State) → serve [] s ≡ ([], s)
      pub aborted :
          (h : Step) (hs : List Step) (s : d.State)
          → (h s).0.1 ≡ true
          → serve (h ∷ hs) s ≡ ((h s).0.0, (h s).1)
      pub goes_on :
          (h : Step) (hs : List Step) (s : d.State)
          → (h s).0.1 ≡ false
          → serve (h ∷ hs) s ≡ ((h s).0.0 ++ (serve hs (h s).1).0, (serve hs (h s).1).1)
