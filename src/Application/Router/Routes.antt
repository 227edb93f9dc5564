-- ===== src/Application/Router/Routes.antt =====
-- src/app/app.go, registerRoutes: the routes that there are, and the handlers of each.
use samanager_backend.Base.{
  ◌≡◌, ◌∙◌, ap, refl, String, Bool, true, false, List, [], ◌∷◌, ◌++◌, map, Option, none, some,
  str_eq, eq_iff, inl, inr,
}
use samanager_backend.Settings.Config.{AppConfig}
use samanager_backend.Application.Router.{
  Library, Gin, IsGin, Handler, log_request, health, list_jobs, register, library, shared_secret,
  cors_config, v1, with_health, with_middlewares, register_routes,
}

module _ (l : Library) where
  -- No handler of the jobs before one that tests for the secret.
  abbrev pub is_guarded : String → List (Handler l) → Bool
  is_guarded secret [] = true
  is_guarded secret (log_request ∷ hs) = is_guarded secret hs
  is_guarded secret (library h ∷ hs) = is_guarded secret hs
  is_guarded secret (health ∷ hs) = is_guarded secret hs
  is_guarded secret (shared_secret tested ∷ hs) = str_eq tested secret
  is_guarded secret (list_jobs ∷ hs) = false
  is_guarded secret (register ∷ hs) = false

  -- The handlers that every route begins with.
  abbrev pub common : AppConfig → List l.Handler → List (Handler l)
  common config defaults =
      (map library defaults ++ (library (l.cors (cors_config l config)) ∷ [])) ++ (log_request ∷ [])

  is_guarded-library :
      (secret : String) (defaults : List l.Handler) (xs ys zs : List (Handler l))
      → is_guarded secret ((xs ++ ys) ++ zs) ≡ true
      → is_guarded secret (((map library defaults ++ xs) ++ ys) ++ zs) ≡ true
  is_guarded-library secret [] xs ys zs h = h
  is_guarded-library secret (x ∷ defaults) xs ys zs h =
      is_guarded-library secret defaults xs ys zs h

  is_guarded-shared_secret :
      (secret : String) (defaults : List l.Handler) (x : l.Handler) (h : Handler l)
      → is_guarded secret (
          (((map library defaults ++ (library x ∷ [])) ++ (log_request ∷ []))
            ++ (shared_secret secret ∷ []))
          ++ (h ∷ []))
        ≡ true
  is_guarded-shared_secret secret [] x h = (eq_iff secret secret).1 refl
  is_guarded-shared_secret secret (y ∷ defaults) x h = is_guarded-shared_secret secret defaults x h

  abbrev pub guarded_route : String → Option (List (Handler l)) → Bool
  guarded_route secret none = true
  guarded_route secret (some chain) = is_guarded secret chain

  module _ (g : Gin (Handler l)) (gin : IsGin g) where
    abbrev pub AllGuarded : String → g.Engine → Type 0
    AllGuarded secret e = (m p : String) → guarded_route secret (gin.routes e m p) ≡ true

    handle-AllGuarded :
        (secret n : String) (r : g.Group) (q : String) (h : Handler l) (e : g.Engine)
        → AllGuarded secret e
        → is_guarded secret (gin.handlers e r ++ (h ∷ [])) ≡ true
        → AllGuarded secret (g.handle n r q h e)
    handle-AllGuarded secret n r q h e before own m p = elim (gin.handle_other n r q h e m p) [
      | inl (same_m, same_p) ↦ rw (same_m, same_p, gin.handle_route n r q h e) own
      | inr same ↦ rw same (before m p)
    ]

    use-AllGuarded :
        (secret : String) (r : g.Group) (h : Handler l) (e : g.Engine)
        → AllGuarded secret e
        → AllGuarded secret (g.use_handler r h e)
    use-AllGuarded secret r h e before m p = rw (gin.use_routes r h e m p) (before m p)

    group-AllGuarded :
        (secret : String) (r : g.Group) (q : String) (e : g.Engine)
        → AllGuarded secret e
        → AllGuarded secret (g.group r q e).1
    group-AllGuarded secret r q e before m p = rw (gin.group_routes r q e m p) (before m p)

    module _ (config : AppConfig) (defaults : List l.Handler) (e : g.Engine) where
      abbrev pub secret_of : String
      secret_of = config.required.api_secret

      -- The engine after the middlewares, after the page, in the group of the API, and in its protected group.
      abbrev pub e2 : g.Engine
      e2 = with_middlewares l g config e

      abbrev pub e3 : g.Engine
      e3 = g.handle "GET" g.root "/swagger/*any" (library l.swagger) e2

      abbrev pub api : g.Group × g.Engine
      api = v1 l g e3

      abbrev pub api_health : g.Engine
      api_health = g.handle "GET" api.0 "/health" health api.1

      abbrev pub inner : g.Group × g.Engine
      inner = with_health l g api

      abbrev pub locked : g.Engine
      locked = g.use_handler inner.0 (shared_secret secret_of) inner.1

      abbrev pub listing : g.Engine
      listing = g.handle "GET" inner.0 "/jobs" list_jobs locked

      -- The handlers of a route of the jobs, its own last.
      abbrev pub locked_chain : Handler l → List (Handler l)
      locked_chain h = (common config defaults ++ (shared_secret secret_of ∷ [])) ++ (h ∷ [])

      module _ (fresh : gin.handlers e g.root ≡ map library defaults)
          (empty : (m p : String) → gin.routes e m p ≡ none) where
        e2_handlers : gin.handlers e2 g.root ≡ common config defaults
        e2_handlers =
            gin.use_handlers g.root log_request _
            ∙ ap (λ hs. hs ++ (log_request ∷ []))
                (gin.use_handlers g.root (library (l.cors (cors_config l config))) e
                  ∙ ap (λ hs. hs ++ (library (l.cors (cors_config l config)) ∷ [])) fresh)

        e3_handlers : gin.handlers e3 g.root ≡ common config defaults
        e3_handlers =
            gin.handle_handlers "GET" g.root "/swagger/*any" (library l.swagger) e2 g.root
            ∙ e2_handlers

        api_handlers : gin.handlers api.1 api.0 ≡ common config defaults
        api_handlers = gin.group_handlers g.root "/api/v1" e3 ∙ e3_handlers

        inner_handlers : gin.handlers inner.1 inner.0 ≡ common config defaults
        inner_handlers =
            gin.group_handlers api.0 "/" api_health
            ∙ gin.handle_handlers "GET" api.0 "/health" health api.1 api.0
            ∙ api_handlers

        locked_handlers :
            gin.handlers locked inner.0 ≡ common config defaults ++ (shared_secret secret_of ∷ [])
        locked_handlers =
            gin.use_handlers inner.0 (shared_secret secret_of) inner.1 ∙ rw inner_handlers refl

        listing_handlers :
            gin.handlers listing inner.0 ≡ common config defaults ++ (shared_secret secret_of ∷ [])
        listing_handlers =
            gin.handle_handlers "GET" inner.0 "/jobs" list_jobs locked inner.0 ∙ locked_handlers

        e2_guarded : AllGuarded secret_of e2
        e2_guarded = use-AllGuarded secret_of g.root log_request _ (
            use-AllGuarded secret_of g.root (library (l.cors (cors_config l config))) e
              (λ m p. rw (empty m p) refl))

        -- What a group's handlers and one more are like, after the common ones.
        after_common :
            (tail : List (Handler l))
            → is_guarded secret_of tail ≡ true
            → is_guarded secret_of (common config defaults ++ tail) ≡ true
        after_common tail h =
            is_guarded-library secret_of defaults (library (l.cors (cors_config l config)) ∷ [])
              (log_request ∷ []) tail h

        pub all_guarded : AllGuarded secret_of (register_routes l g config e)
        unfolding register_routes
        all_guarded =
            handle-AllGuarded secret_of "POST" inner.0 "/jobs" register listing
              (handle-AllGuarded secret_of "GET" inner.0 "/jobs" list_jobs locked
                (use-AllGuarded secret_of inner.0 (shared_secret secret_of) inner.1 (
                  group-AllGuarded secret_of api.0 "/" api_health (
                    handle-AllGuarded secret_of "GET" api.0 "/health" health api.1
                      (group-AllGuarded secret_of g.root "/api/v1" e3 (
                        handle-AllGuarded secret_of "GET" g.root "/swagger/*any" (library l.swagger)
                          e2 e2_guarded
                          (rw e2_handlers (after_common (library l.swagger ∷ []) refl))))
                      (rw api_handlers (after_common (health ∷ []) refl)))))
                (rw locked_handlers
                  (is_guarded-shared_secret secret_of defaults (l.cors (cors_config l config)) _)))
              (rw listing_handlers
                (is_guarded-shared_secret secret_of defaults (l.cors (cors_config l config)) _))

        pub post_jobs_route :
            gin.routes (register_routes l g config e) "POST" (gin.path inner.0 "/jobs")
            ≡ some (locked_chain register)
        unfolding register_routes
        post_jobs_route =
            gin.handle_route "POST" inner.0 "/jobs" register listing
            ∙ ap (λ hs. some (hs ++ (register ∷ []))) listing_handlers

        pub get_jobs_route :
            gin.routes (register_routes l g config e) "GET" (gin.path inner.0 "/jobs")
            ≡ some (locked_chain list_jobs)
        unfolding register_routes
        get_jobs_route =
            elim (gin.handle_other "POST" inner.0 "/jobs" register listing "GET"
              (gin.path inner.0 "/jobs")) [
                | inl (same, _) ↦ absurd (cc ((eq_iff "GET" "POST").1 same))
                | inr kept ↦
                    kept
                    ∙ gin.handle_route "GET" inner.0 "/jobs" list_jobs locked
                    ∙ ap (λ hs. some (hs ++ (list_jobs ∷ []))) locked_handlers
              ]
