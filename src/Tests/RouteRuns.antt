-- ===== src/Tests/RouteRuns.antt =====
-- The routes of the API, made on an engine whose groups are their paths.
use samanager_backend.Base.{
  ℕ, ◌≡◌, ◌⊎◌, refl, sym, String, ◌<>◌, Bool, true, false, List, [], ◌∷◌, ◌++◌, map, Option, none,
  some, ok, str_eq, eq_iff, ◌&&◌, Bool-cases, inl, inr, if◌then◌else◌,
}
use samanager_backend.Http.Jobs.{register_job, get_job_list}
use samanager_backend.Application.Router.{
  Library, Gin, IsGin, Handler, library, register, log_request, shared_secret, Answer, Incoming,
  register_routes, Step, IsChain,
}
use samanager_backend.Application.Router.Guarded.{
  Kept, steps, register_routes-guarded, register_routes-jobs,
}
use samanager_backend.Tests.Stores.{table}
use samanager_backend.Tests.JobRuns.{texts, rows}
use samanager_backend.Tests.HttpRuns.{is_known, times, request}
use samanager_backend.Tests.LifeRuns.{config}

abbrev libraries : Library
libraries = record {
  Handler = ℕ;
  Request = String;
  Output = String;
  CorsRest = ℕ;
  run = λ h r. ([], false);
  default_config = record {
    allow_origins = [];
    allow_methods = [];
    allow_headers = [];
    allow_credentials = false;
    rest = 0;
  };
  cors = λ config. 1;
  swagger = 2;
}

abbrev put {ℓ} : {A : Type ℓ} → String → A → (String → A) → String → A
put k v f j = if str_eq k j then v else f j

put-same {ℓ} : {A : Type ℓ} (k : String) (v : A) (f : String → A) → put k v f k ≡ v
put-same k v f = rw ((eq_iff k k).1 refl) refl

record Engine (H : Type 0) : Type 0 where
  handlers : String → List H
  routes : String → String → Option (List H)

abbrev gin : (H : Type 0) → Gin H
gin H = record {
  Engine = Engine H;
  Group = String;
  root = "";
  use_handler = λ r h e. record e { handlers = put r (e.handlers r ++ (h ∷ [])) e.handlers };
  group = λ r q e. (r <> q, record e { handlers = put (r <> q) (e.handlers r) e.handlers });
  handle = λ n r q h e. record e {
    routes = λ m p.
        if str_eq n m && str_eq (r <> q) p then some (e.handlers r ++ (h ∷ [])) else e.routes m p;
  };
}

other_route :
    {A : Type 0} (n q m p : String) (v w : A)
    → ((m ≡ n) × (p ≡ q)) ⊎ ((if str_eq n m && str_eq q p then v else w) ≡ w)
other_route n q m p v w = elim (Bool-cases (str_eq n m)) [
  | inr differs ↦ inr (rw differs refl)
  | inl same_m ↦ elim (Bool-cases (str_eq q p)) [
    | inr differs ↦ inr (rw (same_m, differs) refl)
    | inl same_p ↦ inl (sym ((eq_iff n m).0 same_m), sym ((eq_iff q p).0 same_p))
  ]
]

gin-IsGin : (H : Type 0) → IsGin (gin H)
gin-IsGin H = record {
  handlers = λ e r. e.handlers r;
  path = λ r q. r <> q;
  routes = λ e m p. e.routes m p;
  use_handlers = λ r h e. put-same r (e.handlers r ++ (h ∷ [])) e.handlers;
  use_routes = λ r h e m p. refl;
  group_handlers = λ r q e. put-same (r <> q) (e.handlers r) e.handlers;
  group_routes = λ r q e m p. refl;
  handle_handlers = λ n r q h e s. refl;
  handle_route = λ n r q h e. rw ((eq_iff n n).1 refl, (eq_iff (r <> q) (r <> q)).1 refl) refl;
  handle_other =
      λ n r q h e m p. other_route n (r <> q) m p (some (e.handlers r ++ (h ∷ []))) (e.routes m p);
}

abbrev Steps : Type 0
Steps = List (Step libraries table texts is_known times)

abbrev Reached : Type 0
Reached = List (Answer libraries) × table.State

abbrev go_on : (List (Answer libraries) × Bool) × table.State → Reached → Reached
go_on ((answers, true), s) rest = (answers, s)
go_on ((answers, false), s) (more, s') = (answers ++ more, s')

abbrev serve : Steps → table.State → Reached
serve [] s = ([], s)
serve (h ∷ hs) s = go_on (h s) (serve hs (h s).1)

go_on-true :
    (x : (List (Answer libraries) × Bool) × table.State) (rest : Reached)
    → x.0.1 ≡ true
    → go_on x rest ≡ (x.0.0, x.1)
go_on-true ((answers, true), s) rest e = refl
go_on-true ((answers, false), s) rest e = absurd (cc e)

go_on-false :
    (x : (List (Answer libraries) × Bool) × table.State) (rest : Reached)
    → x.0.1 ≡ false
    → go_on x rest ≡ (x.0.0 ++ rest.0, rest.1)
go_on-false ((answers, false), s) rest e = refl
go_on-false ((answers, true), s) rest e = absurd (cc e)

serve-IsChain : IsChain libraries table texts is_known times serve
serve-IsChain = record {
  none_left = λ s. refl;
  aborted = λ h hs s. go_on-true (h s) (serve hs (h s).1);
  goes_on = λ h hs s. go_on-false (h s) (serve hs (h s).1);
}

abbrev empty_engine : Engine (Handler libraries)
empty_engine = record { handlers = λ r. map library (3 ∷ 4 ∷ []); routes = λ m p. none }

abbrev incoming : String → Incoming libraries
incoming secret = record { raw = "raw"; secret = secret; bound = ok request }

abbrev routed : String → String → Option (List (Handler libraries))
routed m p =
    (gin-IsGin (Handler libraries)).routes
      (register_routes libraries (gin (Handler libraries)) config empty_engine) m p

-- The chain of POST /jobs, and a guess.
register_routes-guarded_example :
    Kept libraries table texts is_known times serve serve-IsChain rows (
      serve
        (steps libraries table texts is_known times serve serve-IsChain (incoming "guess") (
          library 3 ∷ library 4 ∷ library 1 ∷ log_request ∷ shared_secret "secret" ∷ register ∷ []))
        rows)
unfolding register_routes gin-IsGin
register_routes-guarded_example =
    register_routes-guarded libraries table texts is_known times serve serve-IsChain
      (gin (Handler libraries)) (gin-IsGin (Handler libraries)) config (3 ∷ 4 ∷ []) empty_engine
      (incoming "guess") refl (λ m p. refl) "POST" "/api/v1//jobs" _ rows refl refl

register_routes-jobs_example :
    ((hs : List (Handler libraries)) × (routed "POST" "/api/v1//jobs" ≡ some hs)
      × ((serve
            (steps libraries table texts is_known times serve serve-IsChain (incoming "secret") hs)
            rows).1
          ≡ (register_job table texts is_known times (ok request) rows).1))
    × ((hs : List (Handler libraries)) × (routed "GET" "/api/v1//jobs" ≡ some hs)
        × ((serve
              (steps libraries table texts is_known times serve serve-IsChain
                (incoming "secret")
                hs)
              rows).1
            ≡ (get_job_list table texts is_known times rows).1))
unfolding gin-IsGin
register_routes-jobs_example =
    register_routes-jobs libraries table texts is_known times serve serve-IsChain
      (gin (Handler libraries)) (gin-IsGin (Handler libraries)) config (3 ∷ 4 ∷ []) empty_engine
      (incoming "secret") refl (λ m p. refl) refl (refl, (refl, tt)) refl rows
