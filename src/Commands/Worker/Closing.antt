-- ===== src/Commands/Worker/Closing.antt =====
-- When the workers of cmd/worker/main.go close their connections.
use samanager_backend.Base.{◌+◌, ◌≤◌, ◌≡◌, refl, Bool, true, false, arith, if◌then◌else◌}
use samanager_backend.Commands.Worker.{
  Drivers, Http, serving, shutting, closing, Polling, looping, Main, Program, http_weight,
  polling_weight, workers, http_at, http_step, polling_at, polling_step, Move, http_moved,
  polling_moved, signal, all_ended, timeout, Life, launched, later,
}

module _ (v : Drivers) where
  -- A worker that has ended has closed its connection once; one that has not ended, not yet.
  record Inv (s : Program v) : Type 0 where
    db : s.db_closes + http_weight v s.http ≡ 1
    redis : s.redis_closes + polling_weight v s.polling ≡ 1
    all : s.main ≡ Main.graceful → workers v s ≡ 0

  -- What a move of a worker leaves: main, and that a worker has ended.
  record IsKept (s t : Program v) : Type 0 where
    db : t.db_closes + http_weight v t.http ≡ s.db_closes + http_weight v s.http
    redis :
        t.redis_closes + polling_weight v t.polling ≡ s.redis_closes + polling_weight v s.polling
    fewer : workers v t ≤ workers v s
    main : t.main ≡ s.main

  kept-Inv : (s t : Program v) → IsKept s t → Inv s → Inv t
  kept-Inv s t k i = record {
    db = omega (arith, k.db, i.db);
    redis = omega (arith, k.redis, i.redis);
    all = λ g. let before : workers v s ≡ 0 = i.all (cc (k.main)) in omega (arith, before, k.fewer);
  }

  unmoved : (s : Program v) → IsKept s s
  unmoved s = record { db = refl; redis = refl; fewer = omega arith; main = refl }

  perhaps : (s t : Program v) (done : Bool) → IsKept s t → IsKept s (if done then t else s)
  perhaps s t true k = k
  perhaps s t false k = unmoved s

  http_at-IsKept : (s : Program v) (x : Http v) → s.http ≡ x → IsKept s (http_at v x s)
  unfolding http_at
  http_at-IsKept s serving at =
      perhaps s _ s.root_done
        (record { db = rw at refl; redis = refl; fewer = rw at (omega arith); main = refl })
  http_at-IsKept s shutting at = record {
    db = rw at refl;
    redis = refl;
    fewer = rw at (omega arith);
    main = refl;
  }
  http_at-IsKept s closing at = record {
    db = rw at (omega arith);
    redis = refl;
    fewer = rw at (omega arith);
    main = refl;
  }
  http_at-IsKept s Http.ended at = unmoved s

  polling_at-IsKept :
      (s : Program v) (tick : Bool) (x : Polling v)
      → s.polling ≡ x
      → IsKept s (polling_at v tick x s)
  unfolding polling_at
  polling_at-IsKept s true looping at = record {
    db = refl;
    redis = refl;
    fewer = omega arith;
    main = refl;
  }
  polling_at-IsKept s false looping at =
      perhaps s _ s.root_done (record {
        db = refl;
        redis = rw at (omega arith);
        fewer = rw at (omega arith);
        main = refl;
      })
  polling_at-IsKept s true Polling.ended at = unmoved s
  polling_at-IsKept s false Polling.ended at = unmoved s

  Move-Inv : {s t : Program v} → Move v s t → Inv s → Inv t
  unfolding http_step polling_step
  Move-Inv {s} http_moved i = kept-Inv s _ (http_at-IsKept s s.http refl) i
  Move-Inv {s} (polling_moved tick) i = kept-Inv s _ (polling_at-IsKept s tick s.polling refl) i
  Move-Inv (signal at) i = record { db = i.db; redis = i.redis; all = λ g. cc }
  Move-Inv (all_ended at z) i = record { db = i.db; redis = i.redis; all = λ g. z }
  Move-Inv (timeout at) i = record { db = i.db; redis = i.redis; all = λ g. cc }

  Life-Inv :
      {db : v.Db} {redis : v.Redis} {start : v.State} {s : Program v}
      → Life v db redis start s
      → Inv s
  Life-Inv launched = record { db = omega arith; redis = omega arith; all = λ g. cc }
  Life-Inv (later life move) = Move-Inv move (Life-Inv life)

  -- A worker has closed its connection once if it has ended, and not at all if it has not; where main has seen all
  -- workers end, both connections are closed.
  pub Life-closes :
      (db : v.Db) (redis : v.Redis) (start : v.State) (s : Program v)
      → Life v db redis start s
      → (s.db_closes + http_weight v s.http ≡ 1)
        × (s.redis_closes + polling_weight v s.polling ≡ 1)
        × (s.main ≡ Main.graceful → (s.db_closes ≡ 1) × (s.redis_closes ≡ 1))
  Life-closes db redis start s life =
      let i = Life-Inv life in
      (i.db, i.redis, λ g. (omega (arith, i.db, i.all g), omega (arith, i.redis, i.all g)))
