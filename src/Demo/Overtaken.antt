-- ===== src/Demo/Overtaken.antt =====
-- The two loops of cmd/scheduler/main.go: a job is pushed before it is marked as pending, so it may be executed in between.
use samanager_backend.Base.{
  ◌≡◌, ◌⊎◌, refl, sym, ◌∙◌, ℕ, String, ◌<>◌, Bool, true, false, List, [], ◌∷◌, some, Reply, ok, err,
  Done, str_eq, eq_iff, Reply-cases, Bool-cases, inl, inr,
}
use samanager_backend.Cache.Redis.{Redis, IsLawful}
use samanager_backend.Demo.{
  Job, JobStatus, JobResult, status_pending, Json, is_done_or_waiting, is_stale, result_key,
  read_result, should_skip_job, push_job, store_result, mark_enqueued, check_job,
  check_and_enqueue_jobs, check_job_status_update, check_keys, delete_stale, update_job_statuses,
}

-- A result that is written is read back.
abbrev pub IsFaithful : Json → Type 0
IsFaithful j =
    (result : JobResult) (text : String)
    → j.marshal_result result ≡ ok text
    → j.unmarshal_result text ≡ ok result

module _ (r : Redis) (lawful : IsLawful r) (j : Json) (faithful : IsFaithful j) (q : String) where
  abbrev marked : Job → ℕ → JobResult
  marked job now = record {
    job_id = job.id;
    status = status_pending;
    message = "Job enqueued for execution";
    updated_at = now;
  }

  mark_enqueued-held :
      (job : Job) (now : ℕ) (s : r.State)
      → (store_result r j q job.id status_pending "Job enqueued for execution" now s).0 ≡ ok tt
      → (text : String) × (lawful.held
            (mark_enqueued r j q job now (ok tt, s))
            (result_key r j q job.id)
          ≡ some text)
        × (j.unmarshal_result text ≡ ok (marked job now))
  unfolding mark_enqueued store_result
  mark_enqueued-held job now s done = elim (Reply-cases (j.marshal_result (marked job now))) [
    | inl (text, e) ↦ (
      text,
      rw (e, mark_enqueued, store_result)
          (lawful.set_ok (result_key r j q job.id) text 86400 s (rw (e, store_result) at done)),
      faithful (marked job now) text e,
    )
    | inr (x, e) ↦ cc (rw (e, store_result) at done)
  ]

  -- The key holds a result that is pending.
  abbrev pub IsPending : String → r.State → Type 0
  IsPending key s =
      (text : String) × (result : JobResult) × (lawful.held s key ≡ some text)
      × (j.unmarshal_result text ≡ ok result)
      × (result.status ≡ status_pending)

  IsPending-held :
      (key : String) (s t : r.State)
      → lawful.held t key ≡ lawful.held s key
      → IsPending key s
      → IsPending key t
  IsPending-held key s t same (text, result, held, read, pending) =
      (text, result, same ∙ held, read, pending)

  store_result-IsPending :
      (key id : String) (status : JobStatus) (message : String) (now : ℕ) (s : r.State)
      → (status ≡ status_pending) ⊎ (str_eq (result_key r j q id) key ≡ false)
      → IsPending key s
      → IsPending key (store_result r j q id status message now s).1
  unfolding store_result
  store_result-IsPending key id status message now s which waits =
      let result : JobResult = record {
        job_id = id;
        status = status;
        message = message;
        updated_at = now;
      } in
      elim (Reply-cases (j.marshal_result result)) [
        | inr (x, e) ↦ rw (e, store_result) waits
        | inl (text, e) ↦
            rw (e, store_result)
              (elim (Bool-cases (str_eq (result_key r j q id) key)) [
                | inr differs ↦
                    IsPending-held key s _
                      (lawful.set_other (result_key r j q id) text 86400 s key differs) waits
                | inl same ↦
                    stored key (result_key r j q id) text result s
                      ((eq_iff (result_key r j q id) key).0 same) (faithful result text e)
                      (ours same which) waits
              ])
      ]
    where
      ours :
          str_eq (result_key r j q id) key ≡ true
          → (status ≡ status_pending) ⊎ (str_eq (result_key r j q id) key ≡ false)
          → status ≡ status_pending
      ours same (inl e) = e
      ours same (inr e) = cc

      stored :
          (key k text : String) (result : JobResult) (s : r.State)
          → k ≡ key
          → j.unmarshal_result text ≡ ok result
          → result.status ≡ status_pending
          → IsPending key s
          → IsPending key (r.set k text 86400 s).1
      stored key k text result s same read pending waits = elim (lawful.set_or_not k text 86400 s) [
        | inl new ↦ (text, result, rw (← same) new, read, pending)
        | inr old ↦ IsPending-held key s _ (rw (← same) old) waits
      ]

  mark_enqueued-IsPending :
      (key : String) (job : Job) (now : ℕ) (x : Reply Done × r.State)
      → IsPending key x.1
      → IsPending key (mark_enqueued r j q job now x)
  unfolding mark_enqueued
  mark_enqueued-IsPending key job now (err e, s) waits = waits
  mark_enqueued-IsPending key job now (ok done, s) waits =
      store_result-IsPending key job.id status_pending "Job enqueued for execution" now s (inl refl)
        waits

  push_job-IsPending :
      (key : String) (job : Job) (s : r.State)
      → IsPending key s
      → IsPending key (push_job r j q job s).1
  unfolding push_job
  push_job-IsPending key job s waits = elim (Reply-cases (j.marshal_job job)) [
    | inr (x, e) ↦ rw (e, push_job) waits
    | inl (text, e) ↦
        rw (e, push_job) (IsPending-held key s _ (lawful.lpush_held q text key s) waits)
  ]

  check_job-IsPending :
      (key : String) (now : ℕ) (job : Job) (x : Bool × r.State)
      → IsPending key x.1
      → IsPending key (check_job r j q now job x)
  unfolding check_job
  check_job-IsPending key now job (true, s) waits = waits
  check_job-IsPending key now job (false, s) waits =
      mark_enqueued-IsPending key job now (push_job r j q job s)
        (push_job-IsPending key job s waits)

  check_and_enqueue_jobs-IsPending :
      (key : String) (now : ℕ) (jobs : List Job) (s : r.State)
      → IsPending key s
      → IsPending key (check_and_enqueue_jobs r j q now jobs s)
  unfolding check_and_enqueue_jobs should_skip_job
  check_and_enqueue_jobs-IsPending key now [] s waits = waits
  check_and_enqueue_jobs-IsPending key now (job ∷ jobs) s waits =
      check_and_enqueue_jobs-IsPending key now jobs _ (
        check_job-IsPending key now job (should_skip_job r j q job.id s)
          (IsPending-held key s _ (lawful.get_held (result_key r j q job.id) key s) waits))

  -- What the key of a pending result holds is never stale.
  not_stale :
      (key : String) (now : ℕ) (s : r.State)
      → IsPending key s
      → is_stale now (read_result r j q (r.get key s).0) ≡ false
  unfolding is_stale
  not_stale key now s (text, result, held, read, pending) = elim (Reply-cases (r.get key s).0) [
    | inr (x, e) ↦ rw (e, is_stale) refl
    | inl (found, e) ↦
        let same : found ≡ text = some_eq (sym (lawful.get_ok key found s e) ∙ held) in
        rw (e, same, read, is_stale) (rw pending refl)
  ]
    where
      some_eq : {a b : String} → some a ≡ some b → a ≡ b
      some_eq e = cc

  check_job_status_update-IsPending :
      (key : String) (now : ℕ) (k : String) (s : r.State)
      → IsPending key s
      → IsPending key (check_job_status_update r j q now k s)
  unfolding check_job_status_update delete_stale
  check_job_status_update-IsPending key now k s waits =
      let kept : IsPending key (r.get k s).1 =
        IsPending-held key s _ (lawful.get_held k key s) waits in
      elim (Bool-cases (is_stale now (read_result r j q (r.get k s).0))) [
        | inr fresh ↦ rw (fresh, check_job_status_update, delete_stale) kept
        | inl stale ↦ elim (Bool-cases (str_eq k key)) [
          | inr differs ↦
              rw (stale, check_job_status_update, delete_stale)
                (IsPending-held key _ _ (lawful.del_other k (r.get k s).1 key differs) kept)
          | inl same ↦
              let fresh = not_stale key now s waits in
              absurd (cc (rw ((eq_iff k key).0 same, fresh) at stale))
        ]
      ]

  check_keys-IsPending :
      (key : String) (now : ℕ) (keys : List String) (s : r.State)
      → IsPending key s
      → IsPending key (check_keys r j q now keys s)
  unfolding check_keys
  check_keys-IsPending key now [] s waits = waits
  check_keys-IsPending key now (k ∷ keys) s waits =
      check_keys-IsPending key now keys _ (check_job_status_update-IsPending key now k s waits)

  update_job_statuses-IsPending :
      (key : String) (now : ℕ) (s : r.State)
      → IsPending key s
      → IsPending key (update_job_statuses r j q now s)
  unfolding update_job_statuses
  update_job_statuses-IsPending key now s waits =
      let kept = IsPending-held key s _ (lawful.keys_held ((q <> ":status") <> ":*") key s) waits in
      elim (Reply-cases (r.keys ((q <> ":status") <> ":*") s).0) [
        | inr (x, e) ↦ rw (e, update_job_statuses) kept
        | inl (keys, e) ↦ rw (e, update_job_statuses) (check_keys-IsPending key now keys _ kept)
      ]

  -- What may follow while no outcome is stored under the key: rounds of the poller, a pop of the other loop, and an
  -- outcome that it stores under another key.
  pub data Follows (key : String) (s : r.State) : r.State → Type 0 where
    here : Follows key s s
    checked :
        {t : r.State} (now : ℕ) (jobs : List Job)
        → Follows key s t
        → Follows key s (check_and_enqueue_jobs r j q now jobs t)
    updated :
        {t : r.State} (now : ℕ) → Follows key s t → Follows key s (update_job_statuses r j q now t)
    popped : {t : r.State} → Follows key s t → Follows key s (r.brpop 1 q t).1
    executed :
        {t : r.State} (id : String) (status : JobStatus) (message : String) (now : ℕ)
        → str_eq (result_key r j q id) key ≡ false
        → Follows key s t
        → Follows key s (store_result r j q id status message now t).1

  Follows-IsPending :
      (key : String) {s t : r.State} → Follows key s t → IsPending key s → IsPending key t
  Follows-IsPending key here waits = waits
  Follows-IsPending key (checked now jobs f) waits =
      check_and_enqueue_jobs-IsPending key now jobs _ (Follows-IsPending key f waits)
  Follows-IsPending key (updated now f) waits =
      update_job_statuses-IsPending key now _ (Follows-IsPending key f waits)
  Follows-IsPending key (popped {t} f) waits =
      IsPending-held key t _ (lawful.brpop_held 1 q key t) (Follows-IsPending key f waits)
  Follows-IsPending key (executed id status message now differs f) waits =
      store_result-IsPending key id status message now _ (inr differs)
        (Follows-IsPending key f waits)

  -- Once a job has been marked as pending, whatever its key held before (the outcome that the other loop has stored
  -- meanwhile, or none), it stays pending and is not enqueued where its status can be read, through any later rounds
  -- and cleanings at any time, as long as the other loop stores no outcome for it and the key does not expire.
  pub mark_enqueued-stuck :
      (job : Job) (now : ℕ) (s t : r.State)
      → (store_result r j q job.id status_pending "Job enqueued for execution" now s).0 ≡ ok tt
      → Follows (result_key r j q job.id) (mark_enqueued r j q job now (ok tt, s)) t
      → IsPending (result_key r j q job.id) t
        × ((text : String)
            → (r.get (result_key r j q job.id) t).0 ≡ ok text
            → (should_skip_job r j q job.id t).0 ≡ true)
  unfolding should_skip_job is_done_or_waiting
  mark_enqueued-stuck job now s t done follows =
      let (text, held, read) = mark_enqueued-held job now s done in
      let waits =
        Follows-IsPending (result_key r j q job.id) follows
          (text, marked job now, held, read, refl) in
      (waits, λ found got. skipped (result_key r j q job.id) t found waits got)
    where
      skipped :
          (key : String) (t : r.State) (found : String)
          → IsPending key t
          → (r.get key t).0 ≡ ok found
          → is_done_or_waiting (read_result r j q (r.get key t).0) ≡ true
      skipped key t found (text, result, held, read, pending) got =
          let same : found ≡ text = some_text (sym (lawful.get_ok key found t got) ∙ held) in
          rw (got, same, read, is_done_or_waiting) (rw pending refl)
        where
          some_text : {a b : String} → some a ≡ some b → a ≡ b
          some_text e = cc
