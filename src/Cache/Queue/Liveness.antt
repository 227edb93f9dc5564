-- ===== src/Cache/Queue/Liveness.antt =====
-- Every job that waits in the queue is handed out, in its turn.
use mathlib.Core.List.{reverse-append, map-append, append_assoc, append-nil}
use samanager_backend.Base.{
  ℕ, zero, suc, ◌<◌, ◌≡◌, refl, ◌∙◌, sym, ap, ◌⊎◌, inl, inr, String, List, [], ◌∷◌, ◌++◌, length,
  Option, none, some, Reply, ok, Reply-cases, arith,
}
use samanager_backend.Domain.Job.{EntityJob}
use samanager_backend.Cache.Redis.{Redis, IsLawful}
use samanager_backend.Cache.Repo.{Codec, IsFaithful, enqueue_job, dequeue_job}
use samanager_backend.Cache.Queue.{queued, queued-enqueue_job}

-- A call of the two loops of the scheduler on the queue.
pub data Call : Type 0 where
  enqueue : EntityJob → Call
  dequeue : ℕ → Call

abbrev pub dequeues : List Call → ℕ
dequeues [] = 0
dequeues (enqueue job ∷ calls) = dequeues calls
dequeues (dequeue timeout ∷ calls) = suc (dequeues calls)

abbrev pub get_elem? {ℓ} : {A : Type ℓ} → List A → ℕ → Option A
get_elem? [] i = none
get_elem? (x ∷ xs) zero = some x
get_elem? (x ∷ xs) (suc i) = get_elem? xs i

-- A server that can be reached: it takes what is pushed, and hands out what is there.
pub record IsAvailable (r : Redis) (lawful : IsLawful r) (q : String) : Type 0 where
  pub pushed : (v : String) (s : r.State) → (r.lpush q v s).0 ≡ ok tt
  pub popped :
      (t : ℕ) (s : r.State) (rest : List String) (v : String)
      → lawful.items s q ≡ rest ++ v ∷ []
      → (r.brpop t q s).0 ≡ ok v

module _ (r : Redis) (c : Codec) (q : String) where
  abbrev one_more :
      Reply EntityJob → List (Reply EntityJob) × r.State → List (Reply EntityJob) × r.State
  one_more reply (replies, s) = (reply ∷ replies, s)

  -- The replies of the calls of DequeueJob, in their order.
  unfoldable pub run : List Call → r.State → List (Reply EntityJob) × r.State
  run [] s = ([], s)
  run (enqueue job ∷ calls) s = run calls (enqueue_job r c q job s).1
  run (dequeue timeout ∷ calls) s =
      one_more (dequeue_job r c q timeout s).0 (run calls (dequeue_job r c q timeout s).1)

snoc_cases {ℓ} :
    {A : Type ℓ} (xs : List A) → (xs ≡ []) ⊎ ((ys : List A) × (v : A) × (xs ≡ ys ++ v ∷ []))
snoc_cases [] = inl refl
snoc_cases (x ∷ xs) = elim (snoc_cases xs) [
  | inl e ↦ inr ([], x, ap (◌∷◌ x) e)
  | inr (ys, v, e) ↦ inr (x ∷ ys, v, ap (◌∷◌ x) e)
]

module _ (r : Redis) (lawful : IsLawful r) (c : Codec) (faithful : IsFaithful c) (q : String) where
  abbrev waiting : r.State → List (Reply EntityJob)
  waiting s = queued r lawful c faithful q s

  waiting-brpop :
      (timeout : ℕ) (s : r.State) (text : String)
      → (r.brpop timeout q s).0 ≡ ok text
      → waiting s ≡ c.decode_job text ∷ waiting (r.brpop timeout q s).1
  unfolding queued
  waiting-brpop timeout s text e =
      rw (lawful.brpop_ok timeout q text s e, map-append, reverse-append) refl

  waiting-empty : (s : r.State) → lawful.items s q ≡ [] → waiting s ≡ []
  unfolding queued
  waiting-empty s e = rw e refl

  dequeue_job-waiting :
      IsAvailable r lawful q
      → (timeout : ℕ) (s : r.State) (x : Reply EntityJob) (xs : List (Reply EntityJob))
      → waiting s ≡ x ∷ xs
      → (waiting (dequeue_job r c q timeout s).1 ≡ xs)
        × ((job : EntityJob) → x ≡ ok job → (dequeue_job r c q timeout s).0 ≡ ok job)
  unfolding dequeue_job
  dequeue_job-waiting available timeout s x xs h = elim (snoc_cases (lawful.items s q)) [
    | inl none_left ↦ (let empty : waiting s ≡ [] = waiting-empty s none_left in cc)
    | inr (rest, v, e) ↦
        let found = available.popped timeout s rest v e in
        let split : c.decode_job v ∷ waiting (r.brpop timeout q s).1 ≡ x ∷ xs =
          sym (waiting-brpop timeout s v found) ∙ h in
        let first : c.decode_job v ≡ x = cc in
        let others : waiting (r.brpop timeout q s).1 ≡ xs = cc in
        rw (found, dequeue_job) (others, λ job e. rw (first ∙ e) refl)
  ]

  enqueue_job-waiting :
      IsAvailable r lawful q
      → (job : EntityJob) (s : r.State)
      → (more : List (Reply EntityJob)) × (waiting (enqueue_job r c q job s).1 ≡ waiting s ++ more)
  unfolding enqueue_job
  enqueue_job-waiting available job s = elim (Reply-cases (c.encode_job job)) [
    | inl (text, e) ↦ (
      ok job ∷ [],
      queued-enqueue_job r lawful c faithful q job s
          (rw (e, enqueue_job) (available.pushed text s)),
    )
    | inr (x, e) ↦ ([], rw (e, enqueue_job) (sym (append-nil (waiting s))))
  ]

  -- With a server that can be reached, a job that waits behind `n` others is what DequeueJob returns at its
  -- call number `n + 1`, however many jobs are enqueued before, between and after, and although some of the
  -- others may not be readable.
  pub run-handed_out :
      IsAvailable r lawful q
      → (calls : List Call) (s : r.State) (front rest : List (Reply EntityJob)) (job : EntityJob)
      → queued r lawful c faithful q s ≡ front ++ ok job ∷ rest
      → length front < dequeues calls
      → get_elem? (run r c q calls s).0 (length front) ≡ some (ok job)
  unfolding run
  run-handed_out available [] s front rest job h enough = absurd (omega arith)
  run-handed_out available (enqueue other ∷ calls) s front rest job h enough =
      let (more, longer) = enqueue_job-waiting available other s in
      run-handed_out available calls (enqueue_job r c q other s).1 front (rest ++ more) job
        (longer ∙ ap (λ xs. xs ++ more) h ∙ append_assoc front (ok job ∷ rest) more) enough
  run-handed_out available (dequeue timeout ∷ calls) s [] rest job h enough =
      let (others, found) = dequeue_job-waiting available timeout s (ok job) rest h in
      ap some (found job refl)
  run-handed_out available (dequeue timeout ∷ calls) s (x ∷ front) rest job h enough =
      let (others, found) = dequeue_job-waiting available timeout s x (front ++ ok job ∷ rest) h in
      run-handed_out available calls (dequeue_job r c q timeout s).1 front rest job others
        (omega arith)
