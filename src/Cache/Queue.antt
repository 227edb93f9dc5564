-- ===== src/Cache/Queue.antt =====
-- The job queue: EnqueueJob and DequeueJob are the two ends of a first-in first-out queue.
pub mod Liveness
use mathlib.Core.List.{reverse, reverse-append, reverse-cons, map-append}
use samanager_backend.Base.{
  ℕ, ◌≡◌, inl, inr, String, List, [], ◌∷◌, ◌++◌, map, Reply, ok, Reply-cases, arith,
}
use samanager_backend.Domain.Job.{EntityJob}
use samanager_backend.Cache.Redis.{Redis, IsLawful}
use samanager_backend.Cache.Repo.{Codec, IsFaithful, enqueue_job, dequeue_job}

module _ (r : Redis) (lawful : IsLawful r) (c : Codec) (faithful : IsFaithful c) (q : String) where
  abbrev decoded_job : String → Reply EntityJob
  decoded_job text = c.decode_job text

  -- The waiting jobs, the next to be popped first.
  unfoldable pub queued : r.State → List (Reply EntityJob)
  queued s = reverse (map decoded_job (lawful.items s q))

  -- A job that EnqueueJob has accepted is the last of the queue.
  pub queued-enqueue_job :
      (job : EntityJob) (s : r.State)
      → (enqueue_job r c q job s).0 ≡ ok tt
      → queued (enqueue_job r c q job s).1 ≡ queued s ++ ok job ∷ []
  unfolding enqueue_job queued
  queued-enqueue_job job s done = elim (Reply-cases (c.encode_job job)) [
    | inl (text, e) ↦
        rw (e, enqueue_job, lawful.lpush_ok q text s (rw (e, enqueue_job) at done))
          (rw (faithful.decode_job-encode_job job text e)
            (reverse-cons (ok job) (map decoded_job (lawful.items s q))))
    | inr (e', e) ↦ cc (rw (e, enqueue_job) at done)
  ]

  -- DequeueJob takes the first job of the queue, and leaves the others in their order.
  pub queued-dequeue_job :
      (timeout : ℕ) (job : EntityJob) (s : r.State)
      → (dequeue_job r c q timeout s).0 ≡ ok job
      → queued s ≡ ok job ∷ queued (dequeue_job r c q timeout s).1
  unfolding dequeue_job queued
  queued-dequeue_job timeout job s done = elim (Reply-cases (r.brpop timeout q s).0) [
    | inl (text, e) ↦
        rw (lawful.brpop_ok timeout q text s e, map-append, reverse-append) (ground arith)
    | inr (e', e) ↦ cc (rw (e, dequeue_job) at done)
  ]
