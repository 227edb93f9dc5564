-- ===== src/Scheduler/Kept/Processing.antt =====
-- What the execution of a job from the queue leaves as it was.
use samanager_backend.Base.{◌≡◌, refl, List, Option, none, some, Reply, ok, err, error_text, ℕ}
use samanager_backend.Domain.Job.{EntityJob}
use samanager_backend.Jobs.Database.{IsLawful}
use samanager_backend.Erc4337.Hash.{Hashing}
use samanager_backend.Execution.{Signer, Run, execute_job}
use samanager_backend.Execution.Kept.{Keeps, execute_job-Keeps}
use samanager_backend.Cache.Repo.{dequeue_job}
use samanager_backend.Scheduler.World.{Services, World}
use samanager_backend.Scheduler.Poll.{
  record_outcome, execute_job_logic, execute_dequeued, process_job,
}
use samanager_backend.Scheduler.Kept.{
  IsKept, nothing_done, in_turn, beside, only_chains, set_failed-IsKept,
}
use samanager_backend.Scheduler.Kept.Polling.{aside}

module _ (p : Services) (lawful : IsLawful p.database) where
  module _ (h : Hashing) (k : Signer) where
    record_outcome-IsKept :
        (job : EntityJob) (reply : Reply (List ℕ)) (w : World p)
        → IsKept p lawful w (record_outcome p h k job reply w)
    unfolding record_outcome
    record_outcome-IsKept job (err e) w = set_failed-IsKept p lawful job.id (error_text e) w
    record_outcome-IsKept job (ok hash) w =
        aside p lawful w (record_outcome p h k job (ok hash) w) _ refl refl

    -- A round that does not panic.
    abbrev KeepsWorld : World p → Option (World p) → Type 0
    KeepsWorld w none = Unit
    KeepsWorld w (some w') = IsKept p lawful w w'

    recorded-KeepsWorld :
        (job : EntityJob) (w : World p) (run : Run p.network (List ℕ))
        → Keeps p.network w.chains run
        → KeepsWorld w (elim run [
          | none ↦ none
          | some (reply, chains) ↦
              some (record_outcome p h k job reply (record w { chains = chains }))
        ])
    recorded-KeepsWorld job w none kept = tt
    recorded-KeepsWorld job w (some (reply, chains)) kept =
        in_turn p lawful w (record w { chains = chains }) _ (only_chains p lawful w chains kept)
          (record_outcome-IsKept job reply _)

    execute_dequeued-KeepsWorld :
        (reply : Reply EntityJob) (w : World p) → KeepsWorld w (execute_dequeued p h k reply w)
    unfolding execute_dequeued execute_job_logic
    execute_dequeued-KeepsWorld (err e) w = nothing_done p lawful w
    execute_dequeued-KeepsWorld (ok job) w =
        recorded-KeepsWorld job w (execute_job p.network h k job w.chains)
          (execute_job-Keeps p.network h k job w.chains)

    KeepsWorld-then :
        (w w' : World p) (o : Option (World p))
        → IsKept p lawful w w'
        → KeepsWorld w' o
        → KeepsWorld w o
    KeepsWorld-then w w' none kept rest = tt
    KeepsWorld-then w w' (some w'') kept rest = in_turn p lawful w w' w'' kept rest

    KeepsWorld-some :
        (w : World p) (o : Option (World p)) (w' : World p)
        → KeepsWorld w o
        → o ≡ some w'
        → IsKept p lawful w w'
    KeepsWorld-some w none w' kept e = cc
    KeepsWorld-some w (some w'') w' kept e = let same : w'' ≡ w' = cc in rw (← same) kept

    pub process_job-IsKept : (w w' : World p) → process_job p h k w ≡ some w' → IsKept p lawful w w'
    unfolding process_job
    process_job-IsKept w w' e =
        let taken = dequeue_job p.redis p.codec p.queue_name 1 w.cache in
        KeepsWorld-some w (process_job p h k w) w'
          (KeepsWorld-then w (record w { cache = taken.1 }) _
            (beside p lawful w taken.1 w.chains.net) (execute_dequeued-KeepsWorld taken.0 _))
          e

    pub execute_job_logic-IsKept :
        (job : EntityJob) (w w' : World p)
        → execute_job_logic p h k job w ≡ some w'
        → IsKept p lawful w w'
    unfolding execute_dequeued
    execute_job_logic-IsKept job w w' e =
        KeepsWorld-some w _ w' (execute_dequeued-KeepsWorld (ok job) w) e
