-- ===== src/Jobs/Laws.antt =====
-- What the job repository promises of the jobs table.
pub mod Registration
use samanager_backend.Base.{
  ◌≡◌, refl, ◌∙◌, inl, inr, String, List, [], ◌∷◌, map, Option, none, some, ok, Reply-cases,
  Bool-cases, str_eq, eq_iff, if◌then◌else◌, arith, All,
}
use samanager_backend.Base.Errors.{>>=-eq-ok}
use mathlib.Core.Path.{ap₂}
use samanager_backend.Domain.Job.{
  DbJob, EntityJob, DbJobStatus, queuing, completed, failed, Texts, to_entity_job, to_db_job,
}
use samanager_backend.Jobs.Database.{Database, IsLawful, Columns, updated, or_old}
use samanager_backend.Jobs.Repo.{
  status_updates, to_entity_jobs, find_active_jobs, update_job_status,
}

-- The row of a job after its status was updated: the message changes for the status "failed" alone,
-- and only if there is one.
abbrev pub with_status : DbJobStatus → Option String → Option Columns → Option Columns
with_status status err_msg none = none
with_status failed err_msg (some row) =
    some (record { status = failed; err_msg = or_old err_msg row.err_msg })
with_status status err_msg (some row) = some (record row { status = status })

with_status-updated :
    (status : DbJobStatus) (err_msg : Option String) (row : Option Columns)
    → updated (status_updates status err_msg) row ≡ with_status status err_msg row
unfolding status_updates
with_status-updated queuing err_msg none = refl
with_status-updated queuing err_msg (some row) = refl
with_status-updated completed err_msg none = refl
with_status-updated completed err_msg (some row) = refl
with_status-updated failed err_msg none = refl
with_status-updated failed err_msg (some row) = refl

module _ (d : Database) (lawful : IsLawful d) (t : Texts) where
  -- UpdateJobStatus, when it succeeds, gives the job's row the status, and the message if the status is
  -- "failed" and there is one; no other row changes.
  pub row-update_job_status :
      (id : String) (status : DbJobStatus) (err_msg : Option String) (s : d.State) (j : String)
      → (update_job_status d t id status err_msg s).0 ≡ ok tt
      → lawful.row (update_job_status d t id status err_msg s).1 j
        ≡ (if str_eq id j then with_status status err_msg (lawful.row s id) else lawful.row s j)
  unfolding update_job_status
  row-update_job_status id status err_msg s j done = elim (Bool-cases (str_eq id j)) [
    | inl same ↦
        rw (same, ← (eq_iff id j).0 same)
          (lawful.update_ok id (status_updates status err_msg) s done
            ∙ with_status-updated status err_msg (lawful.row s id))
    | inr differ ↦ rw differ (lawful.update_other id (status_updates status err_msg) s j differ)
  ]

  to_entity_job-status :
      (row : DbJob) (job : EntityJob)
      → to_entity_job t row ≡ ok job
      → (job.status ≡ row.status) × (job.id ≡ row.id)
  unfolding to_entity_job
  to_entity_job-status row job e = ground arith

  pub to_entity_jobs-All :
      (status : DbJobStatus) (rows : List DbJob) (jobs : List EntityJob)
      → All (λ j. j.status ≡ status) rows
      → to_entity_jobs d t rows ≡ ok jobs
      → All (λ j. j.status ≡ status) jobs × (map (λ j. j.id) jobs ≡ map (λ j. j.id) rows)
  unfolding to_entity_jobs
  to_entity_jobs-All status [] jobs h e = let e' : [] ≡ jobs = cc in rw (← e') (tt, refl)
  to_entity_jobs-All status (row ∷ rows) jobs h e =
      let (job, e₁, rest) = >>=-eq-ok (to_entity_job t row) _ e in
      let (tail, e₂, last) = >>=-eq-ok (to_entity_jobs d t rows) _ rest in
      let (same, ids) = to_entity_jobs-All status rows tail h.1 e₂ in
      let (st, id) = to_entity_job-status row job e₁ in
      let e' : job ∷ tail ≡ jobs = cc in rw (← e') (((st ∙ h.0), same), ap₂ ◌∷◌ id ids)

  -- The active jobs are the rows with the status "queuing", in the order of the answer.
  pub find_active_jobs-All :
      (s : d.State) (jobs : List EntityJob)
      → (find_active_jobs d t s).0 ≡ ok jobs
      → All (λ j. j.status ≡ queuing) jobs
  unfolding find_active_jobs
  find_active_jobs-All s jobs e =
      let (rows, e₁, rest) = >>=-eq-ok (d.find_with_status queuing s).0 (to_entity_jobs d t) e in
      (to_entity_jobs-All queuing rows jobs (lawful.find_with_status_ok queuing s rows e₁) rest).0

-- The JSON column and the text of an address give back what was put in, for what this job has in them.
pub record AreFaithful (t : Texts) (job : EntityJob) : Type 0 where
  pub unmarshal-marshal :
      (x : String)
      → t.marshal_op job.user_operation ≡ ok x
      → t.unmarshal_op x ≡ ok job.user_operation
  pub account : t.hex_to_address (t.hex job.account_address) ≡ job.account_address
  pub entry_point : t.hex_to_address (t.hex job.entry_point_address) ≡ job.entry_point_address

-- A job that ToDBJob can write is read back by ToEntityJob unchanged.
pub to_entity_job-to_db_job :
    (t : Texts) (job : EntityJob)
    → AreFaithful t job
    → (row : DbJob) → to_db_job t job ≡ ok row
    → to_entity_job t row ≡ ok job
unfolding to_entity_job to_db_job
to_entity_job-to_db_job t job f row e = elim (Reply-cases (t.marshal_op job.user_operation)) [
  | inl (x, m) ↦ ground (arith, f.unmarshal-marshal x m, f.account, f.entry_point)
  | inr (e', m) ↦ absurd (ground arith)
]
