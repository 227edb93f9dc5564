-- ===== src/Jobs/Repo.antt =====
-- src/repository/job_repo.go, JobRepository.
use samanager_backend.Base.{ℕ, String, List, [], ◌∷◌, Option, none, Reply, ok, err, Done}
use samanager_backend.Base.Errors.{◌>>=◌}
use samanager_backend.Base.Int.{ℤ}
use samanager_backend.Erc4337.UserOp.{UserOperation}
use samanager_backend.Domain.Job.{
  DbJob, EntityJob, DbJobStatus, queuing, completed, failed, Texts, to_entity_job,
}
use samanager_backend.Jobs.Database.{Database, Updates}

-- The message is set for the status "failed" alone.
unfoldable pub status_updates : DbJobStatus → Option String → Updates
status_updates queuing err_msg = record { status = queuing; err_msg = none }
status_updates completed err_msg = record { status = completed; err_msg = none }
status_updates failed err_msg = record { status = failed; err_msg = err_msg }

-- `id`, `created_at` and `updated_at` have no value in the structure: the database fills them in.
module _ (d : Database) (t : Texts) where
  -- The loop that converts the rows; the first that fails ends it.
  unfoldable pub to_entity_jobs : List DbJob → Reply (List EntityJob)
  to_entity_jobs [] = ok []
  to_entity_jobs (row ∷ rows) = do
    job ← to_entity_job t row
    jobs ← to_entity_jobs rows
    ok (job ∷ jobs)

  unfoldable pub created : Reply DbJob × d.State → Reply EntityJob × d.State
  created (reply, s) = (reply >>= to_entity_job t, s)

  unfoldable pub create_row :
      List ℕ → ℤ → ℤ → String → List ℕ → Reply String → d.State → Reply EntityJob × d.State
  unfolding created
  create_row account chain_id job_id job_type entry_point (err e) s = (err e, s)
  create_row account chain_id job_id job_type entry_point (ok user_op_json) s = created (
      d.create
        (record {
          id = "";
          account_address = t.hex account;
          chain_id = chain_id;
          on_chain_job_id = job_id;
          user_operation = user_op_json;
          entry_point_address = t.hex entry_point;
          job_type = job_type;
          status = queuing;
          err_msg = none;
          created_at = 0;
          updated_at = 0;
        })
        s)

  unfoldable pub create_job :
      List ℕ → ℤ → ℤ → String → UserOperation → List ℕ → d.State → Reply EntityJob × d.State
  unfolding create_row
  create_job account chain_id job_id job_type user_operation entry_point s =
      create_row account chain_id job_id job_type entry_point (t.marshal_op_pointer user_operation)
        s

  unfoldable pub find_jobs : d.State → Reply (List EntityJob) × d.State
  find_jobs s = let (rows, s') = d.find s in (rows >>= to_entity_jobs, s')

  unfoldable pub find_job_by_id : String → d.State → Reply EntityJob × d.State
  find_job_by_id id s = let (row, s') = d.first_with_id id s in (row >>= to_entity_job t, s')

  unfoldable pub find_active_jobs : d.State → Reply (List EntityJob) × d.State
  find_active_jobs s =
      let (rows, s') = d.find_with_status queuing s in (rows >>= to_entity_jobs, s')

  unfoldable pub update_job_status :
      String → DbJobStatus → Option String → d.State → Reply Done × d.State
  update_job_status id status err_msg s = d.update_with_id id (status_updates status err_msg) s
