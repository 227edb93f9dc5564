-- ===== src/Jobs/Service.antt =====
-- src/service/job.go, JobService: each method passes its call on to the repository, and logs it.
use samanager_backend.Base.{ℕ, String, List, Option, Reply, Done}
use samanager_backend.Base.Int.{ℤ}
use samanager_backend.Erc4337.UserOp.{UserOperation}
use samanager_backend.Domain.Job.{EntityJob, DbJobStatus, Texts}
use samanager_backend.Jobs.Database.{Database}
use samanager_backend.Jobs.Repo as Repo

module _ (d : Database) (t : Texts) where
  abbrev pub register_job :
      List ℕ → ℤ → ℤ → String → UserOperation → List ℕ → d.State → Reply EntityJob × d.State
  register_job account chain_id job_id job_type user_operation entry_point s =
      Repo.create_job d t account chain_id job_id job_type user_operation entry_point s

  abbrev pub get_active_jobs : d.State → Reply (List EntityJob) × d.State
  get_active_jobs s = Repo.find_active_jobs d t s

  abbrev pub get_job_by_id : String → d.State → Reply EntityJob × d.State
  get_job_by_id id s = Repo.find_job_by_id d t id s

  abbrev pub update_job_status :
      String → DbJobStatus → Option String → d.State → Reply Done × d.State
  update_job_status id status err_msg s = Repo.update_job_status d t id status err_msg s
