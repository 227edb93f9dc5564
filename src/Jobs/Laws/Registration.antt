-- ===== src/Jobs/Laws/Registration.antt =====
-- What CreateJob adds to the table.
use samanager_backend.Base.{
  ◌≡◌, ◌⊎◌, refl, ◌∙◌, ap, ℕ, String, none, some, ok, inl, inr, Reply-cases, arith,
}
use samanager_backend.Base.Int.{ℤ}
use samanager_backend.Base.Errors.{>>=-eq-ok}
use samanager_backend.Erc4337.UserOp.{UserOperation}
use samanager_backend.Domain.Job.{DbJob, EntityJob, Texts, queuing, to_entity_job}
use samanager_backend.Jobs.Database.{Database, IsLawful}
use samanager_backend.Jobs.Repo.{created, create_row, create_job}
use samanager_backend.Base.{List}

-- The fields of a job that come from its row.
pub record IsReadOf (t : Texts) (row : DbJob) (job : EntityJob) : Type 0 where
  pub id : job.id ≡ row.id
  pub chain_id : job.chain_id ≡ row.chain_id
  pub on_chain_job_id : job.on_chain_job_id ≡ row.on_chain_job_id
  pub job_type : job.job_type ≡ row.job_type
  pub account_address : job.account_address ≡ t.hex_to_address row.account_address
  pub entry_point_address : job.entry_point_address ≡ t.hex_to_address row.entry_point_address

to_entity_job-IsReadOf :
    (t : Texts) (row : DbJob) (job : EntityJob) → to_entity_job t row ≡ ok job → IsReadOf t row job
unfolding to_entity_job
to_entity_job-IsReadOf t row job e = record {
  id = ground arith;
  chain_id = ground arith;
  on_chain_job_id = ground arith;
  job_type = ground arith;
  account_address = ground arith;
  entry_point_address = ground arith;
}

module _ (d : Database) (lawful : IsLawful d) (t : Texts) where
  -- What is registered: the row's fields are the arguments, the row is new, and it waits in the queue.
  pub record IsRegistered (account : List ℕ) (chain_id job_id : ℤ) (job_type : String)
      (entry_point : List ℕ) (before after : d.State) (job : EntityJob) : Type 0 where
    pub chain : job.chain_id ≡ chain_id
    pub on_chain : job.on_chain_job_id ≡ job_id
    pub kind : job.job_type ≡ job_type
    pub account_text : job.account_address ≡ t.hex_to_address (t.hex account)
    pub entry_text : job.entry_point_address ≡ t.hex_to_address (t.hex entry_point)
    pub fresh : lawful.row before job.id ≡ none
    pub queued : lawful.row after job.id ≡ some (record { status = queuing; err_msg = none })

  pub create_job-IsRegistered :
      (account : List ℕ) (chain_id job_id : ℤ) (job_type : String) (op : UserOperation)
      (entry_point : List ℕ) (s : d.State) (job : EntityJob)
      → (create_job d t account chain_id job_id job_type op entry_point s).0 ≡ ok job
      → IsRegistered account chain_id job_id job_type entry_point s
          (create_job d t account chain_id job_id job_type op entry_point s).1
          job
  unfolding create_job create_row created
  create_job-IsRegistered account chain_id job_id job_type op entry_point s job e =
      elim (Reply-cases (t.marshal_op_pointer op)) [
        | inr (x, m) ↦ cc (rw (m, create_job, create_row) at e)
        | inl (text, m) ↦
            let given : DbJob = record {
              id = "";
              account_address = t.hex account;
              chain_id = chain_id;
              on_chain_job_id = job_id;
              user_operation = text;
              entry_point_address = t.hex entry_point;
              job_type = job_type;
              status = queuing;
              err_msg = none;
              created_at = 0;
              updated_at = 0;
            } in
            let (made, e₁, e₂) =
              >>=-eq-ok (d.create given s).0 (to_entity_job t)
                (rw (m, create_job, create_row, created) at e) in
            let (same, fresh, queued) = lawful.create_ok given s made e₁ in
            let is_read = to_entity_job-IsReadOf t made job e₂ in
            record {
              chain = is_read.chain_id ∙ ap (λ (j : DbJob). j.chain_id) same;
              on_chain = is_read.on_chain_job_id ∙ ap (λ (j : DbJob). j.on_chain_job_id) same;
              kind = is_read.job_type ∙ ap (λ (j : DbJob). j.job_type) same;
              account_text =
                  is_read.account_address
                  ∙ ap (λ (j : DbJob). t.hex_to_address j.account_address) same;
              entry_text =
                  is_read.entry_point_address
                  ∙ ap (λ (j : DbJob). t.hex_to_address j.entry_point_address) same;
              fresh = rw is_read.id fresh;
              queued = rw (m, create_job, create_row, created, is_read.id) queued;
            }
      ]

  -- A row that was there stays as it was.
  pub create_job-row :
      (account : List ℕ) (chain_id job_id : ℤ) (job_type : String) (op : UserOperation)
      (entry_point : List ℕ) (s : d.State) (id : String)
      → (lawful.row (create_job d t account chain_id job_id job_type op entry_point s).1 id
          ≡ lawful.row s id)
        ⊎ (lawful.row s id ≡ none)
  unfolding create_job create_row created
  create_job-row account chain_id job_id job_type op entry_point s id =
      elim (Reply-cases (t.marshal_op_pointer op)) [
        | inr (x, m) ↦ inl (rw (m, create_job, create_row) refl)
        | inl (text, m) ↦ elim (lawful.create_row _ s id) [
          | inl kept ↦ inl (rw (m, create_job, create_row, created) kept)
          | inr (fresh, made) ↦ inr fresh
        ]
      ]
