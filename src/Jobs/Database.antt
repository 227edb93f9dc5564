-- ===== src/Jobs/Database.antt =====
-- The queries on the jobs table that src/repository/job_repo.go makes through gorm.
use samanager_backend.Base.{
  ◌≡◌, ◌⊎◌, String, false, List, Option, none, some, Reply, ok, Done, str_eq, All,
}
use samanager_backend.Domain.Job.{DbJob, DbJobStatus}

-- The columns that an update sets; an absent message leaves the column alone.
pub record Updates : Type 0 where
  pub status : DbJobStatus
  pub err_msg : Option String

pub record Database : Type 1 where
  pub State : Type 0
  -- `Create` fills the id and the times in.
  pub create : DbJob → State → Reply DbJob × State
  pub find : State → Reply (List DbJob) × State
  pub find_with_status : DbJobStatus → State → Reply (List DbJob) × State
  pub first_with_id : String → State → Reply DbJob × State
  pub update_with_id : String → Updates → State → Reply Done × State

abbrev pub or_old : Option String → Option String → Option String
or_old none old = old
or_old (some text) old = some text

pub record Columns : Type 0 where
  pub status : DbJobStatus
  pub err_msg : Option String

abbrev pub updated : Updates → Option Columns → Option Columns
updated u none = none
updated u (some row) = some (record { status = u.status; err_msg = or_old u.err_msg row.err_msg })

-- Documented behaviour. `row` is what the table has for an id, in the two columns that change.
pub record IsLawful (d : Database) : Type 0 where
  pub row : d.State → String → Option Columns
  pub find_with_status_ok :
      (status : DbJobStatus) (s : d.State) (jobs : List DbJob)
      → (d.find_with_status status s).0 ≡ ok jobs
      → All (λ j. j.status ≡ status) jobs
  pub find_with_status_listed :
      (status : DbJobStatus) (s : d.State) (jobs : List DbJob)
      → (d.find_with_status status s).0 ≡ ok jobs
      → All (λ j. row s j.id ≡ some (record { status = j.status; err_msg = j.err_msg })) jobs
  pub find_with_status_row :
      (status : DbJobStatus) (s : d.State) (id : String)
      → row (d.find_with_status status s).1 id ≡ row s id
  pub find_row : (s : d.State) (id : String) → row (d.find s).1 id ≡ row s id
  pub first_row :
      (wanted : String) (s : d.State) (id : String) → row (d.first_with_id wanted s).1 id ≡ row s id
  -- The row that is made has the given columns and its own id, the primary key of no other row.
  pub create_ok :
      (given : DbJob) (s : d.State) (made : DbJob)
      → (d.create given s).0 ≡ ok made
      → (made ≡ record given {
        id = made.id;
        created_at = made.created_at;
        updated_at = made.updated_at;
      })
        × (row s made.id ≡ none)
        × (row (d.create given s).1 made.id
            ≡ some (record { status = given.status; err_msg = given.err_msg }))
  pub create_row :
      (given : DbJob) (s : d.State) (id : String)
      → (row (d.create given s).1 id ≡ row s id)
        ⊎ ((row s id ≡ none)
            × (row (d.create given s).1 id
                ≡ some (record { status = given.status; err_msg = given.err_msg })))
  -- An update that fails may have been made.
  pub update_row :
      (id : String) (u : Updates) (s : d.State)
      → (row (d.update_with_id id u s).1 id ≡ row s id)
        ⊎ (row (d.update_with_id id u s).1 id ≡ updated u (row s id))
  pub update_ok :
      (id : String) (u : Updates) (s : d.State)
      → (d.update_with_id id u s).0 ≡ ok tt
      → row (d.update_with_id id u s).1 id ≡ updated u (row s id)
  pub update_other :
      (id : String) (u : Updates) (s : d.State) (j : String)
      → str_eq id j ≡ false
      → row (d.update_with_id id u s).1 j ≡ row s j
