-- ===== src/Http/Jobs/Listing.antt =====
-- What a client that lists the jobs is told.
use samanager_backend.Base.{
  ◌≡◌, refl, ◌∙◌, ◌⊎◌, inl, inr, ap, ℕ, String, Bool, List, [], ◌∷◌, map, some, none, ok, err,
  Error, Reply, Reply-cases,
}
use samanager_backend.Base.Errors.{◌>>=◌, >>=-eq-ok}
use samanager_backend.Domain.Job.{DbJob, EntityJob, Texts, queuing}
use samanager_backend.Jobs.Database.{Database, IsLawful}
use samanager_backend.Jobs.Repo.{find_active_jobs, to_entity_jobs}
use samanager_backend.Jobs.Laws.{to_entity_jobs-All}
use samanager_backend.Http.Errors.{http_status}
use samanager_backend.Http.Responses.{
  Response, respond_with_error, respond_with_success, parse_domain_error,
}
use samanager_backend.Http.Jobs.{JobResponse, to_job_response, answer_list, get_job_list}

module _ (d : Database) (t : Texts) (is_hex_address : String → Bool) (format : ℕ → String) where
  to_job_response-ids :
      (jobs : List EntityJob)
      → map (λ (j : JobResponse). j.id) (map (to_job_response d t is_hex_address format) jobs)
        ≡ map (λ (j : EntityJob). j.id) jobs
  unfolding to_job_response
  to_job_response-ids [] = refl
  to_job_response-ids (j ∷ js) = ap (◌∷◌ j.id) (to_job_response-ids js)

  abbrev Answer : Type 0
  Answer = Response (List JobResponse) × d.State

  abbrev Listed : Answer → Reply (List EntityJob) × d.State → Type 0
  Listed answer (err e, s) = (answer.0.status ≡ 500) × (answer.0.body.payload ≡ none)
  Listed answer (ok jobs, s) =
      (answer.0.status ≡ 200)
      × (answer.0.body.payload ≡ some (map (to_job_response d t is_hex_address format) jobs))

  answer_list-Listed :
      (p : Reply (List EntityJob) × d.State)
      → Listed (answer_list d t is_hex_address format p) p
        × ((answer_list d t is_hex_address format p).1 ≡ p.1)
  unfolding answer_list respond_with_error respond_with_success http_status parse_domain_error
  answer_list-Listed (err e, s) = ((refl, refl), refl)
  answer_list-Listed (ok jobs, s) = ((refl, refl), refl)

  Listed-ok :
      (answer : Answer) (p : Reply (List EntityJob) × d.State) (jobs : List EntityJob)
      → p.0 ≡ ok jobs
      → Listed answer p
      → (answer.0.status ≡ 200)
        × (answer.0.body.payload ≡ some (map (to_job_response d t is_hex_address format) jobs))
  Listed-ok answer (err x, s) jobs e listed = cc
  Listed-ok answer (ok jobs', s) jobs e listed = let same : jobs' ≡ jobs = cc in rw (← same) listed

  Listed-err :
      (answer : Answer) (p : Reply (List EntityJob) × d.State) (x : Error)
      → p.0 ≡ err x
      → Listed answer p
      → (answer.0.status ≡ 500) × (answer.0.body.payload ≡ none)
  Listed-err answer (err y, s) x e listed = listed
  Listed-err answer (ok jobs, s) x e listed = cc

  find_active_jobs-reply :
      (s : d.State) (jobs : List EntityJob)
      → (find_active_jobs d t s).0 ≡ ok jobs
      → ((d.find_with_status queuing s).0 >>= to_entity_jobs d t) ≡ ok jobs
  unfolding find_active_jobs
  find_active_jobs-reply s jobs e = e

  find_active_jobs-row :
      (lawful : IsLawful d) (s : d.State) (id : String)
      → lawful.row (find_active_jobs d t s).1 id ≡ lawful.row s id
  unfolding find_active_jobs
  find_active_jobs-row lawful s id = lawful.find_with_status_row queuing s id

  -- The list changes no row. It is answered with 200 and an entry for each row whose status is "queuing", in the
  -- table's order, or else with 500 and no entry at all.
  pub get_job_list_lem :
      (lawful : IsLawful d) (s : d.State)
      → ((id : String)
          → lawful.row (get_job_list d t is_hex_address format s).1 id ≡ lawful.row s id)
        × (((jobs : List JobResponse) × (rows : List DbJob) × ((get_job_list d t is_hex_address
                  format s).0.status
                ≡ 200)
              × ((get_job_list d t is_hex_address format s).0.body.payload ≡ some jobs)
              × ((d.find_with_status queuing s).0 ≡ ok rows)
              × (map (λ (j : JobResponse). j.id) jobs ≡ map (λ (r : DbJob). r.id) rows))
            ⊎ (((get_job_list d t is_hex_address format s).0.status ≡ 500)
                × ((get_job_list d t is_hex_address format s).0.body.payload ≡ none)))
  unfolding get_job_list
  get_job_list_lem lawful s =
      let p = find_active_jobs d t s in
      let (listed, kept) = answer_list-Listed p in
      (
        λ id. rw kept (find_active_jobs-row lawful s id),
        elim (Reply-cases p.0) [
          | inl (jobs, e) ↦
              let (status, payload) =
                Listed-ok (answer_list d t is_hex_address format p) p jobs e listed in
              let (rows, found, read) =
                >>=-eq-ok (d.find_with_status queuing s).0 (to_entity_jobs d t)
                  (find_active_jobs-reply s jobs e) in
              let (same, ids) =
                to_entity_jobs-All d lawful t queuing rows jobs
                  (lawful.find_with_status_ok queuing s rows found) read in
              inl (
                map (to_job_response d t is_hex_address format) jobs,
                rows,
                status,
                payload,
                found,
                to_job_response-ids jobs ∙ ids,
              )
          | inr (x, e) ↦ inr (Listed-err (answer_list d t is_hex_address format p) p x e listed)
        ],
      )
