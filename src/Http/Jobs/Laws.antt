-- ===== src/Http/Jobs/Laws.antt =====
-- What a client that registers or lists jobs is told, and what the table has then.
use samanager_backend.Base.{
  ℕ, ◌≡◌, ◌≢◌, refl, ap, ◌∙◌, inl, inr, ◌⊎◌, String, Bool, true, false, none, some, Error, Reply,
  ok, err, Bool-cases,
}
use samanager_backend.Erc4337.UserOp.{UserOperation}
use samanager_backend.Domain.Job.{EntityJob, Texts, queuing}
use samanager_backend.Jobs.Database.{Database, IsLawful}
use samanager_backend.Jobs.Repo.{create_job}
use samanager_backend.Jobs.Laws.Registration.{create_job-IsRegistered, create_job-row}
use samanager_backend.Http.Responses.{Response, respond_with_error, respond_with_success_and_status}
use samanager_backend.Http.Jobs.{
  RegisterJobRequest, RegisterJobResponse, Check, bad_request, check_request, answer_registered,
  register_job_response, register_checked, register_job,
}
use samanager_backend.Http.Jobs.Checks.{
  is_valid_request, IsBadRequest, bad_request-IsBadRequest, IsFound-eq, check_request-IsFound,
}

module _ (d : Database) (t : Texts) (is_hex_address : String → Bool) (format : ℕ → String) where
  pub record IsAdded (lawful : IsLawful d) (req : RegisterJobRequest) (s : d.State)
      (answer : Response RegisterJobResponse × d.State) (r : RegisterJobResponse) : Type 0 where
    pub status : answer.0.status ≡ 201
    pub valid : is_valid_request is_hex_address req ≡ true
    pub chain_id : r.chain_id ≡ req.chain_id
    pub job_id : r.job_id ≡ req.job_id
    pub job_type : r.job_type ≡ req.job_type
    pub account_address : r.account_address ≡ t.hex (t.hex_to_address req.account_address)
    pub entry_point : r.entry_point ≡ t.hex (t.hex_to_address req.entry_point)
    pub fresh : lawful.row s r.job_uuid ≡ none
    pub queued : lawful.row answer.1 r.job_uuid ≡ some (record { status = queuing; err_msg = none })

  abbrev register_row : RegisterJobRequest → UserOperation → d.State → Reply EntityJob × d.State
  register_row req op s =
      create_job d t (t.hex_to_address req.account_address) req.chain_id req.job_id req.job_type op
        (t.hex_to_address req.entry_point) s

  answer_registered-eq :
      (p : Reply EntityJob × d.State) (r : RegisterJobResponse)
      → (answer_registered d t is_hex_address format p).0.body.payload ≡ some r
      → (job : EntityJob) × (p.0 ≡ ok job)
        × (register_job_response d t is_hex_address format job ≡ r)
        × ((answer_registered d t is_hex_address format p).0.status ≡ 201)
        × ((answer_registered d t is_hex_address format p).1 ≡ p.1)
  unfolding answer_registered respond_with_error respond_with_success_and_status
  answer_registered-eq (err x, s) r e = cc
  answer_registered-eq (ok job, s) r e = (job, refl, cc, refl, refl)

  -- A request whose body does not bind, that lacks a required field, or that has another job type than "transfer"
  -- and "swap" or a text that is no address, is answered with 400 and the API code 1001, and adds no row.
  pub register_job-refused :
      (bound : Reply RegisterJobRequest) (s : d.State)
      → ((req : RegisterJobRequest) → bound ≡ ok req → is_valid_request is_hex_address req ≡ false)
      → IsBadRequest (register_job d t is_hex_address format bound s).0
        × ((register_job d t is_hex_address format bound s).1 ≡ s)
  unfolding register_job register_checked
  register_job-refused (err e) s h =
      (bad_request-IsBadRequest RegisterJobResponse e "Invalid request payload", refl)
  register_job-refused (ok req) s h =
      let (cause, message, e) =
        IsFound-eq (is_valid_request is_hex_address req) false (check_request is_hex_address req)
          (h req refl) (check_request-IsFound is_hex_address req) in
      rw (e, register_job, register_checked)
        (bad_request-IsBadRequest RegisterJobResponse cause message, refl)

  answer_registered-state :
      (made : Reply EntityJob × d.State)
      → (answer_registered d t is_hex_address format made).1 ≡ made.1
  unfolding answer_registered
  answer_registered-state (err e, s) = refl
  answer_registered-state (ok job, s) = refl

  register_checked-row :
      (lawful : IsLawful d) (req : RegisterJobRequest) (c : Check) (s : d.State) (id : String)
      → (lawful.row (register_checked d t is_hex_address format req c s).1 id ≡ lawful.row s id)
        ⊎ (lawful.row s id ≡ none)
  unfolding register_checked
  register_checked-row lawful req (inl e) s id = inl refl
  register_checked-row lawful req (inr op) s id =
      rw (answer_registered-state (register_row req op s)) (
        create_job-row d lawful t (t.hex_to_address req.account_address) req.chain_id req.job_id
          req.job_type op (t.hex_to_address req.entry_point) s id)

  -- A row that was there stays as it was.
  pub register_job-row :
      (lawful : IsLawful d) (bound : Reply RegisterJobRequest) (s : d.State) (id : String)
      → (lawful.row (register_job d t is_hex_address format bound s).1 id ≡ lawful.row s id)
        ⊎ (lawful.row s id ≡ none)
  unfolding register_job
  register_job-row lawful (err e) s id = inl refl
  register_job-row lawful (ok req) s id =
      register_checked-row lawful req (check_request is_hex_address req) s id

  refused_payload :
      (cause : Error) (message : String) (r : RegisterJobResponse)
      → (respond_with_error {A = RegisterJobResponse} (bad_request cause message)).body.payload
        ≢ some r
  unfolding respond_with_error
  refused_payload cause message r e = cc

  answer_registered-IsAdded :
      (lawful : IsLawful d)
      → ((x : String) → t.hex_to_address (t.hex (t.hex_to_address x)) ≡ t.hex_to_address x)
      → (req : RegisterJobRequest) (op : UserOperation) (s : d.State) (r : RegisterJobResponse)
      → is_valid_request is_hex_address req ≡ true
      → (answer_registered d t is_hex_address format (register_row req op s)).0.body.payload
        ≡ some r
      → IsAdded lawful req s (answer_registered d t is_hex_address format (register_row req op s)) r
  answer_registered-IsAdded lawful canonical req op s r valid e =
      let (job, made, same, status, kept) = answer_registered-eq (register_row req op s) r e in
      let registered =
        create_job-IsRegistered d lawful t (t.hex_to_address req.account_address) req.chain_id
          req.job_id req.job_type op (t.hex_to_address req.entry_point) s job made in
      rw (← same) (record {
        status = status;
        valid = valid;
        chain_id = registered.chain;
        job_id = registered.on_chain;
        job_type = registered.kind;
        account_address = ap t.hex (registered.account_text ∙ canonical req.account_address);
        entry_point = ap t.hex (registered.entry_text ∙ canonical req.entry_point);
        fresh = registered.fresh;
        queued = rw kept registered.queued;
      })

  -- A request that is answered with a payload is valid, and is answered with 201 and a row that was not in the
  -- table and that waits in the queue. The answer has the request's chain, job id and type, and its addresses in
  -- their canonical text. The chain id is not checked.
  pub register_job-registered :
      (lawful : IsLawful d)
      → ((x : String) → t.hex_to_address (t.hex (t.hex_to_address x)) ≡ t.hex_to_address x)
      → (req : RegisterJobRequest) (s : d.State) (r : RegisterJobResponse)
      → (register_job d t is_hex_address format (ok req) s).0.body.payload ≡ some r
      → IsAdded lawful req s (register_job d t is_hex_address format (ok req) s) r
  unfolding register_job register_checked
  register_job-registered lawful canonical req s r e =
      elim (Bool-cases (is_valid_request is_hex_address req)) [
        | inr invalid ↦
            let (cause, message, stopped) =
              IsFound-eq (is_valid_request is_hex_address req) false
                (check_request is_hex_address req) invalid
                (check_request-IsFound is_hex_address req) in
            absurd
              (refused_payload cause message r (rw (stopped, register_job, register_checked) at e))
        | inl valid ↦
            let (op, passed) =
              IsFound-eq (is_valid_request is_hex_address req) true
                (check_request is_hex_address req) valid
                (check_request-IsFound is_hex_address req) in
            rw (passed, register_job, register_checked)
              (answer_registered-IsAdded lawful canonical req op s r valid
                (rw (passed, register_job, register_checked) at e))
      ]
