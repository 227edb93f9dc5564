-- ===== src/Tests/HttpRuns.antt =====
-- Requests, answered on the table in memory.
use samanager_backend.Base.{
  ℕ, ◌+◌, Bool, Bool-cases, ◌||◌, ◌≡◌, ◌⊎◌, refl, String, true, false, List, [], ◌∷◌, none, some,
  ok, failure, map, str_eq, not, ◌&&◌, All, inl, inr,
}
use samanager_backend.Base.Int.{pos}
use samanager_backend.Domain.Job.{to_entity_job, DbJob, queuing}
use samanager_backend.Jobs.Repo.{create_job, create_row, created}
use samanager_backend.Http.Errors.{ErrorCode, native, new_error, with_msg}
use samanager_backend.Http.Responses.{
  Response, respond_with_error, respond_with_success, respond_with_success_and_status,
}
use samanager_backend.Http.Responses.Laws.{api_codes, Answers, wraps, respond_with_error-new_error}
use samanager_backend.Http.Guard.{pass, refuse, Serve, IsEngine, protected, protected_lem}
use samanager_backend.Http.Jobs.{
  RegisterJobRequest, RegisterJobResponse, JobResponse, register_checked, check_request, stop_if,
  answer_registered, register_job, get_job_list,
}
use samanager_backend.Http.Jobs.Checks.{IsBadRequest}
use samanager_backend.Http.Jobs.Laws.{IsAdded, register_job-refused, register_job-registered}
use samanager_backend.Http.Jobs.Listing.{get_job_list_lem}
use samanager_backend.Tests.Stores.{table, table-IsLawful}
use samanager_backend.Tests.Samples.{op}
use samanager_backend.Tests.JobRuns.{texts, rows}

respond_with_error-new_error_example :
    All
      (λ (entry : ErrorCode × ℕ).
        Answers {A = String}
          (respond_with_error (
            wraps
              ("outer" ∷ [])
              (new_error entry.0 (native (failure "cause")) (with_msg "Refused" ∷ []))))
          entry.0.status_code
          entry.1
          "Refused")
      api_codes
respond_with_error-new_error_example =
    respond_with_error-new_error ("outer" ∷ []) (failure "cause") "Refused" refl

-- An engine.
abbrev serve : Serve ℕ String
serve pass handle s = handle s
serve (refuse r) handle s = (r, s)

serve-IsEngine : IsEngine ℕ String serve
serve-IsEngine = record { passes = λ handle s. refl; stops = λ r handle s e. refl }

abbrev count_up : ℕ → Response String × ℕ
count_up s = (respond_with_success "counted", s + 1)

protected_lem_example :
    (((not (str_eq "guess" "") && str_eq "guess" "secret") ≡ true)
      → protected ℕ String serve "secret" "guess" count_up 0 ≡ count_up 0)
    × (((not (str_eq "guess" "") && str_eq "guess" "secret") ≡ false)
        → ((protected ℕ String serve "secret" "guess" count_up 0).0.status ≡ 401)
          × ((protected ℕ String serve "secret" "guess" count_up 0).0.body.code ≡ 1004)
          × ((protected ℕ String serve "secret" "guess" count_up 0).1 ≡ 0))
protected_lem_example = protected_lem ℕ String serve serve-IsEngine "secret" "guess" count_up 0

abbrev pub is_known : String → Bool
is_known text = str_eq text "0xab" || str_eq text "0x07"

abbrev pub times : ℕ → String
times seconds = "some time"

abbrev pub request : RegisterJobRequest
request = record {
  account_address = "0xab";
  chain_id = pos 1;
  job_id = pos 4;
  job_type = "swap";
  user_operation = some op;
  entry_point = "0x07";
}

abbrev bad_request : RegisterJobRequest
bad_request = record request { job_type = "mint" }

register_job-refused_example :
    IsBadRequest (register_job table texts is_known times (ok bad_request) rows).0
    × ((register_job table texts is_known times (ok bad_request) rows).1 ≡ rows)
register_job-refused_example =
    register_job-refused table texts is_known times (ok bad_request) rows
      (λ req e. let same : bad_request ≡ req = cc in rw (← same) refl)

abbrev response : RegisterJobResponse
response = record {
  job_uuid = "new";
  account_address = "0xab";
  chain_id = pos 1;
  job_id = pos 4;
  job_type = "swap";
  entry_point = "0x07";
  created_at = "some time";
  updated_at = "some time";
  message = "Job registered successfully";
}

canonical :
    (x : String)
    → texts.hex_to_address (texts.hex (texts.hex_to_address x)) ≡ texts.hex_to_address x
canonical x = elim (Bool-cases (str_eq x "0xab")) [ inl e ↦ rw e refl | inr e ↦ rw e refl ]

register_job-registered_example :
    IsAdded table texts is_known times table-IsLawful request rows
      (register_job table texts is_known times (ok request) rows)
      response
unfolding register_job register_checked check_request stop_if answer_registered create_job
    create_row created to_entity_job respond_with_success_and_status
register_job-registered_example =
    register_job-registered table texts is_known times table-IsLawful canonical request rows
      response refl

get_job_list_lem_example :
    ((id : String)
      → table-IsLawful.row (get_job_list table texts is_known times rows).1 id
        ≡ table-IsLawful.row rows id)
    × (((jobs : List JobResponse) × (found : List DbJob) × ((get_job_list table texts is_known times
              rows).0.status
            ≡ 200)
          × ((get_job_list table texts is_known times rows).0.body.payload ≡ some jobs)
          × ((table.find_with_status queuing rows).0 ≡ ok found)
          × (map (λ (j : JobResponse). j.id) jobs ≡ map (λ (r : DbJob). r.id) found))
        ⊎ (((get_job_list table texts is_known times rows).0.status ≡ 500)
            × ((get_job_list table texts is_known times rows).0.body.payload ≡ none)))
get_job_list_lem_example = get_job_list_lem table texts is_known times table-IsLawful rows
