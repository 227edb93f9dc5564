-- ===== src/Tests/Samples.antt =====
-- Sample operations, jobs and cache entries, and codecs that know them.
use samanager_backend.Base.{
  ℕ, ◌≡◌, refl, ap, str_eq, eq_iff, String, ◌*◌, ◌+◌, ◌^◌, Bool, true, false, List, [], ◌∷◌, Option,
  none, some, replicate, arith,
}
use samanager_backend.Base.Int.{ℤ, pos}
use samanager_backend.Erc4337.UserOp.{UserOperation, zero_op}
use samanager_backend.Domain.Job.{EntityJob, DbJobStatus, queuing, completed, failed}
use samanager_backend.Cache.Repo.{
  CacheJobStatus, pending, unknown, failed as cache_failed, completed as cache_completed, JobCache,
  Codec, IsFaithful,
}
use samanager_backend.Tests.Sameness.{
  Test, of_ℕ, of_String, of_ℤ, of_pair, through, of_List, of_Option, encode_two, decode_two,
  decode_two-encode_two,
}

abbrev pub op : UserOperation
op = record zero_op {
  sender = replicate 20 0xab;
  nonce = some (pos (2 ^ 64 * 7 + 3));
  call_data = 1 ∷ 2 ∷ [];
  call_gas_limit = some (pos 100000);
  verification_gas_limit = some (pos 90000);
}

abbrev cache_of_tuple : String × (ℤ × (List ℕ × (CacheJobStatus × (String × (ℕ))))) → JobCache
cache_of_tuple (i, (c, (h, (s, (e, u))))) = record {
  job_id = i;
  chain_id = c;
  user_op_hash = h;
  status = s;
  error = e;
  updated_at = u;
}

abbrev pub same_status : CacheJobStatus → CacheJobStatus → Bool
same_status pending pending = true
same_status cache_failed cache_failed = true
same_status cache_completed cache_completed = true
same_status (unknown a) (unknown b) = str_eq a b
same_status _ _ = false

pub same_status_sound : (a b : CacheJobStatus) → same_status a b ≡ true → a ≡ b
same_status_sound pending b h = ground arith
same_status_sound cache_failed b h = ground arith
same_status_sound cache_completed b h = ground arith
same_status_sound (unknown a) (unknown b) h = ap unknown ((eq_iff a b).0 h)
same_status_sound (unknown a) pending h = cc
same_status_sound (unknown a) cache_failed h = cc
same_status_sound (unknown a) cache_completed h = cc

abbrev of_JobCache : Test JobCache
of_JobCache =
    through (λ j. (j.job_id, (j.chain_id, (j.user_op_hash, (j.status, (j.error, j.updated_at))))))
      cache_of_tuple (λ j. refl)
      (of_pair of_String (
        of_pair of_ℤ (
          of_pair (of_List of_ℕ) (
            of_pair (record { same = same_status; sound = same_status_sound })
              (of_pair of_String of_ℕ)))))

abbrev op_of_tuple :
    List ℕ
      × (Option ℤ
          × (Option (List ℕ)
              × (List ℕ
                  × (List ℕ
                      × (Option ℤ
                          × (Option ℤ
                              × (Option ℤ
                                  × (Option ℤ
                                      × (Option ℤ
                                          × (Option (List ℕ)
                                              × (Option ℤ
                                                  × (Option ℤ × (List ℕ × (List ℕ))))))))))))))
    → UserOperation
op_of_tuple
      (x0, (x1, (x2, (x3, (x4, (x5, (x6, (x7, (x8, (x9, (x10, (x11, (x12, (x13, x14)))))))))))))) =
    record {
      sender = x0;
      nonce = x1;
      factory = x2;
      factory_data = x3;
      call_data = x4;
      call_gas_limit = x5;
      verification_gas_limit = x6;
      pre_verification_gas = x7;
      max_priority_fee_per_gas = x8;
      max_fee_per_gas = x9;
      paymaster = x10;
      paymaster_verification_gas_limit = x11;
      paymaster_post_op_gas_limit = x12;
      paymaster_data = x13;
      signature = x14;
    }

abbrev pub of_UserOperation : Test UserOperation
of_UserOperation =
    through
      (λ j. (
        j.sender,
        (
          j.nonce,
          (
            j.factory,
            (
              j.factory_data,
              (
                j.call_data,
                (
                  j.call_gas_limit,
                  (
                    j.verification_gas_limit,
                    (
                      j.pre_verification_gas,
                      (
                        j.max_priority_fee_per_gas,
                        (
                          j.max_fee_per_gas,
                          (
                            j.paymaster,
                            (
                              j.paymaster_verification_gas_limit,
                              (j.paymaster_post_op_gas_limit, (j.paymaster_data, j.signature)),
                            ),
                          ),
                        ),
                      ),
                    ),
                  ),
                ),
              ),
            ),
          ),
        ),
      ))
      op_of_tuple (λ j. refl)
      (of_pair (of_List of_ℕ) (
        of_pair (of_Option of_ℤ) (
          of_pair (of_Option (of_List of_ℕ)) (
            of_pair (of_List of_ℕ) (
              of_pair (of_List of_ℕ) (
                of_pair (of_Option of_ℤ) (
                  of_pair (of_Option of_ℤ) (
                    of_pair (of_Option of_ℤ) (
                      of_pair (of_Option of_ℤ) (
                        of_pair (of_Option of_ℤ) (
                          of_pair (of_Option (of_List of_ℕ)) (
                            of_pair (of_Option of_ℤ) (
                              of_pair (of_Option of_ℤ)
                                (of_pair (of_List of_ℕ) (of_List of_ℕ)))))))))))))))

abbrev pub same_db_status : DbJobStatus → DbJobStatus → Bool
same_db_status queuing queuing = true
same_db_status completed completed = true
same_db_status failed failed = true
same_db_status _ _ = false

pub same_db_status_sound : (a b : DbJobStatus) → same_db_status a b ≡ true → a ≡ b
same_db_status_sound a b h = ground arith

abbrev of_DbJobStatus : Test DbJobStatus
of_DbJobStatus = record { same = same_db_status; sound = same_db_status_sound }

abbrev job_of_tuple :
    String
      × (List ℕ
          × (ℤ
              × (ℤ
                  × (UserOperation
                      × (List ℕ × (String × (DbJobStatus × (Option String × (ℕ × (ℕ))))))))))
    → EntityJob
job_of_tuple (x0, (x1, (x2, (x3, (x4, (x5, (x6, (x7, (x8, (x9, x10)))))))))) = record {
  id = x0;
  account_address = x1;
  chain_id = x2;
  on_chain_job_id = x3;
  user_operation = x4;
  entry_point_address = x5;
  job_type = x6;
  status = x7;
  err_msg = x8;
  created_at = x9;
  updated_at = x10;
}

abbrev of_EntityJob : Test EntityJob
of_EntityJob =
    through
      (λ j. (
        j.id,
        (
          j.account_address,
          (
            j.chain_id,
            (
              j.on_chain_job_id,
              (
                j.user_operation,
                (
                  j.entry_point_address,
                  (j.job_type, (j.status, (j.err_msg, (j.created_at, j.updated_at)))),
                ),
              ),
            ),
          ),
        ),
      ))
      job_of_tuple (λ j. refl)
      (of_pair of_String (
        of_pair (of_List of_ℕ) (
          of_pair of_ℤ (
            of_pair of_ℤ (
              of_pair of_UserOperation (
                of_pair (of_List of_ℕ) (
                  of_pair of_String (
                    of_pair of_DbJobStatus
                      (of_pair (of_Option of_String) (of_pair of_ℕ of_ℕ))))))))))

abbrev pub job : EntityJob
job = record {
  id = "a";
  account_address = replicate 20 0xab;
  chain_id = pos 11155111;
  on_chain_job_id = pos 1;
  user_operation = op;
  entry_point_address = replicate 20 0x07;
  job_type = "transfer";
  status = queuing;
  err_msg = none;
  created_at = 10;
  updated_at = 10;
}

abbrev pub other_job : EntityJob
other_job = record job { id = "b" }

-- As the scheduler adds it.
abbrev pub new_entry : JobCache
new_entry = record {
  job_id = "a";
  chain_id = pos 11155111;
  user_op_hash = replicate 32 0;
  status = pending;
  error = "";
  updated_at = 50;
}

abbrev pub sent_entry : JobCache
sent_entry = record new_entry { user_op_hash = replicate 32 9; updated_at = 60 }

abbrev pub failed_entry : JobCache
failed_entry = record {
  job_id = "a";
  chain_id = pos 0;
  user_op_hash = replicate 32 0;
  status = cache_failed;
  error = "gone";
  updated_at = 60;
}

abbrev pub codec_of : JobCache → Codec
codec_of second = record {
  encode_cache = encode_two of_JobCache new_entry second;
  decode_cache = decode_two of_JobCache new_entry second;
  encode_job = encode_two of_EntityJob job other_job;
  decode_job = decode_two of_EntityJob job other_job;
}

pub codec_of-IsFaithful : (second : JobCache) → IsFaithful (codec_of second)
codec_of-IsFaithful second = record {
  decode_cache-encode_cache = decode_two-encode_two of_JobCache new_entry second;
  decode_job-encode_job = decode_two-encode_two of_EntityJob job other_job;
}
