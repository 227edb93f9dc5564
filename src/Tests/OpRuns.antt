-- ===== src/Tests/OpRuns.antt =====
-- Operations packed, hashed, printed and read.
use samanager_backend.Base.{
  ◌*◌, ◌+◌, ◌^◌, ◌≡◌, ◌↔◌, refl, [], ◌∷◌, ◌++◌, none, some, ok, replicate, take, arith,
}
use samanager_backend.Base.Int.{pos, negsuc}
use samanager_backend.Base.Digits.{fixed}
use samanager_backend.Erc4337.UserOp.{PackedUserOp, UserOperation, zero_op}
use samanager_backend.Erc4337.Pack.{pack_user_op, or_zero}
use samanager_backend.Erc4337.Pack.Layout.{
  FitsLayout, TooWide, pack_user_op-layout, pack_user_op_panics, pack_user_op-collision,
}
use samanager_backend.Erc4337.Hash.{Hashing}
use samanager_backend.Erc4337.Json.{UserOpJson, marshal_json, unmarshal_json}
use samanager_backend.Erc4337.Json.RoundTrip.{canonical, unmarshal_json-marshal_json}
use samanager_backend.Execution.{extract_nonce_key}
use samanager_backend.Execution.Nonce.{extract_nonce_key-key}
use samanager_backend.Tests.Samples.{op}

op-FitsLayout : FitsLayout op
op-FitsLayout = record {
  verification = omega arith;
  call = omega arith;
  priority = omega arith;
  max_fee = omega arith;
  paymaster_verification = omega arith;
  paymaster_post_op = omega arith;
}

abbrev op_packed : PackedUserOp
op_packed = record {
  sender = replicate 20 0xab;
  nonce = some (pos (2 ^ 64 * 7 + 3));
  init_code = [];
  call_data = 1 ∷ 2 ∷ [];
  account_gas_limits = fixed 16 256 90000 ++ fixed 16 256 100000;
  pre_verification_gas = some (or_zero none);
  gas_fees = fixed 16 256 0 ++ fixed 16 256 0;
  paymaster_and_data = [];
  signature = [];
}

pack_user_op-layout_example : pack_user_op op ≡ some op_packed
unfolding or_zero
pack_user_op-layout_example = pack_user_op-layout op op-FitsLayout

abbrev wide_op : UserOperation
wide_op = record op { call_gas_limit = some (pos (2 ^ 300)) }

pack_user_op_panics_example : (pack_user_op wide_op ≡ none) ↔ TooWide wide_op
pack_user_op_panics_example = pack_user_op_panics wide_op

abbrev broad_op : UserOperation
broad_op = record op { call_gas_limit = some (pos (2 ^ 255)) }

pack_user_op-collision_example :
    pack_user_op (record broad_op { verification_gas_limit = some (pos 1) })
    ≡ pack_user_op (record broad_op { verification_gas_limit = some (pos 2) })
pack_user_op-collision_example =
    pack_user_op-collision broad_op (some (pos 1)) (some (pos 2)) (pos (2 ^ 255)) (omega arith)
      (omega arith) refl (omega arith) (omega arith)

abbrev plain : Hashing
plain = record { keccak256 = λ xs. take 32 xs; abi_pack = λ values. ok (7 ∷ []) }

unmarshal_json-marshal_json_example :
    (doc : UserOpJson) × (marshal_json op ≡ some doc)
    × (unmarshal_json doc zero_op ≡ ok (canonical op))
unmarshal_json-marshal_json_example = unmarshal_json-marshal_json op (omega arith)

extract_nonce_key-key_example : extract_nonce_key (some (pos (2 ^ 64 * 7 + 3))) ≡ some (ok 7)
extract_nonce_key-key_example =
    extract_nonce_key-key (pos (2 ^ 64 * 7 + 3)) (omega arith) (omega arith)

abbrev packed_op : PackedUserOp
packed_op = record {
  sender = replicate 20 0xab;
  nonce = some (negsuc 254);
  init_code = [];
  call_data = 1 ∷ 2 ∷ [];
  account_gas_limits = replicate 32 1;
  pre_verification_gas = none;
  gas_fees = replicate 32 2;
  paymaster_and_data = [];
  signature = 5 ∷ [];
}
