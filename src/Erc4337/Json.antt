-- ===== src/Erc4337/Json.antt =====
-- erc4337/user_operation.go, MarshalJSON and UnmarshalJSON of a UserOperation. A document is the
-- object that encoding/json writes and reads: the numbers are its texts (an absent text is the empty
-- one), the fields that the embedded alias gives are values, and those with `omitempty` may be absent.
pub mod RoundTrip
pub mod Packed
use samanager_backend.Base.{
  ℕ, List, [], ◌∷◌, Option, none, some, Reply, ok, err, failure, String, ◌<>◌, error_text, ltb,
  length, if◌then◌else◌,
}
use samanager_backend.Base.Int.{ℤ, pos, abs}
use samanager_backend.Base.Digits.{digits, zeros, of_digits}
use samanager_backend.Base.Panics.{◌>>=◌ as ◌>>=?◌}
use samanager_backend.Base.Errors.{◌>>=◌}
use samanager_backend.Erc4337.UserOp.{UserOperation}
use samanager_backend.Erc4337.Pack.{place_right}
use samanager_backend.Erc4337.Hex.{with_0x, hex_text, hex_text_64, parse_hex_big}

pub record UserOpJson : Type 0 where
  pub nonce : List ℕ
  pub call_gas_limit : List ℕ
  pub verification_gas_limit : List ℕ
  pub pre_verification_gas : List ℕ
  pub max_priority_fee_per_gas : List ℕ
  pub max_fee_per_gas : List ℕ
  pub paymaster_verification_gas_limit : List ℕ
  pub paymaster_post_op_gas_limit : List ℕ
  pub sender : List ℕ
  pub factory : Option (List ℕ)
  pub factory_data : Option (List ℕ)
  pub call_data : List ℕ
  pub paymaster : Option (List ℕ)
  pub paymaster_data : Option (List ℕ)
  pub signature : List ℕ

-- `if x != nil { aux.X = fmt.Sprintf("0x%x", x) }`
unfoldable pub limit_text : Option ℤ → List ℕ
limit_text none = []
limit_text (some x) = with_0x (hex_text x)

-- The nonce is printed with 32 bytes; a longer one is a panic.
unfoldable pub nonce_text : Option ℤ → Option (List ℕ)
nonce_text none = some (with_0x (hex_text_64 0))
nonce_text (some x) = place_right (zeros 32) 32 (digits 256 (abs x)) >>=? λ padded.
    some (with_0x (hex_text_64 (of_digits 256 padded)))

-- `omitempty` of a byte slice
unfoldable pub omit_empty : List ℕ → Option (List ℕ)
omit_empty [] = none
omit_empty (b ∷ bs) = some (b ∷ bs)

-- The object that is written, given the text of the nonce.
unfoldable pub document : UserOperation → List ℕ → UserOpJson
unfolding omit_empty
document uo nonce = record {
  nonce = nonce;
  call_gas_limit = limit_text uo.call_gas_limit;
  verification_gas_limit = limit_text uo.verification_gas_limit;
  pre_verification_gas = limit_text uo.pre_verification_gas;
  max_priority_fee_per_gas = limit_text uo.max_priority_fee_per_gas;
  max_fee_per_gas = limit_text uo.max_fee_per_gas;
  paymaster_verification_gas_limit = limit_text uo.paymaster_verification_gas_limit;
  paymaster_post_op_gas_limit = limit_text uo.paymaster_post_op_gas_limit;
  sender = uo.sender;
  factory = uo.factory;
  factory_data = omit_empty uo.factory_data;
  call_data = uo.call_data;
  paymaster = uo.paymaster;
  paymaster_data = omit_empty uo.paymaster_data;
  signature = uo.signature;
}

unfoldable pub marshal_json : UserOperation → Option UserOpJson
marshal_json uo = nonce_text uo.nonce >>=? λ nonce. some (document uo nonce)

-- A field that the document lacks keeps its value.
unfoldable pub or_keep {ℓ} : {A : Type ℓ} → Option A → A → A
or_keep none old = old
or_keep (some new) old = new

unfoldable pub or_keep_option {ℓ} : {A : Type ℓ} → Option A → Option A → Option A
or_keep_option none old = old
or_keep_option (some new) old = some new

-- `if aux.X != "" { x, err := parseHexBig(aux.X); ... }`
unfoldable pub read_number : String → List ℕ → Option ℤ → Reply (Option ℤ)
read_number field [] old = ok old
read_number field (c ∷ cs) old = elim (parse_hex_big (c ∷ cs)) [
  | err e ↦ err (failure ((("invalid " <> field) <> ": ") <> error_text e))
  | ok x ↦ ok (some x)
]

-- The document is read into the operation `uo`; the error of a malformed number leaves no result.
unfoldable pub unmarshal_json : UserOpJson → UserOperation → Reply UserOperation
unmarshal_json doc uo = do
  nonce ← read_number "nonce" doc.nonce uo.nonce
  call_gas_limit ← read_number "callGasLimit" doc.call_gas_limit uo.call_gas_limit
  verification_gas_limit ←
      read_number "verificationGasLimit" doc.verification_gas_limit uo.verification_gas_limit
  pre_verification_gas ←
      read_number "preVerificationGas" doc.pre_verification_gas uo.pre_verification_gas
  max_priority_fee_per_gas ←
      read_number "maxPriorityFeePerGas" doc.max_priority_fee_per_gas uo.max_priority_fee_per_gas
  max_fee_per_gas ← read_number "maxFeePerGas" doc.max_fee_per_gas uo.max_fee_per_gas
  paymaster_verification_gas_limit ←
      read_number "paymasterVerificationGasLimit" doc.paymaster_verification_gas_limit
        uo.paymaster_verification_gas_limit
  paymaster_post_op_gas_limit ←
      read_number "paymasterPostOpGasLimit" doc.paymaster_post_op_gas_limit
        uo.paymaster_post_op_gas_limit
  ok (record {
    sender = doc.sender;
    nonce = nonce;
    factory = or_keep_option doc.factory uo.factory;
    factory_data = or_keep doc.factory_data uo.factory_data;
    call_data = doc.call_data;
    call_gas_limit = call_gas_limit;
    verification_gas_limit = verification_gas_limit;
    pre_verification_gas = pre_verification_gas;
    max_priority_fee_per_gas = max_priority_fee_per_gas;
    max_fee_per_gas = max_fee_per_gas;
    paymaster = or_keep_option doc.paymaster uo.paymaster;
    paymaster_verification_gas_limit = paymaster_verification_gas_limit;
    paymaster_post_op_gas_limit = paymaster_post_op_gas_limit;
    paymaster_data = or_keep doc.paymaster_data uo.paymaster_data;
    signature = doc.signature;
  })
