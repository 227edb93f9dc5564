-- ===== src/Erc4337/Json/Packed.antt =====
-- erc4337/user_operation.go, MarshalJSON and UnmarshalJSON of a PackedUserOp, and the way through both.
use samanager_backend.Base.{ℕ, ◌≡◌, refl, List, Option, none, some, Reply, ok, String}
use samanager_backend.Base.Int.{ℤ, pos}
use samanager_backend.Base.Errors.{◌>>=◌}
use samanager_backend.Erc4337.UserOp.{PackedUserOp}
use samanager_backend.Erc4337.Pack.{or_zero}
use samanager_backend.Erc4337.Hex.{with_0x, hex_text}
use samanager_backend.Erc4337.Hex.RoundTrip.{parse_hex_big-hex_text}
use samanager_backend.Erc4337.Json.{read_number}

pub record PackedUserOpJson : Type 0 where
  pub nonce : List ℕ
  pub pre_verification_gas : List ℕ
  pub sender : List ℕ
  pub init_code : List ℕ
  pub call_data : List ℕ
  pub account_gas_limits : List ℕ
  pub gas_fees : List ℕ
  pub paymaster_and_data : List ℕ
  pub signature : List ℕ

-- A nil number is printed as "0x0".
unfoldable pub number_text : Option ℤ → List ℕ
number_text none = with_0x (hex_text (pos 0))
number_text (some x) = with_0x (hex_text x)

unfoldable pub marshal_packed_json : PackedUserOp → PackedUserOpJson
unfolding number_text
marshal_packed_json puo = record {
  nonce = number_text puo.nonce;
  pre_verification_gas = number_text puo.pre_verification_gas;
  sender = puo.sender;
  init_code = puo.init_code;
  call_data = puo.call_data;
  account_gas_limits = puo.account_gas_limits;
  gas_fees = puo.gas_fees;
  paymaster_and_data = puo.paymaster_and_data;
  signature = puo.signature;
}

unfoldable pub unmarshal_packed_json : PackedUserOpJson → PackedUserOp → Reply PackedUserOp
unmarshal_packed_json doc puo = do
  nonce ← read_number "nonce" doc.nonce puo.nonce
  pre_verification_gas ←
      read_number "preVerificationGas" doc.pre_verification_gas puo.pre_verification_gas
  ok (record {
    sender = doc.sender;
    nonce = nonce;
    init_code = doc.init_code;
    call_data = doc.call_data;
    account_gas_limits = doc.account_gas_limits;
    pre_verification_gas = pre_verification_gas;
    gas_fees = doc.gas_fees;
    paymaster_and_data = doc.paymaster_and_data;
    signature = doc.signature;
  })

read_number-number_text :
    (field : String) (x old : Option ℤ)
    → read_number field (number_text x) old ≡ ok (some (or_zero x))
unfolding read_number number_text or_zero
read_number-number_text field none old = rw (parse_hex_big-hex_text (pos 0), read_number) refl
read_number-number_text field (some x) old = rw (parse_hex_big-hex_text x, read_number) refl

-- What is written is read back, into whatever operation stood there, as it was; a nil number comes back as 0.
pub unmarshal_packed_json-marshal_packed_json :
    (puo old : PackedUserOp)
    → unmarshal_packed_json (marshal_packed_json puo) old
      ≡ ok (record puo {
        nonce = some (or_zero puo.nonce);
        pre_verification_gas = some (or_zero puo.pre_verification_gas);
      })
unfolding unmarshal_packed_json marshal_packed_json
unmarshal_packed_json-marshal_packed_json puo old =
    rw
      (
        read_number-number_text "nonce" puo.nonce old.nonce,
        read_number-number_text "preVerificationGas" puo.pre_verification_gas
            old.pre_verification_gas,
      )
      refl
