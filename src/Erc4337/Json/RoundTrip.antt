-- ===== src/Erc4337/Json/RoundTrip.antt =====
-- A user operation survives the way through its JSON document.
use mathlib.Core.List.{append-nil}
use samanager_backend.Base.{
  ℕ, ◌^◌, ◌<◌, ◌≤◌, ◌≡◌, ◌↔◌, ◌⊎◌, inl, inr, ◌≢◌, refl, ◌∙◌, List, [], ◌∷◌, Option, none, some, ok,
  String, arith,
}
use samanager_backend.Base.Int.{ℤ, pos, abs}
use samanager_backend.Base.Digits.{digits, zeros, fixed, of_digits-fixed}
use samanager_backend.Erc4337.UserOp.{UserOperation, zero_op}
use samanager_backend.Erc4337.Pack.{place_right, put_limit}
use samanager_backend.Erc4337.Pack.Limits.{magnitude, put_limit-fits, put_limit_cases}
use samanager_backend.Erc4337.Hex.{with_0x, hex_text_64}
use samanager_backend.Erc4337.Hex.RoundTrip.{parse_hex_big-hex_text, parse_hex_big-hex_text_64}
use samanager_backend.Erc4337.Json.{
  UserOpJson, limit_text, nonce_text, marshal_json, document, read_number, unmarshal_json,
  omit_empty, or_keep, or_keep_option,
}

read_number-limit_text :
    (field : String) (x : Option ℤ) → read_number field (limit_text x) none ≡ ok x
unfolding read_number limit_text
read_number-limit_text field none = refl
read_number-limit_text field (some x) = rw (parse_hex_big-hex_text x, read_number) refl

padded_nonce :
    (x : ℤ)
    → abs x < 256 ^ 32
    → place_right (zeros 32) 32 (digits 256 (abs x)) ≡ some (fixed 32 256 (abs x))
unfolding put_limit
padded_nonce x h = put_limit-fits 32 (some x) [] [] 32 h (omega arith) ∙ rw append-nil refl

nonce_text-fits :
    (x : Option ℤ)
    → magnitude x < 256 ^ 32
    → nonce_text x ≡ some (with_0x (hex_text_64 (magnitude x)))
unfolding nonce_text
nonce_text-fits none h = refl
nonce_text-fits (some x) h =
    rw (padded_nonce x h, of_digits-fixed 256 (omega arith) 32 (abs x) h) refl

read_number-nonce : (n : ℕ) → read_number "nonce" (with_0x (hex_text_64 n)) none ≡ ok (some (pos n))
unfolding read_number
read_number-nonce n = rw (parse_hex_big-hex_text_64 n, read_number) refl

or_keep-omit_empty : (bs : List ℕ) → or_keep (omit_empty bs) [] ≡ bs
unfolding or_keep omit_empty
or_keep-omit_empty [] = refl
or_keep-omit_empty (b ∷ bs) = refl

or_keep_option-none : (a : Option (List ℕ)) → or_keep_option a none ≡ a
unfolding or_keep_option
or_keep_option-none none = refl
or_keep_option-none (some a) = refl

unmarshal_json-document :
    (uo : UserOperation) (n : ℕ)
    → unmarshal_json (document uo (with_0x (hex_text_64 n))) zero_op
      ≡ ok (record uo { nonce = some (pos n) })
unfolding unmarshal_json document
unmarshal_json-document uo n =
    rw
      (
        read_number-nonce n,
        read_number-limit_text "callGasLimit" uo.call_gas_limit,
        read_number-limit_text "verificationGasLimit" uo.verification_gas_limit,
        read_number-limit_text "preVerificationGas" uo.pre_verification_gas,
        read_number-limit_text "maxPriorityFeePerGas" uo.max_priority_fee_per_gas,
        read_number-limit_text "maxFeePerGas" uo.max_fee_per_gas,
        read_number-limit_text "paymasterVerificationGasLimit" uo.paymaster_verification_gas_limit,
        read_number-limit_text "paymasterPostOpGasLimit" uo.paymaster_post_op_gas_limit,
        or_keep_option-none uo.factory,
        or_keep_option-none uo.paymaster,
        or_keep-omit_empty uo.factory_data,
        or_keep-omit_empty uo.paymaster_data,
      )
      refl

-- What a document keeps of an operation: a nil nonce comes back as 0, and the sign of a nonce is lost.
abbrev pub canonical : UserOperation → UserOperation
canonical uo = record uo { nonce = some (pos (magnitude uo.nonce)) }

-- An operation with a nonce of 32 bytes at most is written, and what is written is read back into a
-- fresh operation as it was, with its nonce made canonical.
pub unmarshal_json-marshal_json :
    (uo : UserOperation)
    → magnitude uo.nonce < 256 ^ 32
    → (doc : UserOpJson) × (marshal_json uo ≡ some doc)
      × (unmarshal_json doc zero_op ≡ ok (canonical uo))
unfolding marshal_json
unmarshal_json-marshal_json uo h = (
  document uo (with_0x (hex_text_64 (magnitude uo.nonce))),
  rw (nonce_text-fits uo.nonce h) refl,
  unmarshal_json-document uo (magnitude uo.nonce),
)

nonce_text-cases :
    (x : Option ℤ)
    → ((256 ^ 32 ≤ magnitude x) × (nonce_text x ≡ none))
      ⊎ ((magnitude x < 256 ^ 32) × (nonce_text x ≢ none))
unfolding nonce_text put_limit
nonce_text-cases none = inr (omega arith, λ e. cc)
nonce_text-cases (some x) = elim (put_limit_cases (zeros 32) 32 (some x)) [
  | inl (wide, e) ↦ inl (wide, rw e refl)
  | inr (narrow, b, e) ↦ inr (narrow, rw e (λ e'. cc))
]

-- Writing panics exactly for a nonce of more than 32 bytes.
pub marshal_json_panics :
    (uo : UserOperation) → (marshal_json uo ≡ none) ↔ (256 ^ 32 ≤ magnitude uo.nonce)
unfolding marshal_json
marshal_json_panics uo = ground (arith, nonce_text-cases uo.nonce)
