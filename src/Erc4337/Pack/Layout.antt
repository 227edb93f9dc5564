-- ===== src/Erc4337/Pack/Layout.antt =====
-- PackUserOp against the layout of ERC-4337.
use samanager_backend.Base.{
  ℕ, ◌-◌, ◌∙◌, sym, ap, ◌^◌, ◌<◌, ◌≤◌, ◌≡◌, ◌↔◌, ◌⊎◌, inr, refl, List, [], ◌∷◌, ◌++◌, Option, none,
  some, arith, length, take,
}
use mathlib.Core.List.{append-nil}
use samanager_backend.Base.Int.{ℤ, abs}
use samanager_backend.Base.Digits.{digits, zeros, fixed}
use samanager_backend.Erc4337.UserOp.{UserOperation}
use samanager_backend.Erc4337.Pack.{
  put_limit, pack_pair, pack_init_code, pack_paymaster, pack_user_op, or_zero,
}
use samanager_backend.Erc4337.Pack.Limits.{
  magnitude, put_limit-fits, pack_pair-fits, put_limit_cases, pack_pair_cases, pack_pair-overlap,
  at_least,
}

-- Each limit fits the 16 bytes that the packed form has for it.
pub record FitsLayout (uo : UserOperation) : Type 0 where
  pub verification : magnitude uo.verification_gas_limit < 256 ^ 16
  pub call : magnitude uo.call_gas_limit < 256 ^ 16
  pub priority : magnitude uo.max_priority_fee_per_gas < 256 ^ 16
  pub max_fee : magnitude uo.max_fee_per_gas < 256 ^ 16
  pub paymaster_verification : magnitude uo.paymaster_verification_gas_limit < 256 ^ 16
  pub paymaster_post_op : magnitude uo.paymaster_post_op_gas_limit < 256 ^ 16

-- Two numbers side by side, each big-endian in 16 bytes with leading zeros.
abbrev pub side_by_side : Option ℤ → Option ℤ → List ℕ
side_by_side upper lower = fixed 16 256 (magnitude upper) ++ fixed 16 256 (magnitude lower)

-- initCode, by whether there are a factory and a first byte of its data.
abbrev pub init_code_layout : Option (List ℕ) → List ℕ → List ℕ
init_code_layout none bytes = []
init_code_layout (some factory) [] = []
init_code_layout (some factory) (b ∷ bytes) = factory ++ (b ∷ bytes)

-- paymasterAndData of the standard.
abbrev pub paymaster_layout : UserOperation → Option (List ℕ) → List ℕ
paymaster_layout uo none = []
paymaster_layout uo (some paymaster) =
    paymaster
    ++ (fixed 16 256 (magnitude uo.paymaster_verification_gas_limit)
        ++ (fixed 16 256 (magnitude uo.paymaster_post_op_gas_limit) ++ uo.paymaster_data))

put_limit_16 :
    (x : Option ℤ)
    → magnitude x < 256 ^ 16
    → put_limit (zeros 16) 16 x ≡ some (fixed 16 256 (magnitude x))
put_limit_16 x h = put_limit-fits 16 x [] [] 16 h (omega arith) ∙ rw append-nil refl

pack_paymaster-fits :
    (uo : UserOperation) (p : Option (List ℕ))
    → FitsLayout uo
    → pack_paymaster uo p ≡ some (paymaster_layout uo p)
unfolding pack_paymaster
pack_paymaster-fits uo none h = refl
pack_paymaster-fits uo (some p) h =
    rw
      (
        put_limit_16 uo.paymaster_verification_gas_limit h.paymaster_verification,
        put_limit_16 uo.paymaster_post_op_gas_limit h.paymaster_post_op,
      )
      refl

pack_init_code_lem :
    (factory : Option (List ℕ)) (bytes : List ℕ)
    → pack_init_code factory bytes ≡ init_code_layout factory bytes
unfolding pack_init_code
pack_init_code_lem none bytes = refl
pack_init_code_lem (some factory) [] = refl
pack_init_code_lem (some factory) (b ∷ bytes) = ground arith

-- With limits that fit 16 bytes, packing returns, and the packed fields are laid out as ERC-4337 v0.7 says: the gas limits
-- and the fees side by side, the init code a factory and then its data, the paymaster with its limits and then its
-- data; but a factory without data is left out.
pub pack_user_op-layout :
    (uo : UserOperation)
    → FitsLayout uo
    → pack_user_op uo
      ≡ some (record {
        sender = uo.sender;
        nonce = some (or_zero uo.nonce);
        init_code = init_code_layout uo.factory uo.factory_data;
        call_data = uo.call_data;
        account_gas_limits = side_by_side uo.verification_gas_limit uo.call_gas_limit;
        pre_verification_gas = some (or_zero uo.pre_verification_gas);
        gas_fees = side_by_side uo.max_priority_fee_per_gas uo.max_fee_per_gas;
        paymaster_and_data = paymaster_layout uo uo.paymaster;
        signature = uo.signature;
      })
unfolding pack_user_op
pack_user_op-layout uo h =
    rw
      (
        pack_pair-fits uo.verification_gas_limit uo.call_gas_limit h.verification h.call,
        pack_pair-fits uo.max_priority_fee_per_gas uo.max_fee_per_gas h.priority h.max_fee,
        pack_paymaster-fits uo uo.paymaster h,
        pack_init_code_lem uo.factory uo.factory_data,
      )
      refl

-- The limits at which some slice bound is negative.
abbrev pub PaymasterTooWide : UserOperation → Option (List ℕ) → Type 0
PaymasterTooWide uo none = ⊥
PaymasterTooWide uo (some p) =
    (256 ^ 16 ≤ magnitude uo.paymaster_verification_gas_limit)
    ⊎ (256 ^ 16 ≤ magnitude uo.paymaster_post_op_gas_limit)

abbrev pub TooWide : UserOperation → Type 0
TooWide uo =
    (256 ^ 16 ≤ magnitude uo.verification_gas_limit)
    ⊎ (256 ^ 32 ≤ magnitude uo.call_gas_limit)
    ⊎ (256 ^ 16 ≤ magnitude uo.max_priority_fee_per_gas)
    ⊎ (256 ^ 32 ≤ magnitude uo.max_fee_per_gas)
    ⊎ PaymasterTooWide uo uo.paymaster

pack_paymaster_cases :
    (uo : UserOperation) (p : Option (List ℕ))
    → (PaymasterTooWide uo p × (pack_paymaster uo p ≡ none))
      ⊎ ((¬ PaymasterTooWide uo p) × (b : List ℕ) × (pack_paymaster uo p ≡ some b))
unfolding pack_paymaster
pack_paymaster_cases uo none = inr (λ h. h, [], refl)
pack_paymaster_cases uo (some p) = ground (
  arith,
  put_limit_cases (zeros 16) 16 uo.paymaster_verification_gas_limit,
  put_limit_cases (zeros 16) 16 uo.paymaster_post_op_gas_limit,
)

-- Packing panics exactly when the verification gas limit, the priority fee or a limit of a paymaster that is there has
-- more than 16 bytes, or the call gas limit or the maximal fee has more than 32.
pub pack_user_op_panics : (uo : UserOperation) → (pack_user_op uo ≡ none) ↔ TooWide uo
unfolding pack_user_op
pack_user_op_panics uo = ground (
  arith,
  pack_pair_cases uo.verification_gas_limit uo.call_gas_limit,
  pack_pair_cases uo.max_priority_fee_per_gas uo.max_fee_per_gas,
  pack_paymaster_cases uo uo.paymaster,
)

overlap_covers :
    (upper : Option ℤ) (x : ℤ)
    → magnitude upper < 256 ^ 16
    → 256 ^ 31 ≤ abs x
    → abs x < 256 ^ 32
    → pack_pair upper (some x) ≡ some (digits 256 (abs x))
overlap_covers upper x hu wide narrow =
    let none_left : 32 - length (digits 256 (abs x)) ≡ 0 =
      omega (arith, at_least 31 (abs x) wide) in
    pack_pair-overlap upper x hu (omega arith) narrow
    ∙ ap (λ n. some (take n (fixed 16 256 (magnitude upper)) ++ digits 256 (abs x))) none_left

-- With a call gas limit of 32 bytes, operations that differ in the verification gas limit alone are
-- packed alike, and so have one hash: the call gas limit is written over the other one.
pub pack_user_op-collision :
    (uo : UserOperation) (v w : Option ℤ) (x : ℤ)
    → magnitude v < 256 ^ 16
    → magnitude w < 256 ^ 16
    → uo.call_gas_limit ≡ some x
    → 256 ^ 31 ≤ abs x
    → abs x < 256 ^ 32
    → pack_user_op (record uo { verification_gas_limit = v })
      ≡ pack_user_op (record uo { verification_gas_limit = w })
unfolding pack_user_op pack_paymaster
pack_user_op-collision uo v w x hv hw e wide narrow =
    let same : pack_pair v uo.call_gas_limit ≡ pack_pair w uo.call_gas_limit =
      rw e (overlap_covers v x hv wide narrow ∙ sym (overlap_covers w x hw wide narrow)) in
    rw same refl
