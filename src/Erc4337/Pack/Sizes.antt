-- ===== src/Erc4337/Pack/Sizes.antt =====
-- The sizes of the packed fields.
use samanager_backend.Base.{
  ℕ, ◌-◌, ◌≤◌, ◌≡◌, ap, List, ◌++◌, Option, none, some, leb, leb→le, Bool-cases, Option-cases, inl,
  inr, length, take, drop, length-append, length-take, length-drop, arith,
}
use samanager_backend.Base.Int.{ℤ, abs}
use samanager_backend.Base.Digits.{digits, zeros}
use samanager_backend.Erc4337.UserOp.{UserOperation, PackedUserOp}
use samanager_backend.Erc4337.Pack.{place_right, put_limit, pack_pair, pack_paymaster, pack_user_op}

length-place_right :
    (buf src out : List ℕ) (hi : ℕ)
    → hi ≤ length buf
    → place_right buf hi src ≡ some out
    → length out ≡ length buf
unfolding place_right
length-place_right buf src out hi h e = elim (Bool-cases (leb (length src) hi)) [
  | inl fits ↦
      let shape : take (hi - length src) buf ++ (src ++ drop hi buf) ≡ out = ground arith in
      omega (
        arith,
        leb→le (length src) hi fits,
        ap {A = List ℕ} length shape,
        length-append (take (hi - length src) buf) (src ++ drop hi buf),
        length-append src (drop hi buf),
        length-take (hi - length src) buf,
        length-drop hi buf,
      )
  | inr over ↦ absurd (ground arith)
]

length-put_limit :
    (buf out : List ℕ) (hi : ℕ) (x : Option ℤ)
    → hi ≤ length buf
    → put_limit buf hi x ≡ some out
    → length out ≡ length buf
unfolding put_limit
length-put_limit buf out hi none h e = ground arith
length-put_limit buf out hi (some x) h e = length-place_right buf (digits 256 (abs x)) out hi h e

length-pack_pair :
    (upper lower : Option ℤ) (out : List ℕ) → pack_pair upper lower ≡ some out → length out ≡ 32
unfolding pack_pair
length-pack_pair upper lower out e = elim (Option-cases (put_limit (zeros 32) 16 upper)) [
  | inl none_left ↦ absurd (ground arith)
  | inr (buf, first) ↦
      let second : put_limit buf 32 lower ≡ some out = rw (first, pack_pair) at e in
      let len : length buf ≡ 32 = length-put_limit (zeros 32) buf 16 upper (omega arith) first in
      omega (arith, len, length-put_limit buf out 32 lower (omega arith) second)
]

-- Whatever the limits are, an operation that is packed has 32 bytes of gas limits and 32 bytes of fees, as
-- the `[32]byte` of the ABI wants: the hash takes these bytes whole.
pub pack_user_op-sizes :
    (uo : UserOperation) (packed : PackedUserOp)
    → pack_user_op uo ≡ some packed
    → (length packed.account_gas_limits ≡ 32) × (length packed.gas_fees ≡ 32)
unfolding pack_user_op
pack_user_op-sizes uo packed e =
    elim (Option-cases (pack_pair uo.verification_gas_limit uo.call_gas_limit)) [
      | inl gone ↦ absurd (ground arith)
      | inr (limits, l) ↦
          elim (Option-cases (pack_pair uo.max_priority_fee_per_gas uo.max_fee_per_gas)) [
            | inl gone ↦ absurd (ground arith)
            | inr (fees, f) ↦ elim (Option-cases (pack_paymaster uo uo.paymaster)) [
              | inl gone ↦ absurd (ground arith)
              | inr (paymaster, p) ↦
                  let len = length-pack_pair uo.verification_gas_limit uo.call_gas_limit limits l in
                  let len' =
                    length-pack_pair uo.max_priority_fee_per_gas uo.max_fee_per_gas fees f in
                  (ground arith, ground arith)
            ]
          ]
    ]
