-- ===== src/Erc4337/Hash.antt =====
-- erc4337/user_operation.go, GetUserOpHashV07. Keccak-256 and the ABI encoder are libraries.
use samanager_backend.Base.{
  ℕ, ◌-◌, ◌≡◌, List, [], ◌∷◌, ◌++◌, Option, some, Reply, ok, err, failure, arith, take, length,
  ◌<>◌, error_text,
}
use samanager_backend.Base.Int.{ℤ}
use samanager_backend.Base.Digits.{zeros}
use samanager_backend.Base.Panics.{◌>>=◌}
use samanager_backend.Erc4337.UserOp.{UserOperation, PackedUserOp}
use samanager_backend.Erc4337.Pack.{pack_user_op, pack_paymaster}

-- A value with its ABI type; a number is a `*big.Int`.
pub data AbiValue : Type 0 where
  address bytes32 : List ℕ → AbiValue
  uint256 : Option ℤ → AbiValue

pub record Hashing : Type 0 where
  pub keccak256 : List ℕ → List ℕ
  pub abi_pack : List AbiValue → Reply (List ℕ)

-- `var a [32]byte; copy(a[:], xs)`
abbrev to_bytes32 : List ℕ → List ℕ
to_bytes32 xs = take 32 xs ++ zeros (32 - length xs)

-- 0x0000000071727De22E5E9d8BAf0edAc6f37da032
abbrev pub entry_point_v07 : List ℕ
entry_point_v07 =
    0x00 ∷ 0x00 ∷ 0x00 ∷ 0x00 ∷ 0x71 ∷ 0x72 ∷ 0x7d ∷ 0xe2 ∷ 0x2e ∷ 0x5e ∷ 0x9d ∷ 0x8b ∷ 0xaf ∷ 0x0e
    ∷ 0xda ∷ 0xc6 ∷ 0xf3 ∷ 0x7d ∷ 0xa0 ∷ 0x32 ∷ []

module _ (h : Hashing) where
  open h use {keccak256, abi_pack}

  encode_final : ℤ → List ℕ → Reply (List ℕ)
  encode_final chain_id user_op_encoded =
      elim (abi_pack (
        bytes32 (keccak256 user_op_encoded)
        ∷ address entry_point_v07
        ∷ uint256 (some chain_id)
        ∷ [])) [
          | err e ↦ err (failure ("failed to encode final hash: " <> error_text e))
          | ok final_encoded ↦ ok (keccak256 final_encoded)
        ]

  hash_packed : ℤ → PackedUserOp → Reply (List ℕ)
  unfolding encode_final
  hash_packed chain_id packed =
      elim (abi_pack (
        address packed.sender
        ∷ uint256 packed.nonce
        ∷ bytes32 (keccak256 packed.init_code)
        ∷ bytes32 (keccak256 packed.call_data)
        ∷ bytes32 (to_bytes32 packed.account_gas_limits)
        ∷ uint256 packed.pre_verification_gas
        ∷ bytes32 (to_bytes32 packed.gas_fees)
        ∷ bytes32 (keccak256 packed.paymaster_and_data)
        ∷ [])) [
          | err e ↦ err (failure ("failed to encode user operation: " <> error_text e))
          | ok user_op_encoded ↦ encode_final chain_id user_op_encoded
        ]

  -- `none`: packing panics.
  unfoldable pub get_user_op_hash : UserOperation → ℤ → Option (Reply (List ℕ))
  unfolding hash_packed
  get_user_op_hash uo chain_id = do packed ← pack_user_op uo; some (hash_packed chain_id packed)

  -- The hash does not depend on the signature: what is signed is the hash of the operation that is
  -- sent, whose signature is put in afterwards.
  pub get_user_op_hash-signature :
      (uo : UserOperation) (chain_id : ℤ) (s : List ℕ)
      → get_user_op_hash (record uo { signature = s }) chain_id ≡ get_user_op_hash uo chain_id
  unfolding get_user_op_hash pack_user_op pack_paymaster
  get_user_op_hash-signature uo chain_id s = ground arith
