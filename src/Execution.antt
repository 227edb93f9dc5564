-- ===== src/Execution.antt =====
-- src/service/execution.go, ExecutionService. `none` is a panic, which ends the process: the code runs in
-- a goroutine without a `recover`. Log lines have no effect, but for the text of a nil estimate, which
-- panics.
pub mod Kept
pub mod Nonce
pub mod Signing
pub mod Service
use samanager_backend.Base.{
  ℕ, suc, zero, ◌+◌, ◌-◌, ◌%◌, ◌^◌, ◌<◌, ◌≡◌, String, Bool, true, false, List, [], ◌∷◌, ◌++◌,
  Option, none, some, Error, failure, wrapped, Reply, ok, err, ltb, leb, ◌==◌, ◌&&◌, if◌then◌else◌,
  length, take, drop, replicate,
}
use samanager_backend.Base.Int.{ℤ, pos, ◌+ℤ◌, mul_div}
use samanager_backend.Base.Digits.{zeros, fixed, digits, of_digits}
use samanager_backend.Base.Int.{abs}
use samanager_backend.Erc4337.UserOp.{UserOperation}
use samanager_backend.Erc4337.Hash.{Hashing, get_user_op_hash, entry_point_v07}
use samanager_backend.Domain.Job.{EntityJob}
use samanager_backend.Network.{Network, GasEstimates}
use samanager_backend.Bundler.{estimate_user_operation_gas, send_user_operation}
use samanager_backend.Blockchain.{Chains, get_rpc_client, get_bundler_client}

-- `extractNonceKey`
key_of_bytes : List ℕ → Option (Reply ℕ)
key_of_bytes nonce_bytes =
    if ltb (length nonce_bytes) 8
    then some (err (failure "nonce too short to extract key"))
    else if ltb 32 (length nonce_bytes)
    then none
    else some (ok (of_digits 256 (take 24 (zeros (32 - length nonce_bytes) ++ nonce_bytes))))

unfoldable pub extract_nonce_key : Option ℤ → Option (Reply ℕ)
unfolding key_of_bytes
extract_nonce_key none = some (err (failure "nonce is nil"))
extract_nonce_key (some nonce) = key_of_bytes (digits 256 (abs nonce))

abbrev pub wrap {ℓ} : {A : Type ℓ} → String → Reply A → Reply A
wrap text (ok a) = ok a
wrap text (err e) = err (wrapped text e)

-- A 65-byte signature that the account's front end puts in the place of the real one.
abbrev pub dummy_signature : List ℕ
dummy_signature =
    replicate 15 0xff ++ 0xf0 ∷ (replicate 16 0x00 ++ 0x7a ∷ (replicate 31 0xaa ++ 0x1c ∷ []))

abbrev pub same_bytes : List ℕ → List ℕ → Bool
same_bytes [] [] = true
same_bytes (x ∷ xs) (y ∷ ys) = x == y && same_bytes xs ys
same_bytes [] (y ∷ ys) = false
same_bytes (x ∷ xs) [] = false

-- What stands before the dummy signature. The code compares the hexadecimal texts.
unfoldable pub leading_signature : List ℕ → Reply (List ℕ)
leading_signature signature =
    let dummy_index = length signature - 65 in
    if ltb (length signature) 65
    then err (failure "dummy signature not found at expected position in user operation signature")
    else if same_bytes (drop dummy_index signature) dummy_signature
    then ok (take dummy_index signature)
    else err (failure "dummy signature not found at expected position in user operation signature")

-- `signature[64] += 27` on bytes; `none` is an index out of range.
unfoldable pub add_at : ℕ → ℕ → List ℕ → Option (List ℕ)
add_at i d [] = none
add_at zero d (x ∷ xs) = some ((x + d) % 2 ^ 8 ∷ xs)
add_at (suc i) d (x ∷ xs) = elim (add_at i d xs) [ none ↦ none | some ys ↦ some (x ∷ ys) ]

-- The personal-message hash, and ECDSA with the service's key.
pub record Signer : Type 0 where
  pub personal_sign_hash : List ℕ → List ℕ
  pub sign : List ℕ → Reply (List ℕ)

-- `estimates.PreVerificationGas.String()` and the two others
abbrev pub has_gas : GasEstimates → Bool
has_gas e =
    present e.pre_verification_gas && present e.verification_gas_limit && present e.call_gas_limit
  where
    present : Option ℤ → Bool
    present none = false
    present (some x) = true

paymaster_limit : UserOperation → Option (List ℕ) → GasEstimates → Option ℤ
paymaster_limit op none estimates = op.paymaster_verification_gas_limit
paymaster_limit op (some a) estimates = estimates.paymaster_verification_gas_limit

unfoldable pub with_gas : UserOperation → GasEstimates → ℤ × ℤ → UserOperation
unfolding paymaster_limit
with_gas op estimates fees = record op {
  pre_verification_gas = estimates.pre_verification_gas;
  verification_gas_limit = estimates.verification_gas_limit;
  call_gas_limit = estimates.call_gas_limit;
  max_fee_per_gas = some fees.0;
  max_priority_fee_per_gas = some fees.1;
  paymaster_verification_gas_limit = paymaster_limit op op.paymaster estimates;
}

module _ (h : Hashing) (k : Signer) where
  adjust : Reply (List ℕ) → Option (Reply (List ℕ))
  adjust (err e) = some (err (wrapped "failed to sign user operation hash" e))
  adjust (ok signature) = elim (add_at 64 27 signature) [ none ↦ none | some xs ↦ some (ok xs) ]

  sign_hash : Reply (List ℕ) → Option (Reply (List ℕ))
  unfolding adjust
  sign_hash (err e) = some (err (wrapped "failed to calculate user operation hash" e))
  sign_hash (ok hash) = adjust (k.sign (k.personal_sign_hash hash))

  unfoldable pub sign_op : UserOperation → ℤ → Option (Reply (List ℕ))
  unfolding sign_hash
  sign_op op chain_id = elim (get_user_op_hash h op chain_id) [
    | none ↦ none
    | some reply ↦ sign_hash reply
  ]

module _ (n : Network) where
  getter_data : List ℕ → ℕ → List ℕ
  getter_data sender key = 0x35 ∷ 0x56 ∷ 0x7e ∷ 0x1a ∷ (zeros 12 ++ sender ++ fixed 32 256 key)

  parse : String → String → Reply ℤ
  parse text answer = wrap text (n.parse_big answer)

  unfoldable pub get_current_nonce : n.RpcClient → List ℕ → ℕ → n.State → Reply ℤ × n.State
  unfolding getter_data parse
  get_current_nonce rpc sender key s =
      let (reply, s') = n.eth_call rpc entry_point_v07 (getter_data sender key) s in
      elim reply [
        | err e ↦ (err (wrapped "failed to call getNonce" e), s')
        | ok answer ↦ (parse "failed to parse nonce result" answer, s')
      ]

  -- `baseFeePerGas * 150 / 100 + maxPriorityFeePerGas`, and the priority fee
  unfoldable pub fees_of : ℤ → ℤ → ℤ × ℤ
  fees_of base priority = (mul_div base 150 100 +ℤ priority, priority)

  priority_fee : ℤ → Reply ℤ → Reply (ℤ × ℤ)
  unfolding fees_of
  priority_fee base (err e) = err e
  priority_fee base (ok priority) = ok (fees_of base priority)

  parse_fees : String → String → Reply (ℤ × ℤ)
  unfolding priority_fee parse
  parse_fees base priority = elim (parse "failed to parse baseFeePerGas" base) [
    | err e ↦ err e
    | ok base_fee ↦ priority_fee base_fee (parse "failed to parse maxPriorityFeePerGas" priority)
  ]

  -- `none`: the field of a null block is read.
  read_fees : Reply (Option String) → Reply String → Option (Reply (ℤ × ℤ))
  unfolding parse_fees
  read_fees (err e) priority = some (err (wrapped "eth_getBlockByNumber failed" e))
  read_fees (ok base) (err e) = some (err (wrapped "rundler_maxPriorityFeePerGas failed" e))
  read_fees (ok none) (ok priority) = none
  read_fees (ok (some base)) (ok priority) = some (parse_fees base priority)

  unfoldable pub get_max_fee_per_gas : n.RpcClient → n.State → Option (Reply (ℤ × ℤ)) × n.State
  unfolding read_fees
  get_max_fee_per_gas rpc s =
      let (batch, s') = n.fee_batch rpc s in
      elim batch [
        | err e ↦ (some (err (wrapped "failed to make batch RPC calls" e)), s')
        | ok (base, priority) ↦ (read_fees base priority, s')
      ]

  abbrev pub Run {ℓ} : Type ℓ → Type ℓ
  Run A = Option (Reply A × Chains n)

  -- `if err != nil { return nil, fmt.Errorf("text: %w", err) }`
  unfoldable pub attempt {ℓ κ} :
      {A : Type ℓ} {B : Type κ} → String → Reply A × Chains n → (A → Chains n → Run B) → Run B
  attempt text (err e, s) f = some (err (wrapped text e), s)
  attempt text (ok a, s) f = f a s

  unfoldable pub returned {ℓ κ} :
      {A : Type ℓ} {B : Type κ} → Reply A → Chains n → (A → Run B) → Run B
  returned (err e) s f = some (err e, s)
  returned (ok a) s f = f a

  unfoldable pub unless_panic {ℓ κ} : {A : Type ℓ} {B : Type κ} → Option A → (A → Run B) → Run B
  unless_panic none f = none
  unless_panic (some a) f = f a

  abbrev pub on_net {ℓ} :
      {A : Type ℓ} → (n.State → Reply A × n.State) → Chains n → Reply A × Chains n
  on_net f s = ((f s.net).0, record s { net = (f s.net).1 })

  abbrev pub after_fees : n.RpcClient → Chains n → Chains n
  after_fees rpc s = record s { net = (get_max_fee_per_gas rpc s.net).1 }

  module _ (h : Hashing) (k : Signer) where
    unfoldable pub send_signed :
        n.RpcClient → EntityJob → List ℕ → UserOperation → Chains n → Run (List ℕ)
    send_signed bundler job leading op s = unless_panic (sign_op h k op job.chain_id) (λ reply.
        returned reply s (λ signature.
          attempt "failed to send user operation"
            (on_net
              (send_user_operation n bundler (record op { signature = leading ++ signature })
                job.entry_point_address)
              s)
            (λ hash s'. some (ok hash, s'))))

    price_and_send :
        n.RpcClient → n.RpcClient → EntityJob → List ℕ → UserOperation → Chains n → Run (List ℕ)
    unfolding send_signed
    price_and_send bundler rpc job leading op s =
        attempt "failed to estimate user operation gas"
          (on_net (estimate_user_operation_gas n bundler op job.entry_point_address) s)
          (λ estimates s1. unless_panic (get_max_fee_per_gas rpc s1.net).0 (λ reply.
            attempt "failed to get gas fees" (reply, after_fees rpc s1)
              (λ fees s2.
                if has_gas estimates
                then send_signed bundler job leading (with_gas op estimates fees) s2
                else none)))

    with_nonce : n.RpcClient → n.RpcClient → EntityJob → ℕ → Chains n → Run (List ℕ)
    unfolding price_and_send
    with_nonce bundler rpc job key s =
        attempt "failed to get current nonce"
          (on_net (get_current_nonce rpc job.user_operation.sender key) s)
          (λ nonce s1. returned (leading_signature job.user_operation.signature) s1 (λ leading.
            price_and_send bundler rpc job leading
              (record job.user_operation { nonce = some nonce }) s1))

    unfoldable pub execute_job : EntityJob → Chains n → Run (List ℕ)
    unfolding with_nonce
    execute_job job s =
        attempt "failed to get bundler client" (get_bundler_client n job.chain_id s) (λ bundler s1.
          attempt "failed to get RPC client" (get_rpc_client n job.chain_id s1) (λ rpc s2.
            unless_panic (extract_nonce_key job.user_operation.nonce) (λ reply.
              attempt "failed to extract nonce key" (reply, s2)
                (λ key s3. with_nonce bundler rpc job key s3))))
