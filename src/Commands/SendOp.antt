-- ===== src/Commands/SendOp.antt =====
-- cmd/erc4337/main.go: sends one user operation, read from a constant of the program, and waits for its receipt. The
-- command has copies of four functions of src/service/execution.go, text for text; they are named after it here.
pub mod Polling
use samanager_backend.Base.{
  ℕ, zero, suc, String, Bool, true, false, List, [], ◌∷◌, ◌++◌, Option, none, some, Error, failure,
  wrapped, Reply, ok, err, str_eq, if◌then◌else◌,
}
use samanager_backend.Base.Int.{ℤ, pos}
use samanager_backend.Erc4337.UserOp.{UserOperation}
use samanager_backend.Erc4337.Hash.{Hashing, get_user_op_hash, entry_point_v07}
use samanager_backend.Network.{Network, GasEstimates, UserOperationReceipt}
use samanager_backend.Bundler.{dial_context, estimate_user_operation_gas, send_user_operation}
use samanager_backend.Bundler.Wait.{Answer, receipt, missing, failed, answer_of}
use samanager_backend.Bundler.{get_user_operation_receipt}
use samanager_backend.Execution
use samanager_backend.Execution.{Signer, dummy_signature, has_gas, with_gas, add_at}
use samanager_backend.Execution.Service
use samanager_backend.Execution.Service.{Ecdsa}
use samanager_backend.Settings.Config.{Env}
use samanager_backend.Settings.Texts.{trim_0x}

abbrev pub extract_nonce_key : Option ℤ → Option (Reply ℕ)
extract_nonce_key nonce = Execution.extract_nonce_key nonce

abbrev pub personal_sign_hash : Hashing → List ℕ → List ℕ
personal_sign_hash h text = Service.personal_sign_hash h text

-- 0xcD1c62f36A99f306948dB76c35Bbc1A639f92ce8
abbrev pub paymaster : List ℕ
paymaster =
    0xcd ∷ 0x1c ∷ 0x62 ∷ 0xf3 ∷ 0x6a ∷ 0x99 ∷ 0xf3 ∷ 0x06 ∷ 0x94 ∷ 0x8d ∷ 0xb7 ∷ 0x6c ∷ 0x35 ∷ 0xbb
    ∷ 0xc1 ∷ 0xa6 ∷ 0x39 ∷ 0xf9 ∷ 0x2c ∷ 0xe8 ∷ []

-- How the wait for the receipt ends: with a nil pointer that is read, with the receipt, or after the last attempt.
pub data Polled : Type 0 where
  crashed : Polled
  found : UserOperationReceipt → Polled
  gave_up : Polled

pub data Ending : Type 0 where
  fatal : Error → Ending
  panicked : Ending
  sent : List ℕ → Polled → Ending

module _ (n : Network) where
  abbrev pub get_current_nonce : n.RpcClient → List ℕ → ℕ → n.State → Reply ℤ × n.State
  get_current_nonce rpc sender key s = Execution.get_current_nonce n rpc sender key s

  abbrev pub get_max_fee_per_gas : n.RpcClient → n.State → Option (Reply (ℤ × ℤ)) × n.State
  get_max_fee_per_gas rpc s = Execution.get_max_fee_per_gas n rpc s

  module _ (sleep : n.State → n.State) (bundler : n.RpcClient) (hash : List ℕ) where
    -- An error is tried again while attempts are left; any other answer is taken for a receipt.
    retry_on : ℕ → (n.State → Polled × n.State) → Answer × n.State → Polled × n.State
    retry_on left rest (receipt r, s) = (found r, s)
    retry_on left rest (missing, s) = (crashed, s)
    retry_on zero rest (failed e, s) = (gave_up, s)
    retry_on (suc left) rest (failed e, s) = rest (sleep s)

    unfoldable pub ask : n.State → Answer × n.State
    ask s = let (reply, s') = get_user_operation_receipt n bundler hash s in (answer_of reply, s')

    -- The loop, by the number of attempts left.
    unfoldable pub poll_receipt : ℕ → n.State → Polled × n.State
    unfolding retry_on ask
    poll_receipt zero s = (gave_up, s)
    poll_receipt (suc left) s = retry_on left (λ s'. poll_receipt left s') (ask s)

  abbrev Stage : Type 0
  Stage = Ending × n.State

  -- `if err != nil { log.Fatalf("text: %v", err) }`
  unfoldable pub or_fatal {ℓ} :
      {A : Type ℓ} → String → Reply A × n.State → (A → n.State → Stage) → Stage
  or_fatal text (err e, s) f = (fatal (wrapped text e), s)
  or_fatal text (ok a, s) f = f a s

  unfoldable pub unless_panic {ℓ} : {A : Type ℓ} → Option A → n.State → (A → Stage) → Stage
  unless_panic none s f = (panicked, s)
  unless_panic (some a) s f = f a

  polled : List ℕ → Polled × n.State → Stage
  polled hash (p, s) = (sent hash p, s)

  module _ (sleep : n.State → n.State) (h : Hashing) (k : Signer) (bundler rpc : n.RpcClient) where
    send : List ℕ → UserOperation → n.State → Stage
    unfolding polled
    send leading op s = unless_panic (get_user_op_hash h op (pos 11155111)) s (λ reply.
        or_fatal "Failed to calculate user operation hash" (reply, s)
          (λ hash s1.
            or_fatal "Failed to sign user operation hash" (k.sign (k.personal_sign_hash hash), s1)
              (λ raw s2. unless_panic (add_at 64 27 raw) s2 (λ signature.
                or_fatal "Failed to send user operation"
                  (send_user_operation n bundler (record op { signature = leading ++ signature })
                    entry_point_v07 s2)
                  (λ answer s3. polled answer (poll_receipt sleep bundler answer 60 s3))))))

    price : List ℕ → UserOperation → n.State → Stage
    unfolding send
    price leading op s =
        or_fatal "Failed to estimate user operation gas"
          (estimate_user_operation_gas n bundler op entry_point_v07 s)
          (λ estimates s1.
            let (price, s2) = get_max_fee_per_gas rpc s1 in
            unless_panic price s2 (λ reply.
              or_fatal "Failed to get gas fees" (reply, s2)
                (λ fees s3.
                  if has_gas estimates
                  then send leading (with_gas op estimates fees) s3
                  else (panicked, s3))))

    -- From the operation that the constant stands for: the current nonce, the paymaster, and the dummy signature behind
    -- the leading bytes for the estimate.
    unfoldable pub send_op : UserOperation → n.State → Stage
    unfolding price
    send_op op s = unless_panic (extract_nonce_key op.nonce) s (λ reply.
        or_fatal "Failed to extract nonce key" (reply, s)
          (λ key s1.
            or_fatal "Failed to get current nonce" (get_current_nonce rpc op.sender key s1)
              (λ nonce s2.
                price op.signature
                  (record op {
                    nonce = some nonce;
                    paymaster = some paymaster;
                    signature = op.signature ++ dummy_signature;
                  })
                  s2)))

  module _ (sleep : n.State → n.State) (h : Hashing) (e : Ecdsa) where
    with_key : Reply UserOperation → String → e.Key → n.State → Stage
    with_key parsed url key s =
        or_fatal "Failed to parse user operation" (parsed, s)
          (λ op s1. or_fatal "Failed to connect to bundler" (dial_context n url s1) (λ bundler s2.
            or_fatal "Failed to create RPC client" (n.dial_rpc url s2)
              (λ rpc s3. send_op sleep h (Service.signer_of h e key) bundler rpc op s3)))

    -- The environment is that after the .env file was loaded, which here is an error if it fails; `parsed` is what
    -- encoding/json makes of the constant. The deferred Close of the RPC client is left out.
    unfoldable pub main : Reply Env → Reply UserOperation → n.State → Stage
    unfolding with_key
    main (err x) parsed s = (fatal (wrapped "Error loading .env file" x), s)
    main (ok env) parsed s =
        if str_eq (env "SEPOLIA_RPC_URL") ""
        then (fatal (failure "SEPOLIA_RPC_URL not set in .env file"), s)
        else if str_eq (env "PRIVATE_KEY") ""
        then (fatal (failure "PRIVATE_KEY not set in .env file"), s)
        else or_fatal "Failed to parse private key"
            (e.hex_to_ecdsa (trim_0x (env "PRIVATE_KEY")), s)
            (λ key s1. with_key parsed (env "SEPOLIA_RPC_URL") key s1)
