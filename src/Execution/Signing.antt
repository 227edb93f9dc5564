-- ===== src/Execution/Signing.antt =====
-- What ExecuteJob signs and sends.
use samanager_backend.Base.{
  ℕ, Bool, String, ◌≡◌, ◌∙◌, ap, refl, List, ◌++◌, Option, none, some, Reply, ok, err, Option-cases,
  if◌then◌else◌, true, false, inl, inr,
}
use samanager_backend.Base.Int.{ℤ}
use samanager_backend.Erc4337.UserOp.{UserOperation}
use samanager_backend.Erc4337.Hash.{Hashing, get_user_op_hash, get_user_op_hash-signature}
use samanager_backend.Domain.Job.{EntityJob}
use samanager_backend.Network.{Network, GasEstimates}
use samanager_backend.Bundler.{send_user_operation, estimate_user_operation_gas}
use samanager_backend.Blockchain.{Chains, get_bundler_client, get_rpc_client}
use samanager_backend.Execution.{
  Run, Signer, execute_job, send_signed, sign_op, sign_hash, adjust, add_at, leading_signature,
  attempt, returned, unless_panic, price_and_send, with_nonce, extract_nonce_key, with_gas, has_gas,
  get_current_nonce, get_max_fee_per_gas,
}

-- The signature of a hash as it is sent: the recovery id plus 27.
pub record Signed (h : Hashing) (k : Signer) (op : UserOperation) (chain_id : ℤ)
    (signature : List ℕ) : Type 0 where
  pub hash : List ℕ
  pub raw : List ℕ
  pub hashed : get_user_op_hash h op chain_id ≡ some (ok hash)
  pub signs : k.sign (k.personal_sign_hash hash) ≡ ok raw
  pub adjusted : add_at 64 27 raw ≡ some signature

guard-ok {ℓ} :
    {A : Type ℓ} (b : Bool) (m : Option A) {a : A} → (if b then m else none) ≡ some a → m ≡ some a
guard-ok true m h = h
guard-ok false m h = cc

module _ (n : Network) where
  attempt-ok {ℓ κ} :
      {A : Type ℓ} {B : Type κ} (text : String) (m : Reply A × Chains n)
      (f : A → Chains n → Run n B) {b : B} {s' : Chains n}
      → attempt n text m f ≡ some (ok b, s')
      → (a : A) × (m.0 ≡ ok a) × (f a m.1 ≡ some (ok b, s'))
  unfolding attempt
  attempt-ok text (ok a, s) f h = (a, refl, h)
  attempt-ok text (err e, s) f h = cc

  returned-ok {ℓ κ} :
      {A : Type ℓ} {B : Type κ} (r : Reply A) (s : Chains n) (f : A → Run n B) {b : B}
      {s' : Chains n}
      → returned n r s f ≡ some (ok b, s')
      → (a : A) × (r ≡ ok a) × (f a ≡ some (ok b, s'))
  unfolding returned
  returned-ok (ok a) s f h = (a, refl, h)
  returned-ok (err e) s f h = cc

  unless_panic-ok {ℓ κ} :
      {A : Type ℓ} {B : Type κ} (o : Option A) (f : A → Run n B) {b : B} {s' : Chains n}
      → unless_panic n o f ≡ some (ok b, s')
      → (a : A) × (o ≡ some a) × (f a ≡ some (ok b, s'))
  unfolding unless_panic
  unless_panic-ok (some a) f h = (a, refl, h)
  unless_panic-ok none f h = cc

module _ (h : Hashing) (k : Signer) where
  adjust-ok :
      (reply : Reply (List ℕ)) {signature : List ℕ}
      → adjust h k reply ≡ some (ok signature)
      → (raw : List ℕ) × (reply ≡ ok raw) × (add_at 64 27 raw ≡ some signature)
  unfolding adjust
  adjust-ok (err e) same = cc
  adjust-ok (ok raw) {signature} same = elim (Option-cases (add_at 64 27 raw)) [
    | inl e ↦ cc (rw (e, adjust) at same)
    | inr (xs, e) ↦
        let same' : some (ok xs) ≡ some (ok signature) = rw (e, adjust) at same in (raw, refl, cc)
  ]

  sign_hash-ok :
      (reply : Reply (List ℕ)) {signature : List ℕ}
      → sign_hash h k reply ≡ some (ok signature)
      → (hash raw : List ℕ) × (reply ≡ ok hash)
        × (k.sign (k.personal_sign_hash hash) ≡ ok raw)
        × (add_at 64 27 raw ≡ some signature)
  unfolding sign_hash
  sign_hash-ok (err e) same = cc
  sign_hash-ok (ok hash) same =
      let (raw, signs, adjusted) = adjust-ok (k.sign (k.personal_sign_hash hash)) same in
      (hash, raw, refl, signs, adjusted)

  sign_op-ok :
      (op : UserOperation) (chain_id : ℤ) {signature : List ℕ}
      → sign_op h k op chain_id ≡ some (ok signature)
      → Signed h k op chain_id signature
  unfolding sign_op
  sign_op-ok op chain_id {signature} same = elim (Option-cases (get_user_op_hash h op chain_id)) [
    | inl e ↦ cc (rw (e, sign_op) at same)
    | inr (reply, e) ↦
        let (hash, raw, hashed, signs, adjusted) = sign_hash-ok reply (rw (e, sign_op) at same) in
        record { hash = hash; raw = raw; hashed = cc; signs = signs; adjusted = adjusted }
  ]

module _ (n : Network) (h : Hashing) (k : Signer) where
  -- `op`, with the key's signature behind the leading bytes, has gone to the bundler, which answered with `hash`.
  pub record Delivered (bundler : n.RpcClient) (job : EntityJob) (leading : List ℕ)
      (op : UserOperation) (net : n.State) (hash : List ℕ) : Type 0 where
    pub signature : List ℕ
    pub signed : Signed h k (record op { signature = leading ++ signature }) job.chain_id signature
    pub sent :
        (send_user_operation n bundler
          (record op { signature = leading ++ signature })
          job.entry_point_address
          net).0
        ≡ ok hash

  -- `op` has got the bundler's estimates for it and the fees of the chain, and has been delivered.
  pub record Priced (bundler rpc : n.RpcClient) (job : EntityJob) (leading : List ℕ)
      (op : UserOperation) (net : n.State) (hash : List ℕ) : Type 0 where
    pub estimates : GasEstimates
    pub estimated :
        (estimate_user_operation_gas n bundler op job.entry_point_address net).0 ≡ ok estimates
    pub fees : ℤ × ℤ
    pub priced :
        (get_max_fee_per_gas n rpc
          (estimate_user_operation_gas n bundler op job.entry_point_address net).1).0
        ≡ some (ok fees)
    pub delivered :
        Delivered bundler job leading
          (with_gas op estimates fees)
          (get_max_fee_per_gas n rpc
            (estimate_user_operation_gas n bundler op job.entry_point_address net).1).1
          hash

  -- The job's operation has got the nonce that the entry point has for its sender and its key, has been priced and
  -- delivered, through the clients of the pools for the job's chain.
  pub record Sent (job : EntityJob) (s : Chains n) (hash : List ℕ) : Type 0 where
    pub bundler : n.RpcClient
    pub from_bundlers : (get_bundler_client n job.chain_id s).0 ≡ ok bundler
    pub rpc : n.RpcClient
    pub from_clients :
        (get_rpc_client n job.chain_id (get_bundler_client n job.chain_id s).1).0 ≡ ok rpc
    pub net : n.State
    pub dialled :
        net ≡ (get_rpc_client n job.chain_id (get_bundler_client n job.chain_id s).1).1.net
    pub key : ℕ
    pub extracted : extract_nonce_key job.user_operation.nonce ≡ some (ok key)
    pub nonce : ℤ
    pub current : (get_current_nonce n rpc job.user_operation.sender key net).0 ≡ ok nonce
    pub leading : List ℕ
    pub leads : leading_signature job.user_operation.signature ≡ ok leading
    pub priced :
        Priced bundler rpc job leading
          (record job.user_operation { nonce = some nonce })
          (get_current_nonce n rpc job.user_operation.sender key net).1
          hash

  put_signature-Signed :
      (op : UserOperation) (chain_id : ℤ) (signature put : List ℕ)
      → Signed h k op chain_id signature
      → Signed h k (record op { signature = put }) chain_id signature
  put_signature-Signed op chain_id signature put s = record {
    hash = s.hash;
    raw = s.raw;
    hashed = get_user_op_hash-signature h op chain_id put ∙ s.hashed;
    signs = s.signs;
    adjusted = s.adjusted;
  }

  send_signed-Delivered :
      (bundler : n.RpcClient) (job : EntityJob) (leading : List ℕ) (op : UserOperation)
      (s : Chains n) {hash : List ℕ} {s' : Chains n}
      → send_signed n h k bundler job leading op s ≡ some (ok hash, s')
      → Delivered bundler job leading op s.net hash
  unfolding send_signed
  send_signed-Delivered bundler job leading op s e =
      let (reply, eq_sign, e1) = unless_panic-ok n (sign_op h k op job.chain_id) _ e in
      let (signature, eq_reply, e2) = returned-ok n reply s _ e1 in
      let (answer, sent, e3) = attempt-ok n "failed to send user operation" _ _ e2 in
      record {
        signature = signature;
        signed =
            put_signature-Signed op job.chain_id signature (leading ++ signature)
              (sign_op-ok h k op job.chain_id cc);
        sent = cc;
      }

  price_and_send-Priced :
      (bundler rpc : n.RpcClient) (job : EntityJob) (leading : List ℕ) (op : UserOperation)
      (s : Chains n) {hash : List ℕ} {s' : Chains n}
      → price_and_send n h k bundler rpc job leading op s ≡ some (ok hash, s')
      → Priced bundler rpc job leading op s.net hash
  unfolding price_and_send
  price_and_send-Priced bundler rpc job leading op s e =
      let (estimates, estimated, e1) = attempt-ok n "failed to estimate user operation gas" _ _ e in
      let (reply, answered, e2) = unless_panic-ok n _ _ e1 in
      let (fees, right, e3) = attempt-ok n "failed to get gas fees" _ _ e2 in
      record {
        estimates = estimates;
        estimated = estimated;
        fees = fees;
        priced = answered ∙ ap some right;
        delivered =
            send_signed-Delivered bundler job leading (with_gas op estimates fees) _
              (guard-ok (has_gas estimates) _ e3);
      }

  pub execute_job-Sent :
      (job : EntityJob) (s : Chains n) (hash : List ℕ) (s' : Chains n)
      → execute_job n h k job s ≡ some (ok hash, s')
      → Sent job s hash
  unfolding execute_job with_nonce
  execute_job-Sent job s hash s' e =
      let (bundler, from_bundlers, e1) = attempt-ok n "failed to get bundler client" _ _ e in
      let (rpc, from_clients, e2) = attempt-ok n "failed to get RPC client" _ _ e1 in
      let (reply, found, e3) =
        unless_panic-ok n (extract_nonce_key job.user_operation.nonce) _ e2 in
      let (key, right, e4) = attempt-ok n "failed to extract nonce key" _ _ e3 in
      let (nonce, current, e5) = attempt-ok n "failed to get current nonce" _ _ e4 in
      let (leading, leads, e6) = returned-ok n _ _ _ e5 in
      record {
        bundler = bundler;
        from_bundlers = from_bundlers;
        rpc = rpc;
        from_clients = from_clients;
        net = _;
        dialled = refl;
        key = key;
        extracted = found ∙ ap some right;
        nonce = nonce;
        current = current;
        leading = leading;
        leads = leads;
        priced = price_and_send-Priced bundler rpc job leading _ _ e6;
      }
