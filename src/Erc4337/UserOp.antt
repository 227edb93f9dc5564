-- ===== src/Erc4337/UserOp.antt =====
-- erc4337/user_operation.go: the two structures. A `*big.Int` or `*common.Address` that may be nil
-- is an `Option`, a byte slice is a list of bytes (nil and empty are not told apart by the code).
use samanager_backend.Base.{ℕ, Option, none, List, []}
use samanager_backend.Base.Int.{ℤ}

pub record UserOperation : Type 0 where
  pub sender : List ℕ
  pub nonce : Option ℤ
  pub factory : Option (List ℕ)
  pub factory_data : List ℕ
  pub call_data : List ℕ
  pub call_gas_limit : Option ℤ
  pub verification_gas_limit : Option ℤ
  pub pre_verification_gas : Option ℤ
  pub max_priority_fee_per_gas : Option ℤ
  pub max_fee_per_gas : Option ℤ
  pub paymaster : Option (List ℕ)
  pub paymaster_verification_gas_limit : Option ℤ
  pub paymaster_post_op_gas_limit : Option ℤ
  pub paymaster_data : List ℕ
  pub signature : List ℕ

pub record PackedUserOp : Type 0 where
  pub sender : List ℕ
  pub nonce : Option ℤ
  pub init_code : List ℕ
  pub call_data : List ℕ
  pub account_gas_limits : List ℕ
  pub pre_verification_gas : Option ℤ
  pub gas_fees : List ℕ
  pub paymaster_and_data : List ℕ
  pub signature : List ℕ

-- The zero value of the structure, into which a JSON document is read.
abbrev pub zero_op : UserOperation
zero_op = record {
  sender = [];
  nonce = none;
  factory = none;
  factory_data = [];
  call_data = [];
  call_gas_limit = none;
  verification_gas_limit = none;
  pre_verification_gas = none;
  max_priority_fee_per_gas = none;
  max_fee_per_gas = none;
  paymaster = none;
  paymaster_verification_gas_limit = none;
  paymaster_post_op_gas_limit = none;
  paymaster_data = [];
  signature = [];
}
