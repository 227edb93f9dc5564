-- ===== src/Erc4337/Pack.antt =====
-- erc4337/user_operation.go, PackUserOp.
pub mod Limits
pub mod Layout
pub mod Sizes
use samanager_backend.Base.{
  ℕ, ◌-◌, ◌+◌, List, [], ◌∷◌, ◌++◌, Option, none, some, Bool, true, false, ltb, leb, if◌then◌else◌,
  length, take, drop, ◌&&◌,
}
use samanager_backend.Base.Int.{ℤ, pos, abs}
use samanager_backend.Base.Digits.{digits, zeros}
use samanager_backend.Base.Panics.{◌>>=◌}
use samanager_backend.Erc4337.UserOp.{UserOperation, PackedUserOp}

-- `copy(buf[hi-len(src):hi], src)`; a negative lower bound panics.
unfoldable pub place_right : List ℕ → ℕ → List ℕ → Option (List ℕ)
place_right buf hi src =
    if leb (length src) hi then some (take (hi - length src) buf ++ (src ++ drop hi buf)) else none

-- `if x != nil { b := x.Bytes(); copy(buf[hi-len(b):hi], b) }`
unfoldable pub put_limit : List ℕ → ℕ → Option ℤ → Option (List ℕ)
unfolding place_right
put_limit buf hi none = some buf
put_limit buf hi (some x) = place_right buf hi (digits 256 (abs x))

-- Two numbers of 16 bytes each in 32 bytes: the gas limits, and the gas fees.
unfoldable pub pack_pair : Option ℤ → Option ℤ → Option (List ℕ)
pack_pair upper lower = do buf ← put_limit (zeros 32) 16 upper; put_limit buf 32 lower

unfoldable pub or_zero : Option ℤ → ℤ
or_zero none = pos 0
or_zero (some x) = x

-- factory and factoryData, if both are there
unfoldable pub pack_init_code : Option (List ℕ) → List ℕ → List ℕ
pack_init_code none factory_data = []
pack_init_code (some factory) factory_data =
    if ltb 0 (length factory_data) then factory ++ factory_data else []

unfoldable pub pack_paymaster : UserOperation → Option (List ℕ) → Option (List ℕ)
pack_paymaster uo none = some []
pack_paymaster uo (some paymaster) = do
  verification ← put_limit (zeros 16) 16 uo.paymaster_verification_gas_limit
  post_op ← put_limit (zeros 16) 16 uo.paymaster_post_op_gas_limit
  some (paymaster ++ (verification ++ (post_op ++ uo.paymaster_data)))

-- `none`: the function panics.
unfoldable pub pack_user_op : UserOperation → Option PackedUserOp
unfolding or_zero
pack_user_op uo = do
  account_gas_limits ← pack_pair uo.verification_gas_limit uo.call_gas_limit
  gas_fees ← pack_pair uo.max_priority_fee_per_gas uo.max_fee_per_gas
  paymaster_and_data ← pack_paymaster uo uo.paymaster
  some (record {
    sender = uo.sender;
    nonce = some (or_zero uo.nonce);
    init_code = pack_init_code uo.factory uo.factory_data;
    call_data = uo.call_data;
    account_gas_limits = account_gas_limits;
    pre_verification_gas = some (or_zero uo.pre_verification_gas);
    gas_fees = gas_fees;
    paymaster_and_data = paymaster_and_data;
    signature = uo.signature;
  })
