-- ===== src/Execution/Service.antt =====
-- src/service/execution.go: NewExecutionService, and the personal-message hash that it signs. The curve is a library.
use Prim.Native.Char.{code}
use samanager_backend.Base.{
  ℕ, ◌+◌, ◌==◌, String, List, [], ◌∷◌, ◌++◌, map, Reply, ok, err, wrapped, length, if◌then◌else◌,
}
use samanager_backend.Base.Digits.{digits}
use samanager_backend.Erc4337.Hash.{Hashing}
use samanager_backend.Execution.{Signer}

-- go-ethereum's crypto package: `HexToECDSA` and `Sign`.
pub record Ecdsa : Type 1 where
  pub Key : Type 0
  pub hex_to_ecdsa : String → Reply Key
  pub sign : List ℕ → Key → Reply (List ℕ)

abbrev ascii : String → List ℕ
ascii String.[] = []
ascii (String.◌∷◌ c s) = code c ∷ ascii s

-- `%d`
abbrev decimal : ℕ → List ℕ
decimal n = if n == 0 then 48 ∷ [] else map (λ (d : ℕ). d + 48) (digits 10 n)

-- "\x19Ethereum Signed Message:\n", the length, and the data
unfoldable pub signed_message : List ℕ → List ℕ
signed_message text =
    0x19 ∷ (ascii "Ethereum Signed Message:" ++ 10 ∷ (decimal (length text) ++ text))

unfoldable pub personal_sign_hash : Hashing → List ℕ → List ℕ
unfolding signed_message
personal_sign_hash h text = h.keccak256 (signed_message text)

-- The key with the two functions that ExecuteJob signs by.
abbrev pub signer_of : Hashing → (e : Ecdsa) → e.Key → Signer
signer_of h e key = record {
  personal_sign_hash = λ text. personal_sign_hash h text;
  sign = λ hash. e.sign hash key;
}

abbrev pub with_key : Hashing → (e : Ecdsa) → Reply e.Key → Reply Signer
with_key h e (err x) = err (wrapped "failed to parse private key" x)
with_key h e (ok key) = ok (signer_of h e key)

unfoldable pub new_execution_service : Hashing → Ecdsa → String → Reply Signer
new_execution_service h e private_key_hex = with_key h e (e.hex_to_ecdsa private_key_hex)
