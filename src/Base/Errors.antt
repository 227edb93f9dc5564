-- ===== src/Base/Errors.antt =====
-- Go's `error` values and (value, error) results.
use mathlib.Core.Path.{◌≡◌, refl}
use mathlib.Core.Logic.{◌⊎◌, inl, inr}
use Prim.Native.String.{String, ◌++◌ as ◌<>◌}

-- `redis_nil` is the sentinel `redis.Nil`; `external` is any other error of a library or of the
-- network, with its text; `wrapped p e` is `fmt.Errorf("p: %w", e)`; `failure` has a text alone.
pub data Error : Type 0 where
  redis_nil : Error
  external failure : String → Error
  wrapped : String → Error → Error

-- `err.Error()`
unfoldable pub error_text : Error → String
error_text redis_nil = "redis: nil"
error_text (external text) = text
error_text (failure text) = text
error_text (wrapped text e) = (text <> ": ") <> error_text e

pub data Reply {ℓ} (Value : Type ℓ) : Type ℓ where
  err : Error → Reply Value
  ok : Value → Reply Value

-- The value of a function that returns an error alone.
abbrev pub Done : Type 0
Done = Unit {0}

module _ {ℓ} {Value : Type ℓ} where
  abbrev pub IsOk : Reply Value → Type ℓ
  IsOk reply = (v : Value) × (reply ≡ ok v)

  abbrev pub IsErr : Reply Value → Type ℓ
  IsErr reply = (e : Error) × (reply ≡ err e)

  pub Reply-cases : (reply : Reply Value) → IsOk reply ⊎ IsErr reply
  Reply-cases (err e) = inr (e, refl)
  Reply-cases (ok v) = inl (v, refl)

  module _ {κ} {Next : Type κ} where
    -- `v, err := e; if err != nil { return err }`
    infixl 5 ◌>>=◌
    abbrev pub ◌>>=◌ : Reply Value → (Value → Reply Next) → Reply Next
    err e >>= next = err e
    ok v >>= next = next v

    -- A chain that succeeds has succeeded in its first step, and in the rest on that step's value.
    pub >>=-eq-ok :
        (first : Reply Value) (next : Value → Reply Next) {last : Next}
        → (first >>= next) ≡ ok last
        → (v : Value) × (first ≡ ok v) × (next v ≡ ok last)
    >>=-eq-ok (err e) next done = cc
    >>=-eq-ok (ok v) next done = (v, refl, done)
