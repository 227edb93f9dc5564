-- ===== src/Execution/Nonce.antt =====
-- `extractNonceKey`: the 192-bit key of an ERC-4337 nonce.
use samanager_backend.Base.{
  ℕ, zero, suc, ◌+◌, ◌/◌, ◌%◌, ◌^◌, ◌≤◌, ◌<◌, ◌≡◌, ap, sym, ◌∙◌, List, [], ◌∷◌, ◌++◌, some, ok,
  false, ltb, length, take, take-append, arith,
}
use mathlib.Core.List.{append-nil, append_assoc}
use native.Mathlib.Nat.{pow-suc, pow-zero, div-div-eq-div-mul}
use samanager_backend.Base.Int.{ℤ, abs}
use samanager_backend.Base.Digits.{
  fixed, digits, pad-digits, lt_pow-digits, of_digits-fixed, length-fixed,
}
use samanager_backend.Execution.{extract_nonce_key, key_of_bytes}

div_pow-suc : (b n j : ℕ) → n / b / b ^ j ≡ n / b ^ suc j
div_pow-suc b n j = div-div-eq-div-mul n b (b ^ j) ∙ ap (λ m. n / m) (omega (arith, pow-suc b j))

fixed-append : (k j b n : ℕ) → fixed (k + j) b n ≡ fixed k b (n / b ^ j) ++ fixed j b n
unfolding fixed
fixed-append k zero b n =
    let e : k + 0 ≡ k = omega arith in
    let one : n / b ^ 0 ≡ n = ap (λ m. n / m) (pow-zero b) ∙ omega arith in
    rw (e, one) (sym (append-nil (fixed k b n)))
fixed-append k (suc j) b n =
    let e : k + suc j ≡ suc (k + j) = omega arith in
    rw e (
      ap (λ (xs : List ℕ). xs ++ (n % b) ∷ [])
        (fixed-append k j b (n / b)
          ∙ ap (λ m. fixed k b m ++ fixed j b (n / b)) (div_pow-suc b n j))
      ∙ append_assoc (fixed k b (n / b ^ suc j)) (fixed j b (n / b)) ((n % b) ∷ []))

take-fixed : (n : ℕ) → take 24 (fixed 32 256 n) ≡ fixed 24 256 (n / 2 ^ 64)
take-fixed n =
    ap (take 24) (fixed-append 24 8 256 n)
    ∙ ap (λ k. take k (fixed 24 256 (n / 2 ^ 64) ++ fixed 8 256 n))
        (sym (length-fixed 24 256 (n / 2 ^ 64)))
    ∙ take-append (fixed 24 256 (n / 2 ^ 64)) (fixed 8 256 n)

enough_bytes : (n : ℕ) → 256 ^ 7 ≤ n → ltb (length (digits 256 n)) 8 ≡ false
enough_bytes n low = ground (arith, lt_pow-digits 256 (omega arith) 7 n)

-- The key of a nonce of at least 2^56 and below 2^256 is the nonce without its last 64 bits.
pub extract_nonce_key-key :
    (nonce : ℤ)
    → 256 ^ 7 ≤ abs nonce
    → abs nonce < 256 ^ 32
    → extract_nonce_key (some nonce) ≡ some (ok (abs nonce / 2 ^ 64))
unfolding extract_nonce_key key_of_bytes
extract_nonce_key-key nonce low high =
    let (len, same) = pad-digits 256 (omega arith) 32 (abs nonce) high in
    let fits : ltb 32 (length (digits 256 (abs nonce))) ≡ false = ground arith in
    rw (enough_bytes (abs nonce) low, fits, same, take-fixed (abs nonce))
      (ap (λ n. some (ok n))
        (of_digits-fixed 256 (omega arith) 24 (abs nonce / 2 ^ 64) (omega (arith, high))))
