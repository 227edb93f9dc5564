-- ===== src/Base/Digits.antt =====
-- Big-endian digits of a number: `big.Int.Bytes` (base 256) and the hexadecimal verbs (base 16).
use mathlib.Core.List.{append_assoc, append-nil}
use native.Mathlib.Nat.{pow-suc, pow-zero, one-le-pow, div-add-mod}
use samanager_backend.Base.Tests.{◌==◌, if◌then◌else◌, Bool-cases, ==_iff}
use samanager_backend.Base.Lists.{All, length, replicate, length-append}
use Prim.Native.Nat.{ℕ, zero, suc, ◌+◌, ◌-◌, ◌*◌, ◌/◌, ◌%◌, ◌^◌, ◌≤◌, ◌<◌}
use mathlib.Core.Path.{◌≡◌, refl, sym, ap, ◌∙◌}
use mathlib.Core.Logic.{inl, inr}
use mathlib.Core.Bool.{false}
use mathlib.Core.List.{List, [], ◌∷◌, ◌++◌}
use native.Mathlib.Omega.{arith}

-- At most `fuel` digits; `fuel = n` is enough, since a number has no more digits than its value.
pub digits_fuel : ℕ → ℕ → ℕ → List ℕ
digits_fuel zero b n = []
digits_fuel (suc fuel) b n =
    let rest = digits_fuel fuel b (n / b) ++ (n % b) ∷ [] in if n == 0 then [] else rest

-- No leading zero; none at all for 0.
unfoldable pub digits : ℕ → ℕ → List ℕ
unfolding digits_fuel
digits b n = digits_fuel n b n

unfoldable pub of_digits_from : ℕ → ℕ → List ℕ → ℕ
of_digits_from b acc [] = acc
of_digits_from b acc (d ∷ ds) = of_digits_from b (acc * b + d) ds

unfoldable pub of_digits : ℕ → List ℕ → ℕ
unfolding of_digits_from
of_digits b = of_digits_from b 0

-- The last `k` digits, leading zeros included.
unfoldable pub fixed : ℕ → ℕ → ℕ → List ℕ
fixed zero b n = []
fixed (suc k) b n = fixed k b (n / b) ++ (n % b) ∷ []

of_digits_from-append :
    (b acc : ℕ) (xs : List ℕ) (d : ℕ)
    → of_digits_from b acc (xs ++ d ∷ []) ≡ of_digits_from b acc xs * b + d
unfolding of_digits_from
of_digits_from-append b acc [] d = refl
of_digits_from-append b acc (x ∷ xs) d = of_digits_from-append b (acc * b + x) xs d

div-lt : (b n : ℕ) → 1 < b → 0 < n → n / b < n
div-lt b n hb hn = grind arith

div-lt_pow : (b k n : ℕ) → 1 < b → n < b ^ suc k → n / b < b ^ k
div-lt_pow b k n hb h = grind (arith, pow-suc b k)

lt-pow_of_div : (b k n : ℕ) → 1 < b → n / b < b ^ k → n < b ^ suc k
lt-pow_of_div b k n hb h = grind (arith, pow-suc b k)

positive : (n : ℕ) → (n == 0) ≡ false → 0 < n
positive n h = ground arith

div_mod_eq : (b n : ℕ) → n / b * b + n % b ≡ n
div_mod_eq b n = omega (arith, div-add-mod n b)

abbrev pub zeros : ℕ → List ℕ
zeros k = replicate k 0

zeros-snoc : (k : ℕ) → zeros k ++ 0 ∷ [] ≡ zeros (suc k)
zeros-snoc zero = refl
zeros-snoc (suc k) = ap (◌∷◌ 0) (zeros-snoc k)

k-zero : (k : ℕ) → k - 0 ≡ k
k-zero k = omega arith

module _ (b : ℕ) (hb : 1 < b) where
  of_digits-digits_fuel : (f n : ℕ) → n ≤ f → of_digits_from b 0 (digits_fuel f b n) ≡ n
  unfolding of_digits_from digits_fuel
  of_digits-digits_fuel zero n h = omega arith
  of_digits-digits_fuel (suc f) n h = elim (Bool-cases (n == 0)) [
    | inl z ↦ rw z (omega (arith, (==_iff n 0).0 z))
    | inr p ↦
        let pos : 0 < n = ground arith in
        rw
          (
            p,
            of_digits_from-append b 0 (digits_fuel f b (n / b)) (n % b),
            of_digits-digits_fuel f (n / b) (omega (arith, div-lt b n hb pos)),
          )
          (div_mod_eq b n)
  ]

  -- The digits determine the number.
  pub of_digits-digits : (n : ℕ) → of_digits b (digits b n) ≡ n
  unfolding of_digits digits
  of_digits-digits n = of_digits-digits_fuel n n (omega arith)

  -- All zeros, for 0.
  pub fixed-zero : (k : ℕ) → fixed k b 0 ≡ zeros k
  unfolding fixed
  fixed-zero zero = refl
  fixed-zero (suc k) =
      let q : 0 / b ≡ 0 = grind arith in
      let r : 0 % b ≡ 0 = grind arith in rw (q, r, fixed-zero k) (zeros-snoc k)

  short :
      (k f : ℕ)
      → (length (digits_fuel f b 0) ≤ k)
        × (zeros (k - length (digits_fuel f b 0)) ++ digits_fuel f b 0 ≡ fixed k b 0)
  unfolding digits_fuel
  short k zero = (omega arith, rw append-nil (ap zeros (k-zero k) ∙ sym (fixed-zero k)))
  short k (suc f) = (omega arith, rw append-nil (ap zeros (k-zero k) ∙ sym (fixed-zero k)))

  pad-digits_fuel :
      (k f n : ℕ)
      → n ≤ f
      → n < b ^ k
      → (length (digits_fuel f b n) ≤ k)
        × (zeros (k - length (digits_fuel f b n)) ++ digits_fuel f b n ≡ fixed k b n)
  unfolding fixed digits_fuel
  pad-digits_fuel zero f n h lt = let e : n ≡ 0 = omega (arith, pow-zero b) in rw e (short 0 f)
  pad-digits_fuel (suc k) zero n h lt = let e : n ≡ 0 = omega arith in rw e (short (suc k) 0)
  pad-digits_fuel (suc k) (suc f) n h lt = elim (Bool-cases (n == 0)) [
    | inl z ↦ rw ((==_iff n 0).0 z) (short (suc k) (suc f))
    | inr p ↦
        let pos : 0 < n = ground arith in
        let (ih, same) =
          pad-digits_fuel k f (n / b) (omega (arith, div-lt b n hb pos)) (div-lt_pow b k n hb lt) in
        let ds : List ℕ = digits_fuel f b (n / b) in
        let e : suc k - length (ds ++ (n % b) ∷ []) ≡ k - length ds =
          omega (arith, length-append ds ((n % b) ∷ [])) in
        rw p (
          omega (arith, length-append ds ((n % b) ∷ []), ih),
          rw e (
              sym (append_assoc (zeros (k - length ds)) ds ((n % b) ∷ []))
              ∙ ap (λ (xs : List ℕ). xs ++ (n % b) ∷ []) same),
        )
  ]

  more_digits :
      (k n : ℕ) (ds : List ℕ)
      → length (ds ++ (n % b) ∷ []) ≤ k
      → ((j : ℕ) → length ds ≤ j → n / b < b ^ j)
      → n < b ^ k
  more_digits zero n ds len ih = absurd (omega (arith, length-append ds ((n % b) ∷ [])))
  more_digits (suc k) n ds len ih =
      lt-pow_of_div b k n hb (ih k (omega (arith, length-append ds ((n % b) ∷ []))))

  lt_pow-digits_fuel : (k f n : ℕ) → n ≤ f → length (digits_fuel f b n) ≤ k → n < b ^ k
  unfolding digits_fuel
  lt_pow-digits_fuel k zero n h len = omega (arith, one-le-pow k b (omega arith))
  lt_pow-digits_fuel k (suc f) n h len = elim (Bool-cases (n == 0)) [
    | inl z ↦ omega (arith, one-le-pow k b (omega arith), (==_iff n 0).0 z)
    | inr p ↦
        more_digits k n (digits_fuel f b (n / b)) (rw p at len)
          (λ j. lt_pow-digits_fuel j f (n / b) (omega (arith, div-lt b n hb (positive n p))))
  ]

  -- A number below `b ^ k` has at most `k` digits, and with leading zeros they are its last `k`.
  pub pad-digits :
      (k n : ℕ)
      → n < b ^ k
      → (length (digits b n) ≤ k) × (zeros (k - length (digits b n)) ++ digits b n ≡ fixed k b n)
  unfolding digits
  pad-digits k n h = pad-digits_fuel k n n (omega arith) h

  pub lt_pow-digits : (k n : ℕ) → length (digits b n) ≤ k → n < b ^ k
  unfolding digits
  lt_pow-digits k n h = lt_pow-digits_fuel k n n (omega arith) h

  -- Fewer than `k + 1` digits lose nothing.
  pub of_digits-fixed : (k n : ℕ) → n < b ^ k → of_digits b (fixed k b n) ≡ n
  unfolding of_digits fixed of_digits_from
  of_digits-fixed zero n h = omega (arith, pow-zero b)
  of_digits-fixed (suc k) n h =
      rw (of_digits_from-append b 0 (fixed k b (n / b)) (n % b))
        (rw (of_digits-fixed k (n / b) (div-lt_pow b k n hb h)) (div_mod_eq b n))

pub length-fixed : (k b n : ℕ) → length (fixed k b n) ≡ k
unfolding fixed
length-fixed zero b n = refl
length-fixed (suc k) b n =
    omega (arith, length-append (fixed k b (n / b)) ((n % b) ∷ []), length-fixed k b (n / b))

All-snoc :
    (b : ℕ) (xs : List ℕ) (d : ℕ) → All (λ x. x < b) xs → d < b → All (λ x. x < b) (xs ++ d ∷ [])
All-snoc b [] d h hd = (hd, tt)
All-snoc b (x ∷ xs) d h hd = (h.0, All-snoc b xs d h.1 hd)

digits_fuel-All : (b f n : ℕ) → 1 < b → All (λ d. d < b) (digits_fuel f b n)
unfolding digits_fuel
digits_fuel-All b zero n hb = tt
digits_fuel-All b (suc f) n hb = elim (Bool-cases (n == 0)) [
  | inl z ↦ rw z tt
  | inr p ↦
      rw p (
        All-snoc b (digits_fuel f b (n / b)) (n % b) (digits_fuel-All b f (n / b) hb) (grind arith))
]

-- Every digit is below the base.
pub digits-All : (b n : ℕ) → 1 < b → All (λ d. d < b) (digits b n)
unfolding digits
digits-All b n hb = digits_fuel-All b n n hb

pub of_digits_from-zeros :
    (b k : ℕ) (ds : List ℕ) → of_digits_from b 0 (zeros k ++ ds) ≡ of_digits_from b 0 ds
unfolding of_digits_from
of_digits_from-zeros b zero ds = refl
of_digits_from-zeros b (suc k) ds =
    let e : 0 * b + 0 ≡ 0 = omega arith in
    ap (λ a. of_digits_from b a (zeros k ++ ds)) e ∙ of_digits_from-zeros b k ds
