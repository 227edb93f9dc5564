-- ===== src/Erc4337/Pack/Limits.antt =====
-- When packing the 16-byte limits is exact, and when it is not.
use samanager_backend.Base.{
  ℕ, zero, suc, ◌-◌, ◌+◌, ◌^◌, ◌<◌, ◌≤◌, ◌≡◌, refl, sym, ap, ◌∙◌, List, [], ◌∷◌, ◌++◌, Option, none,
  some, leb, length, take, drop, arith, length-append, take-append, drop-append, Bool-cases, false,
  leb→le, inl, inr, ◌⊎◌, length-replicate,
}
use mathlib.Core.List.{append_assoc, append-nil}
use native.Mathlib.Nat.{zero-add, suc-add, one-le-pow}
use native.Mathlib.Decide.{dec_le}
use samanager_backend.Base.Int.{ℤ, abs}
use samanager_backend.Base.Digits.{
  digits, zeros, fixed, pad-digits, lt_pow-digits, length-fixed, fixed-zero,
}
use samanager_backend.Erc4337.Pack.{place_right, put_limit, pack_pair}

abbrev pub magnitude : Option ℤ → ℕ
magnitude none = 0
magnitude (some x) = abs x

take_at : (n : ℕ) (a b : List ℕ) → n ≡ length a → take n (a ++ b) ≡ a
take_at n a b e = ap (λ m. take m (a ++ b)) e ∙ take-append a b

drop_at : (n : ℕ) (a b : List ℕ) → n ≡ length a → drop n (a ++ b) ≡ b
drop_at n a b e = ap (λ m. drop m (a ++ b)) e ∙ drop-append a b

-- Writing exactly over the middle part `b`.
place_right-middle :
    (a b c src : List ℕ) (hi : ℕ)
    → length src ≡ length b
    → hi ≡ length a + length b
    → place_right (a ++ (b ++ c)) hi src ≡ some (a ++ (src ++ c))
unfolding place_right
place_right-middle a b c src hi same e = elim (Bool-cases (leb (length src) hi)) [
  | inl fits ↦
      rw (fits, take_at (hi - length src) a (b ++ c) (omega arith))
        (ap (λ (xs : List ℕ). some (a ++ (src ++ xs)))
          (ap (drop hi) (sym (append_assoc a b c))
            ∙ drop_at hi (a ++ b) c (omega (arith, length-append a b))))
  | inr over ↦ absurd (ground arith)
]

zeros-add : (j k : ℕ) → zeros (j + k) ≡ zeros j ++ zeros k
zeros-add zero k = ap zeros (zero-add k)
zeros-add (suc j) k = ap zeros (suc-add j k) ∙ ap (◌∷◌ 0) (zeros-add j k)

-- Writing a number of at most `k` bytes at the end of `k` zero bytes.
place_right-fits :
    (k n : ℕ) (front back : List ℕ) (hi : ℕ)
    → n < 256 ^ k
    → hi ≡ length front + k
    → place_right (front ++ (zeros k ++ back)) hi (digits 256 n)
      ≡ some (front ++ (fixed k 256 n ++ back))
place_right-fits k n front back hi h e =
    let (short, padded) = pad-digits 256 (omega arith) k n h in
    let ds : List ℕ = digits 256 n in
    let j : ℕ = k - length ds in
    let cut : zeros k ≡ zeros j ++ zeros (length ds) =
      ap zeros (omega arith) ∙ zeros-add j (length ds) in
    ap (λ (xs : List ℕ). place_right xs hi ds) (rw cut (simp append_assoc))
    ∙ place_right-middle (front ++ zeros j) (zeros (length ds)) back ds hi
        (sym (length-replicate (length ds) 0))
        (omega (
          arith,
          length-append front (zeros j),
          length-replicate {A = ℕ} j 0,
          length-replicate {A = ℕ} (length ds) 0,
        ))
    ∙ ap some (rw (← padded) (simp append_assoc))

-- A limit below 256 ^ k fills its `k` bytes, and nothing else.
pub put_limit-fits :
    (k : ℕ) (x : Option ℤ) (front back : List ℕ) (hi : ℕ)
    → magnitude x < 256 ^ k
    → hi ≡ length front + k
    → put_limit (front ++ (zeros k ++ back)) hi x
      ≡ some (front ++ (fixed k 256 (magnitude x) ++ back))
unfolding put_limit
put_limit-fits k none front back hi h e = rw (fixed-zero 256 (omega arith) k) refl
put_limit-fits k (some x) front back hi h e = place_right-fits k (abs x) front back hi h e

pub pack_pair-fits :
    (upper lower : Option ℤ)
    → magnitude upper < 256 ^ 16
    → magnitude lower < 256 ^ 16
    → pack_pair upper lower
      ≡ some (fixed 16 256 (magnitude upper) ++ fixed 16 256 (magnitude lower))
unfolding pack_pair
pack_pair-fits upper lower hu hl = rw (put_limit-fits 16 upper [] (zeros 16) 16 hu (omega arith)) (
    put_limit-fits 16 lower (fixed 16 256 (magnitude upper)) [] 32 hl
      (omega (arith, length-fixed 16 256 (magnitude upper)))
    ∙ rw append-nil refl)

too_wide : (hi n : ℕ) → leb (length (digits 256 n)) hi ≡ false → 256 ^ hi ≤ n
too_wide hi n over = elim (dec_le (256 ^ hi) n) [
  | yes h ↦ h
  | no h ↦ absurd (ground (arith, pad-digits 256 (omega arith) hi n))
]

pub at_least : (k n : ℕ) → 256 ^ k ≤ n → k < length (digits 256 n)
at_least k n h = elim (dec_le (suc k) (length (digits 256 n))) [
  | yes p ↦ p
  | no p ↦ absurd (omega (arith, lt_pow-digits 256 (omega arith) k n (omega arith)))
]

-- A limit that is too wide for the bytes before `hi` is a panic; any other is written.
pub put_limit_cases :
    (buf : List ℕ) (hi : ℕ) (x : Option ℤ)
    → ((256 ^ hi ≤ magnitude x) × (put_limit buf hi x ≡ none))
      ⊎ ((magnitude x < 256 ^ hi) × (b : List ℕ) × (put_limit buf hi x ≡ some b))
unfolding put_limit place_right
put_limit_cases buf hi none = inr (one-le-pow hi 256 (omega arith), buf, refl)
put_limit_cases buf hi (some x) = elim (Bool-cases (leb (length (digits 256 (abs x))) hi)) [
  | inl fits ↦ inr (
    lt_pow-digits 256 (omega arith) hi (abs x) (leb→le _ _ fits),
    take (hi - length (digits 256 (abs x))) buf ++ (digits 256 (abs x) ++ drop hi buf),
    rw fits refl,
  )
  | inr over ↦ inl (too_wide hi (abs x) over, rw over refl)
]

pub pack_pair_cases :
    (upper lower : Option ℤ)
    → (((256 ^ 16 ≤ magnitude upper) ⊎ (256 ^ 32 ≤ magnitude lower))
        × (pack_pair upper lower ≡ none))
      ⊎ ((magnitude upper < 256 ^ 16)
          × (magnitude lower < 256 ^ 32)
          × (b : List ℕ) × (pack_pair upper lower ≡ some b))
unfolding pack_pair
pack_pair_cases upper lower = elim (put_limit_cases (zeros 32) 16 upper) [
  | inl (wide, e) ↦ inl (inl wide, rw e refl)
  | inr (narrow, buf, e) ↦ elim (put_limit_cases buf 32 lower) [
    | inl (wide, e') ↦ inl (inr wide, rw e e')
    | inr (narrow', b, e') ↦ inr (narrow, narrow', b, rw e e')
  ]
]

take-append_le : (n : ℕ) (a b : List ℕ) → n ≤ length a → take n (a ++ b) ≡ take n a
take-append_le zero a b h = refl
take-append_le (suc n) [] b h = absurd (omega arith)
take-append_le (suc n) (x ∷ a) b h = ap (◌∷◌ x) (take-append_le n a b (omega arith))

place_right-over :
    (a b src : List ℕ)
    → length a ≡ 16
    → length b ≡ 16
    → 16 ≤ length src
    → length src ≤ 32
    → place_right (a ++ b) 32 src ≡ some (take (32 - length src) a ++ src)
unfolding place_right
place_right-over a b src ha hb lo hi = elim (Bool-cases (leb (length src) 32)) [
  | inl fits ↦
      let whole : drop 32 (a ++ b) ≡ [] =
        ap (drop 32) (sym (append-nil (a ++ b)))
        ∙ drop_at 32 (a ++ b) [] (omega (arith, length-append a b)) in
      rw (fits, take-append_le (32 - length src) a b (omega arith), whole, append-nil) refl
  | inr over ↦ absurd (ground arith)
]

-- A lower limit of 17 to 32 bytes is no panic: it runs over the upper limit's bytes.
pub pack_pair-overlap :
    (upper : Option ℤ) (x : ℤ)
    → magnitude upper < 256 ^ 16
    → 256 ^ 16 ≤ abs x
    → abs x < 256 ^ 32
    → pack_pair upper (some x)
      ≡ some (
          take (32 - length (digits 256 (abs x))) (fixed 16 256 (magnitude upper))
          ++ digits 256 (abs x))
unfolding pack_pair
pack_pair-overlap upper x hu wide narrow =
    rw (put_limit-fits 16 upper [] (zeros 16) 16 hu (omega arith)) (
      unfold put_limit in
      place_right-over (fixed 16 256 (magnitude upper)) (zeros 16) (digits 256 (abs x))
        (length-fixed 16 256 (magnitude upper)) refl (omega (arith, at_least 16 (abs x) wide))
        (pad-digits 256 (omega arith) 32 (abs x) narrow).0)
