-- ===== src/Erc4337/Hex/RoundTrip.antt =====
-- parseHexBig reads back what the hexadecimal verbs print.
use mathlib.Core.List.{map-append}
use samanager_backend.Base.{
  ℕ, zero, suc, ◌+◌, ◌-◌, ◌*◌, ◌<◌, ◌≡◌, refl, sym, ap, ◌∙◌, List, [], ◌∷◌, ◌++◌, map, some, ok,
  arith, ◌==◌, ==_iff, length, All, if◌then◌else◌, Bool-cases, inl, inr, false, ◌≢◌,
}
use samanager_backend.Base.Int.{ℤ, pos, negsuc}
use samanager_backend.Base.Digits.{
  digits, zeros, of_digits_from, of_digits, of_digits-digits, digits-All, of_digits_from-zeros,
}
use samanager_backend.Erc4337.Hex.{
  hex_char, hex_value, hex_nat, hex_text, hex_text_64, with_0x, hex_digits, hex_magnitude, negate,
  as_signed, set_string, strip_0x, parse_stripped, parse_hex_big,
}

hex_value-hex_char : (d : ℕ) → d < 16 → hex_value (hex_char d) ≡ some d
unfolding hex_value hex_char
hex_value-hex_char d h = ground arith

hex_char-plain : (d : ℕ) → d < 16 → ((hex_char d == b'-') ≡ false) × ((hex_char d == b'+') ≡ false)
unfolding hex_char
hex_char-plain d h = ground arith

hex_digits-map :
    (acc : ℕ) (ds : List ℕ)
    → All (λ d. d < 16) ds
    → hex_digits acc (map hex_char ds) ≡ some (of_digits_from 16 acc ds)
unfolding hex_digits of_digits_from
hex_digits-map acc [] h = refl
hex_digits-map acc (d ∷ ds) h =
    rw (hex_value-hex_char d h.0, hex_digits) (hex_digits-map (acc * 16 + d) ds h.1)

-- The digits that are printed; 0 has one.
printed : ℕ → List ℕ
printed n = if n == 0 then 0 ∷ [] else digits 16 n

hex_nat-printed : (n : ℕ) → hex_nat n ≡ map hex_char (printed n)
unfolding hex_nat printed
hex_nat-printed n = ground arith

printed-All : (n : ℕ) → All (λ d. d < 16) (printed n)
unfolding printed
printed-All n = elim (Bool-cases (n == 0)) [
  | inl z ↦ rw z (omega arith)
  | inr p ↦ rw p (digits-All 16 n (omega arith))
]

of_digits-printed : (n : ℕ) → of_digits 16 (printed n) ≡ n
unfolding printed
of_digits-printed n = elim (Bool-cases (n == 0)) [
  | inl z ↦ rw z (unfold of_digits in sym ((==_iff n 0).0 z))
  | inr p ↦ rw p (of_digits-digits 16 (omega arith) n)
]

printed-ne-nil : (n : ℕ) → printed n ≢ []
unfolding printed of_digits
printed-ne-nil n e = elim (Bool-cases (n == 0)) [
  | inl z ↦ cc (rw z at e)
  | inr p ↦
      let zero_value : 0 ≡ n =
        ap (of_digits 16) (sym (rw p at e)) ∙ of_digits-digits 16 (omega arith) n in
      absurd (ground arith)
]

hex_magnitude-map :
    (ds : List ℕ)
    → ds ≢ []
    → All (λ d. d < 16) ds
    → hex_magnitude (map hex_char ds) ≡ some (of_digits 16 ds)
unfolding hex_magnitude of_digits
hex_magnitude-map [] n h = absurd (n refl)
hex_magnitude-map (d ∷ ds) n h = hex_digits-map 0 (d ∷ ds) h

set_string-map :
    (ds : List ℕ)
    → ds ≢ []
    → All (λ d. d < 16) ds
    → set_string (map hex_char ds) ≡ some (pos (of_digits 16 ds))
unfolding set_string
set_string-map [] n h = absurd (n refl)
set_string-map (d ∷ ds) n h =
    rw
      (
        (hex_char-plain d h.0).0,
        set_string,
        (hex_char-plain d h.0).1,
        hex_magnitude-map (d ∷ ds) n h,
      )
      refl

parse_stripped-some :
    (cs : List ℕ) (x : ℤ) → cs ≢ [] → set_string cs ≡ some x → parse_stripped cs ≡ ok x
unfolding parse_stripped
parse_stripped-some [] x n e = absurd (n refl)
parse_stripped-some (c ∷ cs) x n e = rw (e, parse_stripped) refl

map-ne-nil : (ds : List ℕ) → ds ≢ [] → map hex_char ds ≢ []
map-ne-nil [] n e = n refl
map-ne-nil (d ∷ ds) n e = cc

parse-plain :
    (ds : List ℕ)
    → ds ≢ []
    → All (λ d. d < 16) ds
    → parse_hex_big (with_0x (map hex_char ds)) ≡ ok (pos (of_digits 16 ds))
unfolding parse_hex_big strip_0x
parse-plain ds n h =
    parse_stripped-some (map hex_char ds) _ (map-ne-nil ds n) (set_string-map ds n h)

parse-negative :
    (ds : List ℕ)
    → ds ≢ []
    → All (λ d. d < 16) ds
    → parse_hex_big (with_0x (b'-' ∷ map hex_char ds)) ≡ ok (negate (of_digits 16 ds))
unfolding parse_hex_big strip_0x
parse-negative ds n h =
    parse_stripped-some (b'-' ∷ map hex_char ds) _ (λ e. cc)
      (unfold set_string in ap (as_signed negate) (hex_magnitude-map ds n h))

-- parseHexBig reads back every number that `0x%x` prints, negative ones included.
pub parse_hex_big-hex_text : (x : ℤ) → parse_hex_big (with_0x (hex_text x)) ≡ ok x
unfolding hex_text
parse_hex_big-hex_text (pos n) = rw (hex_nat-printed n) (
    parse-plain (printed n) (printed-ne-nil n) (printed-All n)
    ∙ ap (λ m. ok (pos m)) (of_digits-printed n))
parse_hex_big-hex_text (negsuc n) = rw (hex_nat-printed (suc n)) (
    parse-negative (printed (suc n)) (printed-ne-nil (suc n)) (printed-All (suc n))
    ∙ ap (λ m. ok (negate m)) (of_digits-printed (suc n))
    ∙ (unfold negate in refl))

zeros-map : (k : ℕ) → map (λ z. z + b'0') (zeros k) ≡ map hex_char (zeros k)
unfolding hex_char
zeros-map zero = refl
zeros-map (suc k) = ap (◌∷◌ b'0') (zeros-map k)

zeros-All : (k : ℕ) (ds : List ℕ) → All (λ d. d < 16) ds → All (λ d. d < 16) (zeros k ++ ds)
zeros-All zero ds h = h
zeros-All (suc k) ds h = (omega arith, zeros-All k ds h)

of_digits-zeros : (k : ℕ) (ds : List ℕ) → of_digits 16 (zeros k ++ ds) ≡ of_digits 16 ds
unfolding of_digits
of_digits-zeros k ds = of_digits_from-zeros 16 k ds

zeros-ne-nil : (k : ℕ) (ds : List ℕ) → ds ≢ [] → zeros k ++ ds ≢ []
zeros-ne-nil zero ds h e = h e
zeros-ne-nil (suc k) ds h e = cc

-- And what `0x%064x` prints.
pub parse_hex_big-hex_text_64 : (n : ℕ) → parse_hex_big (with_0x (hex_text_64 n)) ≡ ok (pos n)
unfolding hex_text_64
parse_hex_big-hex_text_64 n =
    let k : ℕ = 64 - length (hex_nat n) in
    let ds : List ℕ = zeros k ++ printed n in
    let text : hex_text_64 n ≡ map hex_char ds =
      ap (λ xs. xs ++ hex_nat n) (zeros-map k)
      ∙ ap (λ xs. map hex_char (zeros k) ++ xs) (hex_nat-printed n)
      ∙ sym (map-append hex_char (zeros k) (printed n)) in
    ap (λ xs. parse_hex_big (with_0x xs)) text
    ∙ parse-plain ds (zeros-ne-nil k (printed n) (printed-ne-nil n))
        (zeros-All k (printed n) (printed-All n))
    ∙ ap (λ m. ok (pos m)) (of_digits-zeros k (printed n) ∙ of_digits-printed n)
