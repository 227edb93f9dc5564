-- ===== src/Settings/Texts.antt =====
-- The functions of Go's strings and strconv that src/app/config.go uses.
pub mod Split
use Prim.Native.Char.{Char, code}
use samanager_backend.Base.{
  ℕ, ◌+◌, ◌-◌, ◌*◌, ◌^◌, ◌≡◌, refl, ap, ◌∙◌, String, ◌<>◌, Bool, true, false, not, List, [], ◌∷◌,
  map, Option, none, some, str_eq, ltb, leb, ◌==◌, ◌&&◌, ◌||◌, if◌then◌else◌, Bool-cases, inl, inr,
  All, arith,
}
use samanager_backend.Base.Int.{ℤ, pos, negsuc}

-- `unicode.IsSpace`
unfoldable pub is_space : Char → Bool
is_space c =
    (leb 9 (code c) && leb (code c) 13)
    || code c == 0x20
    || code c == 0x85
    || code c == 0xa0
    || code c == 0x1680
    || (leb 0x2000 (code c) && leb (code c) 0x200a)
    || code c == 0x2028
    || code c == 0x2029
    || code c == 0x202f
    || code c == 0x205f
    || code c == 0x3000

abbrev is_empty : String → Bool
is_empty String.[] = true
is_empty (String.◌∷◌ c s) = false

unfoldable pub trim_left : String → String
trim_left String.[] = String.[]
trim_left (String.◌∷◌ c s) = let rest = trim_left s in if is_space c then rest else String.◌∷◌ c s

-- A character before what is left of the text after it.
unfoldable pub before : Char → String → String
before c rest = if is_empty rest && is_space c then String.[] else String.◌∷◌ c rest

unfoldable pub trim_right : String → String
unfolding before
trim_right String.[] = String.[]
trim_right (String.◌∷◌ c s) = before c (trim_right s)

-- `strings.TrimSpace`
unfoldable pub trim_space : String → String
trim_space s = trim_right (trim_left s)

unfoldable pub put_first : Char → List String → List String
put_first c [] = String.◌∷◌ c String.[] ∷ []
put_first c (part ∷ parts) = String.◌∷◌ c part ∷ parts

-- `strings.Split(s, ",")`
unfoldable pub split_comma : String → List String
unfolding put_first
split_comma String.[] = String.[] ∷ []
split_comma (String.◌∷◌ c s) =
    let rest = split_comma s in if code c == 44 then String.[] ∷ rest else put_first c rest

-- `strings.TrimPrefix(s, "0x")`
unfoldable pub trim_0x : String → String
trim_0x (String.◌∷◌ a (String.◌∷◌ b s)) =
    if code a == 48 && code b == 120 then s else String.◌∷◌ a (String.◌∷◌ b s)
trim_0x s = s

-- Decimal digits, onto what was read before them.
unfoldable pub read_digits : ℕ → String → Option ℕ
read_digits n String.[] = some n
read_digits n (String.◌∷◌ c s) =
    let rest = read_digits (10 * n + (code c - 48)) s in
    if leb 48 (code c) && leb (code c) 57 then rest else none

unfoldable pub some_digits : String → Option ℕ
unfolding read_digits
some_digits String.[] = none
some_digits (String.◌∷◌ c s) = read_digits 0 (String.◌∷◌ c s)

below_max : Option ℕ → Option ℤ
below_max none = none
below_max (some n) = if ltb n (2 ^ 63) then some (pos n) else none

minus : ℕ → ℤ
minus n = if n == 0 then pos 0 else negsuc (n - 1)

above_min : Option ℕ → Option ℤ
unfolding minus
above_min none = none
above_min (some n) = if leb n (2 ^ 63) then some (minus n) else none

-- `strconv.Atoi`: `none` is its error, of a text that is no number or does not fit 64 bits.
unfoldable pub atoi : String → Option ℤ
unfolding some_digits below_max above_min
atoi String.[] = none
atoi (String.◌∷◌ c s) =
    if code c == 45
    then above_min (some_digits s)
    else if code c == 43
    then below_max (some_digits s)
    else below_max (some_digits (String.◌∷◌ c s))

atoi_runs :
    (atoi "-5" ≡ some (negsuc 4))
    × (atoi "60" ≡ some (pos 60))
    × (atoi "6x" ≡ none)
    × (atoi "9223372036854775808" ≡ none)
    × (atoi "+" ≡ none)
unfolding atoi
atoi_runs = (refl, refl, refl, refl, refl)

is_headed : String → Bool
is_headed String.[] = true
is_headed (String.◌∷◌ c s) = not (is_space c)

trim_left-headed : (s : String) → is_headed (trim_left s) ≡ true
unfolding trim_left is_headed
trim_left-headed String.[] = refl
trim_left-headed (String.◌∷◌ c s) = elim (Bool-cases (is_space c)) [
  | inl e ↦ rw (e, trim_left) (trim_left-headed s)
  | inr e ↦ rw (e, trim_left) (rw (e, is_headed) refl)
]

headed-trim_left : (s : String) → is_headed s ≡ true → trim_left s ≡ s
unfolding trim_left is_headed
headed-trim_left String.[] h = refl
headed-trim_left (String.◌∷◌ c s) h = elim (Bool-cases (is_space c)) [
  | inl e ↦ cc (rw (e, is_headed) at h)
  | inr e ↦ rw (e, trim_left) refl
]

headed-trim_right : (s : String) → is_headed s ≡ true → is_headed (trim_right s) ≡ true
unfolding trim_right before is_headed
headed-trim_right String.[] h = refl
headed-trim_right (String.◌∷◌ c s) h = elim (Bool-cases (is_empty (trim_right s) && is_space c)) [
  | inl e ↦ rw (e, before) refl
  | inr e ↦ rw (e, before) h
]

trim_right-fixed : (s : String) → trim_right (trim_right s) ≡ trim_right s
unfolding trim_right before
trim_right-fixed String.[] = refl
trim_right-fixed (String.◌∷◌ c s) = elim (Bool-cases (is_empty (trim_right s) && is_space c)) [
  | inl e ↦ rw (e, before) refl
  | inr e ↦ rw (e, before) (rw (trim_right-fixed s, trim_right, before, e) refl)
]

-- Trimming once is enough.
pub trim_space-fixed : (s : String) → trim_space (trim_space s) ≡ trim_space s
unfolding trim_space
trim_space-fixed s =
    rw
      (headed-trim_left (trim_right (trim_left s))
        (headed-trim_right (trim_left s) (trim_left-headed s)))
      (trim_right-fixed (trim_left s))

abbrev pub has_comma : String → Bool
has_comma String.[] = false
has_comma (String.◌∷◌ c s) = code c == 44 || has_comma s

-- `strings.Join(parts, ",")`
unfoldable pub join_comma : List String → String
join_comma [] = ""
join_comma (part ∷ []) = part
join_comma (part ∷ next ∷ parts) = part <> ("," <> join_comma (next ∷ parts))
