-- ===== src/Tests/Sameness.antt =====
-- Boolean tests of equality, for codecs that know a few values.
use samanager_backend.Base.{
  ℕ, ◌≡◌, refl, sym, ap, ◌∙◌, inl, inr, String, Bool, true, false, List, [], ◌∷◌, Option, none,
  some, Reply, ok, err, failure, str_eq, eq_iff, ==_iff, ◌==◌, ◌&&◌, if◌then◌else◌, Bool-cases,
}
use mathlib.Core.Path.{ap₂}
use samanager_backend.Base.Int.{ℤ, eq_ℤ, eq_of_eq_ℤ}

pub record Test {ℓ} (A : Type ℓ) : Type ℓ where
  pub same : A → A → Bool
  pub sound : (a b : A) → same a b ≡ true → a ≡ b

abbrev pub of_ℕ : Test ℕ
of_ℕ = record { same = λ a b. a == b; sound = λ a b. (==_iff a b).0 }

abbrev pub of_String : Test String
of_String = record { same = str_eq; sound = λ a b. (eq_iff a b).0 }

abbrev pub of_ℤ : Test ℤ
of_ℤ = record { same = eq_ℤ; sound = eq_of_eq_ℤ }

pub both : (a b : Bool) → (a && b) ≡ true → (a ≡ true) × (b ≡ true)
both true true h = (refl, refl)
both true false h = cc
both false b h = cc

module _ {ℓ κ} {A : Type ℓ} {B : Type κ} where
  abbrev pub of_pair : Test A → Test B → Test (A × B)
  of_pair s t = record {
    same = λ x y. s.same x.0 y.0 && t.same x.1 y.1;
    sound = λ x y h.
        let (h₀, h₁) = both (s.same x.0 y.0) (t.same x.1 y.1) h in
        ap₂ (λ a b. (a, b)) (s.sound x.0 y.0 h₀) (t.sound x.1 y.1 h₁);
  }

  abbrev pub through : (f : A → B) (g : B → A) → ((a : A) → g (f a) ≡ a) → Test B → Test A
  through f g back t = record {
    same = λ x y. t.same (f x) (f y);
    sound = λ x y h. sym (back x) ∙ ap g (t.sound (f x) (f y) h) ∙ back y;
  }

module _ {ℓ} {A : Type ℓ} (t : Test A) where
  abbrev pub same_list : List A → List A → Bool
  same_list [] [] = true
  same_list (x ∷ xs) (y ∷ ys) = t.same x y && same_list xs ys
  same_list [] (y ∷ ys) = false
  same_list (x ∷ xs) [] = false

  pub same_list_sound : (xs ys : List A) → same_list xs ys ≡ true → xs ≡ ys
  same_list_sound [] [] h = refl
  same_list_sound (x ∷ xs) (y ∷ ys) h =
      let (h₀, h₁) = both (t.same x y) (same_list xs ys) h in
      ap₂ ◌∷◌ (t.sound x y h₀) (same_list_sound xs ys h₁)
  same_list_sound [] (y ∷ ys) h = cc
  same_list_sound (x ∷ xs) [] h = cc

  abbrev pub of_List : Test (List A)
  of_List = record { same = same_list; sound = same_list_sound }

  abbrev pub same_option : Option A → Option A → Bool
  same_option none none = true
  same_option (some x) (some y) = t.same x y
  same_option none (some y) = false
  same_option (some x) none = false

  pub same_option_sound : (x y : Option A) → same_option x y ≡ true → x ≡ y
  same_option_sound none none h = refl
  same_option_sound (some x) (some y) h = ap some (t.sound x y h)
  same_option_sound none (some y) h = cc
  same_option_sound (some x) none h = cc

  abbrev pub of_Option : Test (Option A)
  of_Option = record { same = same_option; sound = same_option_sound }

  -- A codec that knows two values, under the names "first" and "second".
  module _ (first second : A) where
    abbrev pub encode_two : A → Reply String
    encode_two x =
        if t.same x first
        then ok "first"
        else if t.same x second
        then ok "second"
        else err (failure "unknown value")

    abbrev pub decode_two : String → Reply A
    decode_two text =
        if str_eq text "first"
        then ok first
        else if str_eq text "second"
        then ok second
        else err (failure "unknown text")

    pub decode_two-encode_two :
        (x : A) (text : String) → encode_two x ≡ ok text → decode_two text ≡ ok x
    decode_two-encode_two x text e = elim (Bool-cases (t.same x first)) [
      | inl a ↦
          let named : "first" ≡ text = cc (rw a at e) in
          rw (← named) (ap ok (sym (t.sound x first a)))
      | inr a ↦ elim (Bool-cases (t.same x second)) [
        | inl b ↦
            let named : "second" ≡ text = cc (rw (a, b) at e) in
            rw (← named) (ap ok (sym (t.sound x second b)))
        | inr b ↦ cc (rw (a, b) at e)
      ]
    ]
