-- ===== src/Settings/Texts/Split.antt =====
-- Splitting at the commas undoes joining with them.
use Prim.Native.Char.{code}
use Prim.Native.String.{char_at}
use text.Mathlib.TextLemmas.{nil-append, cons-append}
use samanager_backend.Base.{
  ◌≡◌, refl, ap, ◌∙◌, String, ◌<>◌, false, List, [], ◌∷◌, ◌==◌, Bool-cases, inl, inr, All,
}
use samanager_backend.Settings.Texts.{split_comma, put_first, has_comma, join_comma}

split_comma-plain : (part : String) → has_comma part ≡ false → split_comma part ≡ part ∷ []
unfolding split_comma put_first
split_comma-plain String.[] h = refl
split_comma-plain (String.◌∷◌ c s) h = elim (Bool-cases (code c == 44)) [
  | inl e ↦ cc (rw (e, has_comma) at h)
  | inr e ↦ rw (e, split_comma) (rw (split_comma-plain s (rw (e, has_comma) at h)) refl)
]

after_comma : (rest : String) → split_comma ("," <> rest) ≡ "" ∷ split_comma rest
unfolding split_comma
after_comma rest = rw (cons-append (char_at "," 0) "" rest, nil-append rest, split_comma) refl

split_comma-append :
    (part rest : String)
    → has_comma part ≡ false
    → split_comma (part <> ("," <> rest)) ≡ part ∷ split_comma rest
unfolding split_comma put_first
split_comma-append String.[] rest h = rw (nil-append ("," <> rest)) (after_comma rest)
split_comma-append (String.◌∷◌ c s) rest h = elim (Bool-cases (code c == 44)) [
  | inl e ↦ cc (rw (e, has_comma) at h)
  | inr e ↦
      rw (cons-append c s ("," <> rest), split_comma, e)
        (rw (split_comma-append s rest (rw (e, has_comma) at h)) refl)
]

pub split_comma-join_comma :
    (part : String) (parts : List String)
    → All (λ p. has_comma p ≡ false) (part ∷ parts)
    → split_comma (join_comma (part ∷ parts)) ≡ part ∷ parts
unfolding join_comma
split_comma-join_comma part [] (h, all) = split_comma-plain part h
split_comma-join_comma part (next ∷ parts) (h, all) =
    split_comma-append part (join_comma (next ∷ parts)) h
    ∙ ap (◌∷◌ part) (split_comma-join_comma next parts all)
