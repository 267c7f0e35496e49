-- ===== src/Formatting/Separators.antt =====
-- The separators of thousands, and the parser that removes them.
use set.Prelude.{
  ℕ, ◌≡◌, refl, ap, ◌∙◌, Bool, false, ◌&&◌, [], ◌∷◌, ltb, ◌==◌, ◌%◌, inl, inr, Bool-cases,
}
use set.Prelude.Text.{Text}
use set.Formatting.{
  Units, is_word, same, digit_run, separators_from, add_thousands_separators, remove_commas,
  parse_amount, or_invalid,
}

remove-separators :
    (before : Bool) (s : Text) → remove_commas (separators_from before s) ≡ remove_commas s
unfolding remove_commas separators_from
remove-separators before [] = refl
remove-separators before (c ∷ s) =
    elim (Bool-cases
      (same before (is_word c) && (ltb 0 (digit_run (c ∷ s)) && digit_run (c ∷ s) % 3 == 0))) [
        | inl y ↦ rw (y, remove-separators (is_word c) s) refl
        | inr y ↦ rw (y, remove-separators (is_word c) s) refl
      ]

-- The text has no comma.
abbrev pub NoCommas : Text → Type 0
NoCommas [] = Unit
NoCommas (c ∷ s) = ((c == b',') ≡ false) × NoCommas s

remove_nothing : (s : Text) → NoCommas s → remove_commas s ≡ s
unfolding remove_commas
remove_nothing [] h = refl
remove_nothing (c ∷ s) h = rw (h.0, remove_nothing s h.1) refl

-- Removing the commas of a text with separators gives the text back, if it has no comma itself; so
-- `parseAmount` reads a number with separators as ethers reads the number without them: it returns the
-- same amount, or fails where that fails.
pub parse_amount-separators :
    (units : Units) (s : Text) (decimals : ℕ)
    → NoCommas s
    → (remove_commas (add_thousands_separators s) ≡ s)
      × (parse_amount units (add_thousands_separators s) decimals
          ≡ or_invalid (add_thousands_separators s) (units.parse_units s decimals))
unfolding add_thousands_separators parse_amount
parse_amount-separators units s decimals h =
    let same_text : remove_commas (separators_from false s) ≡ s =
      remove-separators false s ∙ remove_nothing s h in
    (
      same_text,
      ap (λ t. or_invalid (separators_from false s) (units.parse_units t decimals)) same_text,
    )
