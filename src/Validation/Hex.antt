-- ===== src/Validation/Hex.antt =====
-- What the checks of hex data return.
use set.Prelude.{
  ℕ, suc, ◌+◌, ◌%◌, true, ◌&&◌, [], ◌∷◌, map, length, leb, ◌==◌, if◌then◌else◌, ◌≡◌, ◌↔◌, inl, inr,
  refl, sym, ap, ◌∙◌, arith, Bool-cases,
}
use set.Prelude.Text.{Text, codes, starts_with, to_lower_case}
use set.Effects.{ok, result_cases}
use set.Validation.{validate_hex_data, validate_bytes32, all, is_hex_digit, drop_two}

abbrev lower : ℕ → ℕ
lower c = if leb b'A' c && leb c b'Z' then c + 32 else c

lower-lower : (c : ℕ) → lower (lower c) ≡ lower c
lower-lower c = ground arith

lower_hex : (c : ℕ) → is_hex_digit c ≡ true → is_hex_digit (lower c) ≡ true
lower_hex c h = ground arith

map-lower-lower : (s : Text) → map lower (map lower s) ≡ map lower s
map-lower-lower [] = refl
map-lower-lower (c ∷ s) = rw (lower-lower c, map-lower-lower s) refl

all-lower : (s : Text) → all is_hex_digit s ≡ true → all is_hex_digit (map lower s) ≡ true
all-lower [] h = refl
all-lower (c ∷ s) h = elim (Bool-cases (is_hex_digit c)) [
  | inl p ↦ rw (lower_hex c p) (all-lower s (ground arith))
  | inr p ↦ ground arith
]

length-lower : (s : Text) → length (map lower s) ≡ length s
length-lower [] = refl
length-lower (c ∷ s) = ap suc (length-lower s)

-- Text that `validateHexData` accepts: `0x` and an even number of hex digits.
pub record IsHexData (data_ : Text) : Type 0 where
  pub digits : Text
  pub split : data_ ≡ b'0' ∷ b'x' ∷ digits
  pub hex : all is_hex_digit digits ≡ true
  pub whole : (length digits % 2 == 0) ≡ true

prefix_lem : (s : Text) → starts_with s (codes "0x") ≡ true → s ≡ b'0' ∷ b'x' ∷ drop_two s
unfolding starts_with
prefix_lem [] h = ground arith
prefix_lem (a ∷ []) h = ground arith
prefix_lem (a ∷ b ∷ s) h = ground arith

-- `validateHexData` accepts exactly `0x` with an even number of hex digits, and returns it in lower
-- case.
pub validate_hex_data_iff :
    (data_ n : Text)
    → (validate_hex_data data_ ≡ ok n) ↔ (IsHexData data_ × (n ≡ to_lower_case data_))
unfolding validate_hex_data starts_with
validate_hex_data_iff data_ n = (to data_, from)
  where
    to : (d : Text) → validate_hex_data d ≡ ok n → IsHexData d × (n ≡ to_lower_case d)
    to d h = elim (Bool-cases (starts_with d (codes "0x"))) [
      | inr p ↦ ground arith
      | inl p ↦ (
        record {
          digits = drop_two d;
          split = prefix_lem d p;
          hex = ground arith;
          whole = ground arith;
        },
        ground arith,
      )
    ]

    from : IsHexData data_ × (n ≡ to_lower_case data_) → validate_hex_data data_ ≡ ok n
    from (v, e) = rw (e, v.split, v.hex, v.whole) refl

lower-IsHexData : (d : Text) → IsHexData d → IsHexData (to_lower_case d)
unfolding to_lower_case
lower-IsHexData d v = record {
  digits = map lower v.digits;
  split = ap to_lower_case v.split;
  hex = all-lower v.digits v.hex;
  whole = rw (length-lower v.digits) v.whole;
}

-- What `validateBytes32` returns has 66 characters and is hex data in a normal form: checking it again
-- returns the same text.
pub validate_bytes32_stable :
    (value n : Text)
    → validate_bytes32 value ≡ ok n
    → (length n ≡ 66) × IsHexData n × (n ≡ to_lower_case value) × (validate_bytes32 n ≡ ok n)
unfolding validate_bytes32 to_lower_case
validate_bytes32_stable value n h = elim (result_cases (validate_hex_data value)) [
  | inr (x, q) ↦ ground arith
  | inl (m, q) ↦
      let (v, e) = (validate_hex_data_iff value m).0 q in
      let same : m ≡ n = ground arith in
      let hex : IsHexData n = rw (sym same ∙ e) (lower-IsHexData value v) in
      let out : n ≡ to_lower_case value = sym same ∙ e in
      let again : n ≡ to_lower_case n =
        out ∙ sym (map-lower-lower value) ∙ sym (ap to_lower_case out) in
      let r = (validate_hex_data_iff n n).1 (hex, again) in (ground arith, hex, out, ground arith)
]
