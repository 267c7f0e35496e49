-- ===== src/Registry/BatchIds.antt =====
-- The ids of batches that are made from UUIDs.
use set.Prelude.{
  ℕ, suc, ◌+◌, ◌≡◌, refl, sym, ap, ◌∙◌, Bool, true, false, ◌&&◌, List, [], ◌∷◌, ◌++◌, length,
  length-append, arith, leb, ◌==◌, if◌then◌else◌, inl, inr, Bool-cases,
}
use set.Prelude.Text.{Text, codes, starts_with, to_lower_case}
use set.Effects.{ok}
use set.Validation.{is_hex_digit, all, drop_two, validate_hex_data, validate_bytes32}
use set.Registry.{
  UuidPart, hex, dash, version, variant, fits, times, uuid_pattern, matches, normalized,
  remove_dashes, batch_id_from_uuid,
}

-- A part is a dash, or a digit that is kept.
abbrev Fitted : UuidPart → ℕ → Type 0
Fitted dash c = (c == b'-') ≡ true
Fitted _ c = ((c == b'-') ≡ false) × (is_hex_digit c ≡ true)

fits-Fitted : (p : UuidPart) (c : ℕ) → fits p c ≡ true → Fitted p c
fits-Fitted hex c h = (ground arith, h)
fits-Fitted dash c h = h
fits-Fitted version c h = (ground arith, ground arith)
fits-Fitted variant c h = (ground arith, ground arith)

-- The digits that the pattern keeps.
abbrev kept : List UuidPart → ℕ
kept [] = 0
kept (dash ∷ ps) = kept ps
kept (_ ∷ ps) = suc (kept ps)

both_true : (a b : Bool) → (a && b) ≡ true → (a ≡ true) × (b ≡ true)
both_true true true h = (refl, refl)
both_true true false h = cc
both_true false b h = cc

module _ (c : ℕ) (s : Text) where
  remove_dash : (c == b'-') ≡ true → remove_dashes (c ∷ s) ≡ remove_dashes s
  unfolding remove_dashes
  remove_dash h = rw h refl

  keep_digit : (c == b'-') ≡ false → remove_dashes (c ∷ s) ≡ c ∷ remove_dashes s
  unfolding remove_dashes
  keep_digit h = rw h refl

-- Whether a text without its dashes has `n` hex digits.
abbrev HexDigits : ℕ → Text → Type 0
HexDigits n s = (all is_hex_digit s ≡ true) × (length s ≡ n)

HexDigits-digit :
    (c : ℕ) (s : Text) (n : ℕ)
    → ((c == b'-') ≡ false) × (is_hex_digit c ≡ true)
    → HexDigits n (remove_dashes s)
    → HexDigits (suc n) (remove_dashes (c ∷ s))
HexDigits-digit c s n (kept_here, digit) (digits, l) =
    rw (keep_digit c s kept_here) (rw digit digits, ap suc l)

matches-HexDigits :
    (ps : List UuidPart) (s : Text) → matches ps s ≡ true → HexDigits (kept ps) (remove_dashes s)
unfolding remove_dashes
matches-HexDigits [] [] h = (refl, refl)
matches-HexDigits [] (c ∷ s) h = cc
matches-HexDigits (p ∷ ps) [] h = cc
matches-HexDigits (p ∷ ps) (c ∷ s) h =
    let (here, rest) = both_true (fits p c) (matches ps s) h in
    part p (fits-Fitted p c here) (matches-HexDigits ps s rest)
  where
    part :
        (p : UuidPart)
        → Fitted p c
        → HexDigits (kept ps) (remove_dashes s)
        → HexDigits (kept (p ∷ ps)) (remove_dashes (c ∷ s))
    part hex f r = HexDigits-digit c s (kept ps) f r
    part dash f r = rw (remove_dash c s f) r
    part version f r = HexDigits-digit c s (kept ps) f r
    part variant f r = HexDigits-digit c s (kept ps) f r

digits_first :
    (c d : ℕ) (s t : Text)
    → (c == b'-') ≡ false
    → (d == b'-') ≡ false
    → remove_dashes (c ∷ s) ≡ remove_dashes (d ∷ t)
    → (c ≡ d) × (remove_dashes s ≡ remove_dashes t)
digits_first c d s t f g e =
    let conses : (c ∷ remove_dashes s) ≡ (d ∷ remove_dashes t) =
      sym (keep_digit c s f) ∙ e ∙ keep_digit d t g in
    (cc, cc)

-- Two digits are kept as they are, and two dashes are the same.
same_first :
    (p : UuidPart) (c d : ℕ) (s t : Text)
    → Fitted p c
    → Fitted p d
    → remove_dashes (c ∷ s) ≡ remove_dashes (d ∷ t)
    → (c ≡ d) × (remove_dashes s ≡ remove_dashes t)
same_first hex c d s t f g e = digits_first c d s t (f.0) (g.0) e
same_first dash c d s t f g e =
    (ground (arith, f, g), sym (remove_dash c s f) ∙ e ∙ remove_dash d t g)
same_first version c d s t f g e = digits_first c d s t (f.0) (g.0) e
same_first variant c d s t f g e = digits_first c d s t (f.0) (g.0) e

-- Two texts of one pattern that have the same digits are the same.
remove_dashes-injective :
    (ps : List UuidPart) (s t : Text)
    → matches ps s ≡ true
    → matches ps t ≡ true
    → remove_dashes s ≡ remove_dashes t
    → s ≡ t
remove_dashes-injective [] [] [] h k e = refl
remove_dashes-injective [] [] (d ∷ t) h k e = cc
remove_dashes-injective [] (c ∷ s) t h k e = cc
remove_dashes-injective (p ∷ ps) [] t h k e = cc
remove_dashes-injective (p ∷ ps) (c ∷ s) [] h k e = cc
remove_dashes-injective (p ∷ ps) (c ∷ s) (d ∷ t) h k e =
    let (here, rest) = both_true (fits p c) (matches ps s) h in
    let (there, rest') = both_true (fits p d) (matches ps t) k in
    let (same, e') = same_first p c d s t (fits-Fitted p c here) (fits-Fitted p d there) e in
    let same_rest : s ≡ t = remove_dashes-injective ps s t rest rest' e' in cc

append-injective : (s t z : Text) → length s ≡ length t → s ++ z ≡ t ++ z → s ≡ t
append-injective [] [] z l e = refl
append-injective [] (d ∷ t) z l e = absurd (omega (arith, l))
append-injective (c ∷ s) [] z l e = absurd (omega (arith, l))
append-injective (c ∷ s) (d ∷ t) z l e =
    let same_rest : s ++ z ≡ t ++ z = cc in
    let same : s ≡ t = append-injective s t z (omega (arith, l)) same_rest in cc

all-append : (s t : Text) → all is_hex_digit (s ++ t) ≡ (all is_hex_digit s && all is_hex_digit t)
all-append [] t = refl
all-append (c ∷ s) t = elim (Bool-cases (is_hex_digit c)) [
  | inl y ↦ rw y (all-append s t)
  | inr y ↦ rw y refl
]

lower_append : (s t : Text) → to_lower_case (s ++ t) ≡ to_lower_case s ++ to_lower_case t
unfolding to_lower_case
lower_append [] t = refl
lower_append (c ∷ s) t = rw (lower_append s t) refl

abbrev lower : ℕ → ℕ
lower c = if leb b'A' c && leb c b'Z' then c + 32 else c

lower_twice : (c : ℕ) → lower (lower c) ≡ lower c
lower_twice c = ground arith

lower_digit :
    (c : ℕ) (s : Text)
    → lower c ≡ c
    → to_lower_case (remove_dashes s) ≡ remove_dashes s
    → to_lower_case (remove_dashes (c ∷ s)) ≡ remove_dashes (c ∷ s)
unfolding to_lower_case
lower_digit c s e r = elim (Bool-cases (c == b'-')) [
  | inl y ↦ rw (remove_dash c s y) r
  | inr y ↦
      rw (keep_digit c s y) (ap (λ d. d ∷ to_lower_case (remove_dashes s)) e ∙ ap (λ t. c ∷ t) r)
]

lower_digits :
    (s : Text) → to_lower_case (remove_dashes (to_lower_case s)) ≡ remove_dashes (to_lower_case s)
unfolding to_lower_case remove_dashes
lower_digits [] = refl
lower_digits (c ∷ s) = lower_digit (lower c) (to_lower_case s) (lower_twice c) (lower_digits s)

-- What an id that is returned is made of.
batch_id_from_uuid-ok :
    (uuid id : Text)
    → batch_id_from_uuid uuid ≡ ok id
    → (matches uuid_pattern (normalized uuid) ≡ true)
      × (id ≡ codes "0x" ++ (remove_dashes (normalized uuid) ++ times 32 b'0'))
unfolding batch_id_from_uuid
batch_id_from_uuid-ok uuid id h = elim (Bool-cases (matches uuid_pattern (normalized uuid))) [
  | inl y ↦ let returned = simp (batch_id_from_uuid, y) at h in (y, cc)
  | inr y ↦ let failed = simp (batch_id_from_uuid, y) at h in cc
]

lower_prefix : (s : Text) → to_lower_case s ≡ s → to_lower_case (b'0' ∷ b'x' ∷ s) ≡ b'0' ∷ b'x' ∷ s
unfolding to_lower_case
lower_prefix s e = ap (λ t. b'0' ∷ b'x' ∷ t) e

validate_64-digits :
    (s : Text)
    → all is_hex_digit s ≡ true
    → length s ≡ 64
    → to_lower_case s ≡ s
    → validate_bytes32 (b'0' ∷ b'x' ∷ s) ≡ ok (b'0' ∷ b'x' ∷ s)
unfolding validate_bytes32 validate_hex_data starts_with
validate_64-digits s digits l e =
    rw (validate_bytes32, validate_hex_data, digits, l, lower_prefix s e, l) refl

validate_bytes32-id :
    (n : Text)
    → HexDigits 32 n
    → to_lower_case n ≡ n
    → validate_bytes32 (codes "0x" ++ (n ++ times 32 b'0'))
      ≡ ok (codes "0x" ++ (n ++ times 32 b'0'))
unfolding to_lower_case
validate_bytes32-id n (digits, l) e =
    validate_64-digits (n ++ times 32 b'0') (rw (all-append n (times 32 b'0'), digits) refl)
      (omega (arith, length-append n (times 32 b'0'), l))
      (lower_append n (times 32 b'0') ∙ ap (λ t. t ++ times 32 b'0') e)

-- Two UUIDs that give one id are the same, up to case and white space around them; and `validateBytes32`
-- returns every id as it is.
pub batch_id_from_uuid-injective :
    (a b id : Text)
    → batch_id_from_uuid a ≡ ok id
    → batch_id_from_uuid b ≡ ok id
    → (normalized a ≡ normalized b) × (validate_bytes32 id ≡ ok id)
batch_id_from_uuid-injective a b id h k =
    let (fits_a, id_a) = batch_id_from_uuid-ok a id h in
    let (fits_b, id_b) = batch_id_from_uuid-ok b id k in
    let digits_a = matches-HexDigits uuid_pattern (normalized a) fits_a in
    let digits_b = matches-HexDigits uuid_pattern (normalized b) fits_b in
    let tails : remove_dashes (normalized a) ++ times 32 b'0'
        ≡ remove_dashes (normalized b) ++ times 32 b'0' =
      ap drop_two (sym id_a ∙ id_b) in
    (
      remove_dashes-injective uuid_pattern (normalized a) (normalized b) fits_a fits_b (
          append-injective (remove_dashes (normalized a)) (remove_dashes (normalized b))
            (times 32 b'0') (digits_a.1 ∙ sym digits_b.1) tails),
      rw id_a (validate_bytes32-id (remove_dashes (normalized a)) digits_a (lower_digits _)),
    )
