-- ===== src/Formatting/Shortening.antt =====
-- Addresses and hashes in a short form.
use set.Prelude.{
  ℕ, zero, suc, false, ◌+◌, ◌-◌, ◌*◌, ◌≤◌, ◌≡◌, refl, [], ◌∷◌, ◌++◌, length, length-append, arith,
  ltb, ◌==◌, if◌then◌else◌,
}
use set.Prelude.Text.{Text, codes}
use set.Transactions.Batches.{take, drop}
use set.Formatting.{shorten}

length-take : (n : ℕ) (s : Text) → n ≤ length s → length (take n s) ≡ n
length-take zero s h = refl
length-take (suc n) [] h = absurd (omega arith)
length-take (suc n) (c ∷ s) h = omega (arith, length-take n s)

length-drop : (n : ℕ) (s : Text) → length (drop n s) ≡ length s - n
length-drop zero s = omega arith
length-drop (suc n) [] = omega arith
length-drop (suc n) (c ∷ s) = omega (arith, length-drop n s)

-- What is kept of the start, the points, and what is kept of the end.
length-joined :
    (n : ℕ) (s end : Text)
    → n ≤ length s
    → length (take n s ++ (codes "..." ++ end)) ≡ n + 3 + length end
length-joined n s end h =
    omega (arith, length-append (take n s) (codes "..." ++ end), length-take n s h)

long_enough : (a b : ℕ) → b ≤ a → ltb a b ≡ false
long_enough a b h = ground arith

suc_not_zero : (n : ℕ) → (suc n == 0) ≡ false
suc_not_zero n = ground arith

-- A text of at least `chars * 2 + 2` characters that is shortened to a positive number of characters at each
-- side has twice that number and five characters afterwards. With `chars` 0 it becomes longer by five: the
-- whole text follows the points.
pub length-shorten :
    (s : Text) (chars : ℕ)
    → chars * 2 + 2 ≤ length s
    → length (shorten s chars) ≡ (if chars == 0 then length s + 5 else chars * 2 + 5)
unfolding shorten
length-shorten s zero h = rw (long_enough (length s) 2 h) (omega (arith, length-joined 2 s s h))
length-shorten s (suc n) h =
    let ends : length (take (suc n + 2) s ++ (codes "..." ++ drop (length s - suc n) s))
        ≡ suc n * 2 + 5 =
      omega (
        arith,
        length-joined (suc n + 2) s (drop (length s - suc n) s) (omega arith),
        length-drop (length s - suc n) s,
      ) in
    rw (long_enough (length s) (suc n * 2 + 2) h, suc_not_zero n) ends
