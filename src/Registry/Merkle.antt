-- ===== src/Registry/Merkle.antt =====
-- Proofs against the tree that they are about.
use set.Prelude.{
  ℕ, zero, suc, ◌+◌, ◌*◌, ◌/◌, ◌%◌, ◌^◌, ◌<◌, ◌≡◌, ◌≢◌, refl, sym, ◌∙◌, ap, Bool, true, false, List,
  [], ◌∷◌, length, arith, ◌==◌, if◌then◌else◌, ◌⊎◌, inl, inr, Bool-cases,
}
use set.Prelude.Text.{Text, text_eq, text_eq_refl, text_eq-eq, to_lower_case}
use set.Effects.{Result, ok, result_cases}
use set.Registry.{hash_with, computed_root, same_hash, verify_merkle_proof}

even_of_true : (i : ℕ) → (i % 2 == 0) ≡ true → i ≡ 2 * (i / 2)
even_of_true i h = ground arith

odd_of_false : (i : ℕ) → (i % 2 == 0) ≡ false → i ≡ 2 * (i / 2) + 1
odd_of_false i h = ground arith

half-below : (i depth : ℕ) → i < 2 ^ suc depth → i / 2 < 2 ^ depth
half-below i depth h = omega arith

only_zero : (i : ℕ) → i < 1 → i ≡ 0
only_zero i h = omega arith

ok-same : {a b : Bool} → ok a ≡ ok b → a ≡ b
ok-same e = cc

different : {s t : Text} → text_eq s t ≡ false → s ≢ t
different {s} {t} h e = let same : text_eq s t ≡ true = rw e (text_eq_refl t) in cc

module _ (hash_pair : Text → Text → Result Text) where
  -- `root` is the root of a tree of `depth` levels over the leaves `level 0`, `level 1`, …: each level is
  -- the hashes of the pairs of the one below.
  abbrev pub MerkleTree : ℕ → (ℕ → Text) → Text → Type 0
  MerkleTree zero level root = level 0 ≡ root
  MerkleTree (suc depth) level root =
      (above : ℕ → Text) × ((j : ℕ)
        → j < 2 ^ depth
        → hash_pair (level (2 * j)) (level (2 * j + 1)) ≡ ok (above j))
      × MerkleTree depth above root

  abbrev pub sibling : ℕ → ℕ
  sibling i = if i % 2 == 0 then i + 1 else 2 * (i / 2)

  -- The proof of a leaf: its sibling, and those of the hashes above it.
  abbrev pub proof_of :
      (depth : ℕ) (level : ℕ → Text) (root : Text) → MerkleTree depth level root → ℕ → List Text
  proof_of zero level root t i = []
  proof_of (suc depth) level root (above, hashed, t) i =
      level (sibling i) ∷ proof_of depth above root t (i / 2)

  left_of :
      (level : ℕ → Text) (i k : ℕ) {x : Result Text}
      → i ≡ 2 * k
      → hash_pair (level (2 * k)) (level (2 * k + 1)) ≡ x
      → hash_pair (level i) (level (i + 1)) ≡ x
  left_of level i k e h = rw e h

  right_of :
      (level : ℕ → Text) (i k : ℕ) {x : Result Text}
      → i ≡ 2 * k + 1
      → hash_pair (level (2 * k)) (level (2 * k + 1)) ≡ x
      → hash_pair (level (2 * k)) (level i) ≡ x
  right_of level i k e h = rw e h

  hash_with-sibling :
      (level above : ℕ → Text) (i : ℕ)
      → hash_pair (level (2 * (i / 2))) (level (2 * (i / 2) + 1)) ≡ ok (above (i / 2))
      → hash_with hash_pair i (level i) (level (sibling i)) ≡ ok (above (i / 2))
  hash_with-sibling level above i h = elim (Bool-cases (i % 2 == 0)) [
    | inl y ↦ rw y (left_of level i (i / 2) (even_of_true i y) h)
    | inr y ↦ rw y (right_of level i (i / 2) (odd_of_false i y) h)
  ]

  -- The loop reaches the root from every leaf with its proof.
  computed_root-proof :
      (depth : ℕ) (level : ℕ → Text) (root : Text) (t : MerkleTree depth level root) (i : ℕ)
      → i < 2 ^ depth
      → computed_root hash_pair (level i) (proof_of depth level root t i) i ≡ ok root
  unfolding computed_root
  computed_root-proof zero level root t i h = rw (only_zero i h) (ap ok t)
  computed_root-proof (suc depth) level root (above, hashed, t) i h =
      rw (computed_root, hash_with-sibling level above i (hashed (i / 2) (half-below i depth h)))
        (computed_root-proof depth above root t (i / 2) (half-below i depth h))

  length-proof_of :
      (depth : ℕ) (level : ℕ → Text) (root : Text) (t : MerkleTree depth level root) (i : ℕ)
      → length (proof_of depth level root t i) ≡ depth
  length-proof_of zero level root t i = refl
  length-proof_of (suc depth) level root (above, hashed, t) i =
      ap suc (length-proof_of depth above root t (i / 2))

  -- Two pairs that are different up to case, with hashes that are the same up to case.
  abbrev pub Collision : Type 0
  Collision =
      (a b c d h k : Text) × (hash_pair a b ≡ ok h)
      × (hash_pair c d ≡ ok k)
      × (to_lower_case h ≡ to_lower_case k)
      × ((to_lower_case a ≢ to_lower_case c) ⊎ (to_lower_case b ≢ to_lower_case d))

  hash_with-Collision :
      (i : ℕ) (a p b q h k : Text)
      → hash_with hash_pair i a p ≡ ok h
      → hash_with hash_pair i b q ≡ ok k
      → to_lower_case h ≡ to_lower_case k
      → (to_lower_case a ≡ to_lower_case b) ⊎ Collision
  hash_with-Collision i a p b q h k x y e =
      elim (Bool-cases (text_eq (to_lower_case a) (to_lower_case b))) [
        | inl same ↦ inl (text_eq-eq (to_lower_case a) (to_lower_case b) same)
        | inr other ↦ elim (Bool-cases (i % 2 == 0)) [
          | inl even ↦
              inr (a, p, b, q, h, k, simp even at x, simp even at y, e, inl (different other))
          | inr odd ↦ inr (p, a, q, b, h, k, simp odd at x, simp odd at y, e, inr (different other))
        ]
      ]

  last_round :
      (a b h k : Text)
      → ◌≡◌ {A = Result Text} (ok a) (ok h)
      → ◌≡◌ {A = Result Text} (ok b) (ok k)
      → to_lower_case h ≡ to_lower_case k
      → to_lower_case a ≡ to_lower_case b
  last_round a b h k x y e = cc

  first_round :
      (a p : Text) (ps : List Text) (i : ℕ) (h : Text)
      → computed_root hash_pair a (p ∷ ps) i ≡ ok h
      → (m : Text) × (hash_with hash_pair i a p ≡ ok m)
        × (computed_root hash_pair m ps (i / 2) ≡ ok h)
  unfolding computed_root
  first_round a p ps i h x = elim (result_cases (hash_with hash_pair i a p)) [
    | inl (m, u) ↦ (m, u, simp (computed_root, u) at x)
    | inr (z, w) ↦ let failed = simp (computed_root, w) at x in cc
  ]

  -- Two runs of the loop that end at one root begin at one leaf, or show a collision.
  computed_root-Collision :
      (proof proof' : List Text) (a b : Text) (i : ℕ) (h k : Text)
      → length proof ≡ length proof'
      → computed_root hash_pair a proof i ≡ ok h
      → computed_root hash_pair b proof' i ≡ ok k
      → to_lower_case h ≡ to_lower_case k
      → (to_lower_case a ≡ to_lower_case b) ⊎ Collision
  unfolding computed_root
  computed_root-Collision [] [] a b i h k l x y e = inl (last_round a b h k x y e)
  computed_root-Collision [] (q ∷ qs) a b i h k l x y e = absurd (omega (arith, l))
  computed_root-Collision (p ∷ ps) [] a b i h k l x y e = absurd (omega (arith, l))
  computed_root-Collision (p ∷ ps) (q ∷ qs) a b i h k l x y e =
      let (m, u, x') = first_round a p ps i h x in
      let (n, v, y') = first_round b q qs i k y in
      elim (computed_root-Collision ps qs m n (i / 2) h k (omega (arith, l)) x' y' e) [
        | inl f ↦ hash_with-Collision i a p b q m n u v f
        | inr c ↦ inr c
      ]

  accepted :
      (leaf : Text) (proof : List Text) (i : ℕ) (root : Text)
      → verify_merkle_proof hash_pair leaf proof i root ≡ ok true
      → (h : Text) × (computed_root hash_pair leaf proof i ≡ ok h)
        × (to_lower_case h ≡ to_lower_case root)
  unfolding verify_merkle_proof
  accepted leaf proof i root x = elim (result_cases (computed_root hash_pair leaf proof i)) [
    | inl (h, u) ↦
        let same : ok (same_hash h root) ≡ ok true = simp (verify_merkle_proof, u) at x in
        (h, u, text_eq-eq (to_lower_case h) (to_lower_case root) (ok-same same))
    | inr (z, w) ↦ let failed = simp (verify_merkle_proof, w) at x in cc
  ]

  -- `verifyMerkleProof` accepts the proof of every leaf of a tree.
  pub verify_merkle_proof-proof_of :
      (depth : ℕ) (level : ℕ → Text) (root : Text) (t : MerkleTree depth level root) (i : ℕ)
      → i < 2 ^ depth
      → verify_merkle_proof hash_pair (level i) (proof_of depth level root t i) i root ≡ ok true
  unfolding verify_merkle_proof
  verify_merkle_proof-proof_of depth level root t i h =
      rw (verify_merkle_proof, computed_root-proof depth level root t i h)
        (ap ok (text_eq_refl (to_lower_case root)))

  -- A proof that is accepted for a place in a tree and its root, and has one hash for each level, proves the
  -- leaf at that place, up to case; or two pairs are found that are different and have the same hash.
  pub verify_merkle_proof-Collision :
      (depth : ℕ) (level : ℕ → Text) (root : Text) (t : MerkleTree depth level root) (i : ℕ)
      → i < 2 ^ depth
      → (leaf : Text) (proof : List Text) → length proof ≡ depth
      → verify_merkle_proof hash_pair leaf proof i root ≡ ok true
      → (to_lower_case leaf ≡ to_lower_case (level i)) ⊎ Collision
  unfolding verify_merkle_proof
  verify_merkle_proof-Collision depth level root t i h leaf proof l x =
      let (r, u, e) = accepted leaf proof i root x in
      computed_root-Collision proof (proof_of depth level root t i) leaf (level i) i r root
        (l ∙ sym (length-proof_of depth level root t i)) u
        (computed_root-proof depth level root t i h) e
