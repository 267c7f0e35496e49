-- ===== src/Config/Networks.antt =====
-- Which networks resolve.
use set.Prelude.{
  ℕ, ◌≡◌, refl, Bool, ◌||◌, List, [], ◌∷◌, none, some, arith, ◌==◌, inl, inr, if◌then◌else◌,
  Bool-cases,
}
use set.Prelude.Text.{Text, codes, text_eq}
use set.Config.{
  named, chain, networks, index, if_found, names_with, get_network_names_by_chain_id,
  resolve_network_name,
}

module _ (inherited : Text → Bool) where
  -- The name is a key of the object, or one that every object inherits.
  abbrev pub has_key : {A : Type 0} → Text → List (Text × A) → Bool
  has_key name [] = inherited name
  has_key name ((k, a) ∷ m) = text_eq k name || has_key name m

  -- An index is truthy if the key is there, or every object inherits it.
  if_found-index :
      {A : Type 0} (name : Text) (m : List (Text × A))
      → if_found name (index inherited name m) ≡ (if has_key name m then some name else none)
  unfolding index
  if_found-index name [] = elim (Bool-cases (inherited name)) [
    | inl y ↦ rw y refl
    | inr y ↦ rw y refl
  ]
  if_found-index name ((k, a) ∷ m) = elim (Bool-cases (text_eq k name)) [
    | inl y ↦ rw y refl
    | inr y ↦ rw y (if_found-index name m)
  ]

  -- A chain id resolves only if it is that of mainnet, since the other two networks share theirs. A name
  -- resolves, to itself, exactly if it is that of a known network or one that every object inherits.
  pub resolve_network_name_lem :
      (id : ℕ) (name : Text)
      → (resolve_network_name inherited (chain id)
          ≡ (if id == 84532000 then some (codes "mainnet") else none))
        × (resolve_network_name inherited (named name)
            ≡ (if has_key name networks then some name else none))
  unfolding resolve_network_name get_network_names_by_chain_id names_with index
  resolve_network_name_lem id name = (ground arith, if_found-index name networks)
