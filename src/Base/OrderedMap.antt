-- ===== src/Base/OrderedMap.antt =====
-- `BTreeMap<usize, V>`: an association list in the order of its keys.
use Prim.Native.Nat.{ℕ, compare, Ordering}
use mathlib.Core.List.{List, [], ◌∷◌}

module _ {ℓ} {V : Type ℓ} where
  -- `f` applied to the entry of a key, or to the default that is put there.
  unfoldable pub update_entry : ℕ → V → (V → V) → List (ℕ × V) → List (ℕ × V)
  update_entry i default f [] = (i, f default) ∷ []
  update_entry i default f ((j, v) ∷ m) =
      let later = update_entry i default f m in
      elim (compare i j) [
        | Ordering.lt ↦ (i, f default) ∷ (j, v) ∷ m
        | Ordering.eq ↦ (j, f v) ∷ m
        | Ordering.gt ↦ (j, v) ∷ later
      ]

  -- The entry of a key, or the default.
  unfoldable pub entry_or : ℕ → V → List (ℕ × V) → V
  entry_or i default [] = default
  entry_or i default ((j, v) ∷ m) = elim (compare i j) [
    | Ordering.lt ↦ default
    | Ordering.eq ↦ v
    | Ordering.gt ↦ entry_or i default m
  ]
