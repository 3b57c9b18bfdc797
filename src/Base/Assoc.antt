-- ===== src/Base/Assoc.antt =====
-- Hash maps keyed by strings, as association lists that are read through `get`.
use Prim.Native.String.{String}
use mathlib.Core.Path.{◌≡◌, refl, subst}
use mathlib.Core.Logic.{inl, inr}
use mathlib.Core.Bool.{true, false}
use mathlib.Core.List.{List, [], ◌∷◌}
use mathlib.Core.Option.{Option, none, some}
use native.Mathlib.Omega.{arith}
use text.Mathlib.Text.{◌==◌ as str_eq}
use text.Mathlib.TextEquality.{eq_iff}
use text.Mathlib.TextPositions.{eq_refl}
use prelay_server.Base.Tests.{if◌then◌else◌, Bool-cases}
use prelay_server.Base.Lists.{All}

module _ {ℓ} {V : Type ℓ} where
  unfoldable pub get : String → List (String × V) → Option V
  get k [] = none
  get k ((j, v) ∷ m) = if str_eq j k then some v else get k m

  unfoldable pub insert : String → V → List (String × V) → List (String × V)
  insert k v [] = (k, v) ∷ []
  insert k v ((j, w) ∷ m) = if str_eq j k then (k, v) ∷ m else (j, w) ∷ insert k v m

  unfoldable pub remove : String → List (String × V) → List (String × V)
  remove k [] = []
  remove k ((j, w) ∷ m) = let rest = remove k m in if str_eq j k then rest else (j, w) ∷ rest

  pub get-insert :
      (k j : String) (v : V) (m : List (String × V))
      → get j (insert k v m) ≡ (if str_eq k j then some v else get j m)
  unfolding get insert
  get-insert k j v [] = refl
  get-insert k j v ((i, w) ∷ m) =
      ground (arith, eq_iff k j, eq_iff i k, eq_iff i j, get-insert k j v m)

  pub get-remove :
      (k j : String) (m : List (String × V))
      → get j (remove k m) ≡ (if str_eq k j then none else get j m)
  unfolding get remove
  get-remove k j [] = ground arith
  get-remove k j ((i, w) ∷ m) = ground (arith, eq_iff k j, eq_iff i k, eq_iff i j, get-remove k j m)

  pub get-insert_self : (k : String) (v : V) (m : List (String × V)) → get k (insert k v m) ≡ some v
  get-insert_self k v m = simp (get-insert, eq_refl)

  pub All-insert {κ} :
      (P : String × V → Type κ) (k : String) (v : V) (m : List (String × V))
      → P (k, v)
      → All P m
      → All P (insert k v m)
  unfolding insert
  All-insert P k v [] p all = (p, tt)
  All-insert P k v ((j, w) ∷ m) p all =
      elim (str_eq j k) as (λ b. All P (if b then (k, v) ∷ m else (j, w) ∷ insert k v m)) [
        | true ↦ (p, all.1)
        | false ↦ (all.0, All-insert P k v m p all.1)
      ]

  pub All-get {κ} :
      (P : String × V → Type κ) (k : String) (v : V) (m : List (String × V))
      → All P m
      → get k m ≡ some v
      → P (k, v)
  unfolding get
  All-get P k v [] all h = cc
  All-get P k v ((j, w) ∷ m) all h = elim (Bool-cases (str_eq j k)) [
    | inl same ↦ let e : (j, w) ≡ (k, v) = ground (arith, eq_iff j k, same, h) in subst P e all.0
    | inr other ↦ All-get P k v m all.1 (ground (arith, h, other))
  ]
