-- ===== src/Base/Strings.antt =====
-- Rust's `String`: trimming, joining, and lists of strings as sets.
use Prim.Native.Char.{code}
use Prim.Native.Nat.{ℕ, ◌≤◌}
use Prim.Native.String.{String}
use mathlib.Core.Path.{◌≡◌, refl}
use mathlib.Core.Logic.{◌≢◌, ◌↔◌}
use mathlib.Core.Bool.{Bool, false, ◌||◌, ◌&&◌}
use mathlib.Core.List.{List, [], ◌∷◌}
use native.Mathlib.Omega.{arith}
use text.Mathlib.Text.{◌==◌ as str_eq}
use text.Mathlib.TextEquality.{eq_iff}
use prelay_server.Base.Tests.{if◌then◌else◌, ◌==◌, leb}
use prelay_server.Base.Lists.{length, All}

-- `char::is_whitespace`, Unicode's White_Space.
unfoldable pub is_whitespace : ℕ → Bool
is_whitespace c =
    (leb 0x09 c && leb c 0x0d)
    || (c == 0x20
        || (c == 0x85
            || (c == 0xa0
                || (c == 0x1680
                    || ((leb 0x2000 c && leb c 0x200a)
                        || ((leb 0x2028 c && leb c 0x2029)
                            || (c == 0x202f || (c == 0x205f || c == 0x3000))))))))

trim_start : String → String
trim_start String.[] = String.[]
trim_start (String.◌∷◌ c s) =
    let rest = trim_start s in if is_whitespace (code c) then rest else String.◌∷◌ c s

trim_end : String → String
trim_end String.[] = String.[]
trim_end (String.◌∷◌ c s) = elim (trim_end s) [
  | String.[] ↦ if is_whitespace (code c) then String.[] else String.◌∷◌ c String.[]
  | String.◌∷◌ d t ↦ String.◌∷◌ c (String.◌∷◌ d t)
]

-- `str::trim`.
unfoldable pub str_trim : String → String
unfolding trim_start trim_end is_whitespace
str_trim s = trim_end (trim_start s)

trims : str_trim "  a b\n" ≡ "a b"
unfolding str_trim
trims = refl

unfoldable pub contains_str : String → List String → Bool
contains_str s [] = false
contains_str s (x ∷ xs) = str_eq x s || contains_str s xs

-- A `HashSet` collected from strings: each is inserted unless it is there.
unfoldable pub hash_set : List String → List String
unfolding contains_str
hash_set [] = []
hash_set (x ∷ xs) = let rest = hash_set xs in if contains_str x rest then rest else x ∷ rest

-- No string stands in the list twice.
unfoldable pub Distinct : List String → Type 0
Distinct [] = Unit
Distinct (x ∷ xs) = All (λ y. x ≢ y) xs × Distinct xs

pub contains_str-false :
    (s : String) (xs : List String) → (contains_str s xs ≡ false) ↔ All (λ y. s ≢ y) xs
unfolding contains_str
contains_str-false s [] = (λ h. tt, λ h. refl)
contains_str-false s (x ∷ xs) = ground (arith, eq_iff x s, contains_str-false s xs)

contains-hash_set :
    (s : String) (xs : List String) → contains_str s (hash_set xs) ≡ contains_str s xs
unfolding contains_str hash_set
contains-hash_set s [] = refl
contains-hash_set s (x ∷ xs) =
    ground (arith, contains-hash_set s xs, contains-hash_set x xs, eq_iff x s)

length-hash_set : (xs : List String) → length (hash_set xs) ≤ length xs
unfolding hash_set
length-hash_set [] = omega arith
length-hash_set (x ∷ xs) = ground (arith, length-hash_set xs)

-- Counting the set tells whether a string is repeated.
pub length-hash_set-Distinct : (xs : List String) → (length (hash_set xs) ≡ length xs) ↔ Distinct xs
unfolding hash_set Distinct
length-hash_set-Distinct [] = (λ h. tt, λ h. refl)
length-hash_set-Distinct (x ∷ xs) = ground (
  arith,
  length-hash_set-Distinct xs,
  length-hash_set xs,
  contains-hash_set x xs,
  contains_str-false x xs,
)
