-- ===== src/Text.antt =====
-- What the stream decoders use of Rust's strings. Bytes and text are lists of numbers: a byte below
-- 256, and a Unicode scalar value for a character.
pub mod Equality
use Prim.Native.Char.{code}
use Prim.Native.String.{String}
use prelay_server.Base.{
  ℕ, ◌+◌, ◌-◌, ◌*◌, Option, none, some, List, [], ◌∷◌, ◌++◌, Bool, true, false, if◌then◌else◌, leb,
  ltb, ◌==◌, ◌&&◌, ◌≡◌, refl, is_whitespace,
}

abbrev pub Bytes : Type 0
Bytes = List ℕ

abbrev pub Text : Type 0
Text = List ℕ

-- A UTF-8 sequence that is being read: the bytes still needed, the range of the next one, and the
-- value so far. Nothing is being read if none is needed.
record Pending : Type 0 where
  need : ℕ
  lo : ℕ
  hi : ℕ
  value : ℕ

abbrev idle : Pending
idle = record { need = 0; lo = 0; hi = 0; value = 0 }

abbrev pending : ℕ → ℕ → ℕ → ℕ → Pending
pending need lo hi value = record { need = need; lo = lo; hi = hi; value = value }

abbrev between : ℕ → ℕ → ℕ → Bool
between lo hi b = leb lo b && leb b hi

lead_byte : ℕ → Option (Pending × Option ℕ)
lead_byte b =
    if ltb b 0x80
    then some (idle, some b)
    else if between 0xc2 0xdf b
    then some (pending 1 0x80 0xbf (b - 0xc0), none)
    else if b == 0xe0
    then some (pending 2 0xa0 0xbf 0, none)
    else if b == 0xed
    then some (pending 2 0x80 0x9f 13, none)
    else if between 0xe1 0xef b
    then some (pending 2 0x80 0xbf (b - 0xe0), none)
    else if b == 0xf0
    then some (pending 3 0x90 0xbf 0, none)
    else if between 0xf1 0xf3 b
    then some (pending 3 0x80 0xbf (b - 0xf0), none)
    else if b == 0xf4
    then some (pending 3 0x80 0x8f 4, none)
    else none

utf8_byte : Pending → ℕ → Option (Pending × Option ℕ)
utf8_byte p b =
    let value = p.value * 64 + (b - 0x80) in
    if p.need == 0
    then lead_byte b
    else if between p.lo p.hi b
    then if p.need == 1
      then some (idle, some value)
      else some (pending (p.need - 1) 0x80 0xbf value, none)
    else none

abbrev emit : Option ℕ → Option Text → Option Text
emit none rest = rest
emit (some c) none = none
emit (some c) (some text) = some (c ∷ text)

utf8_from : Pending → Bytes → Option Text
utf8_from p [] = if p.need == 0 then some [] else none
utf8_from p (b ∷ bs) = elim (utf8_byte p b) [
  | none ↦ none
  | some (p', c) ↦ emit c (utf8_from p' bs)
]

-- `str::from_utf8`.
unfoldable pub from_utf8 : Bytes → Option Text
unfolding utf8_from utf8_byte lead_byte
from_utf8 = utf8_from idle

unfoldable pub trim_start : Text → Text
trim_start [] = []
trim_start (c ∷ cs) = let rest = trim_start cs in if is_whitespace c then rest else c ∷ cs

unfoldable pub trim_end : Text → Text
trim_end [] = []
trim_end (c ∷ cs) = elim (trim_end cs) [
  | [] ↦ if is_whitespace c then [] else c ∷ []
  | d ∷ ds ↦ c ∷ d ∷ ds
]

unfoldable pub trim : Text → Text
unfolding trim_start trim_end is_whitespace
trim text = trim_end (trim_start text)

unfoldable pub strip_prefix : Text → Text → Option Text
strip_prefix [] text = some text
strip_prefix (p ∷ ps) [] = none
strip_prefix (p ∷ ps) (c ∷ cs) = if p == c then strip_prefix ps cs else none

-- `lines.join("\n")`.
unfoldable pub join_lines : List Text → Text
join_lines [] = []
join_lines (line ∷ []) = line
join_lines (line ∷ next ∷ lines) = line ++ (b'\n' ∷ join_lines (next ∷ lines))

unfoldable pub text_eq : Text → Text → Bool
text_eq [] [] = true
text_eq [] (d ∷ ds) = false
text_eq (c ∷ cs) [] = false
text_eq (c ∷ cs) (d ∷ ds) = c == d && text_eq cs ds

decodes_three_bytes : from_utf8 (0xe4 ∷ 0xb8 ∷ 0x8a ∷ 0x41 ∷ []) ≡ some (0x4e0a ∷ 0x41 ∷ [])
unfolding from_utf8
decodes_three_bytes = refl

refuses_surrogate : from_utf8 (0xed ∷ 0xa0 ∷ 0x80 ∷ []) ≡ none
unfolding from_utf8
refuses_surrogate = refl

trims : trim (0x20 ∷ 0x41 ∷ 0x20 ∷ 0x42 ∷ 0x3000 ∷ []) ≡ 0x41 ∷ 0x20 ∷ 0x42 ∷ []
unfolding trim
trims = refl

-- The code points of a literal.
abbrev pub codes : String → Text
codes String.[] = []
codes (String.◌∷◌ c s) = code c ∷ codes s
