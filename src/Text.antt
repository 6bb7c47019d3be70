-- ===== src/Text.antt =====
-- Rust's `str` as the list of its characters (code points), with the operations of the standard
-- library that the program calls on it. A byte offset is walked over the characters' UTF-8 lengths.
pub mod Laws
pub mod Patterns
pub mod Chars
pub mod Bytes
pub mod Numbers
use Prim.Native.Char.{code}
use Prim.Native.String.{String}
use scim_server.Common.{
  ℕ, zero, suc, ◌+◌, ◌-◌, ◌≤◌, compare, Ordering, ◌≡◌, Bool, true, false, ◌&&◌, ◌||◌, Option, none,
  some, List, [], ◌∷◌, ◌++◌, ltb, leb, nat_eq, if◌then◌else◌, length, take, drop,
}

abbrev pub Text : Type 0
Text = List ℕ

-- The characters of a literal.
abbrev pub codes : String → Text
codes String.[] = []
codes (String.◌∷◌ c s) = code c ∷ codes s

infix 50 ◌==◌
abbrev pub ◌==◌ : Text → Text → Bool
[] == [] = true
[] == (d ∷ t) = false
(c ∷ s) == [] = false
(c ∷ s) == (d ∷ t) = nat_eq c d && s == t

-- The order of `String`: UTF-8 keeps the order of code points.
unfoldable pub cmp : Text → Text → Ordering
cmp [] [] = Ordering.eq
cmp [] (d ∷ t) = Ordering.lt
cmp (c ∷ s) [] = Ordering.gt
cmp (c ∷ s) (d ∷ t) =
    let rest = cmp s t in
    elim (compare c d) [
      | Ordering.lt ↦ Ordering.lt
      | Ordering.eq ↦ rest
      | Ordering.gt ↦ Ordering.gt
    ]

unfoldable pub starts_with : Text → Text → Bool
starts_with s [] = true
starts_with [] (p ∷ ps) = false
starts_with (c ∷ s) (p ∷ ps) = nat_eq c p && starts_with s ps

-- `s.strip_prefix(p)`
unfoldable pub strip_prefix : Text → Text → Option Text
strip_prefix s [] = some s
strip_prefix [] (p ∷ ps) = none
strip_prefix (c ∷ s) (p ∷ ps) = let rest = strip_prefix s ps in if nat_eq c p then rest else none

unfoldable pub ends_with : Text → Text → Bool
ends_with s p = leb (length p) (length s) && drop (length s - length p) s == p

-- `s.strip_suffix(p)`
unfoldable pub strip_suffix : Text → Text → Option Text
unfolding ends_with
strip_suffix s p = if ends_with s p then some (take (length s - length p) s) else none

-- `s.contains(p)` for a string pattern
unfoldable pub contains : Text → Text → Bool
unfolding starts_with
contains [] p = starts_with [] p
contains (c ∷ s) p = starts_with (c ∷ s) p || contains s p

-- `s.find(c)`: the position of the first `c`
unfoldable pub find : ℕ → Text → Option ℕ
find c [] = none
find c (d ∷ s) =
    let rest = find c s in
    if nat_eq d c then some 0 else elim rest [ none ↦ none | some i ↦ some (suc i) ]

-- `s.rfind(c)`: the position of the last `c`
unfoldable pub rfind : ℕ → Text → Option ℕ
rfind c [] = none
rfind c (d ∷ s) = elim (rfind c s) [
  | some i ↦ some (suc i)
  | none ↦ if nat_eq d c then some 0 else none
]

unfoldable pub prepend : ℕ → List Text → List Text
prepend d [] = (d ∷ []) ∷ []
prepend d (w ∷ ws) = (d ∷ w) ∷ ws

-- `s.split(c)`: never empty
unfoldable pub split : ℕ → Text → List Text
unfolding prepend
split c [] = [] ∷ []
split c (d ∷ s) = let rest = split c s in if nat_eq d c then [] ∷ rest else prepend d rest

-- `parts.join(sep)`
unfoldable pub join : Text → List Text → Text
join sep [] = []
join sep (w ∷ []) = w
join sep (w ∷ v ∷ ws) = w ++ (sep ++ join sep (v ∷ ws))

-- The characters with Unicode's property White_Space.
abbrev pub is_whitespace : ℕ → Bool
is_whitespace c =
    leb 9 c && leb c 13
    || nat_eq c 0x20
    || nat_eq c 0x85
    || nat_eq c 0xa0
    || nat_eq c 0x1680
    || leb 0x2000 c && leb c 0x200a
    || nat_eq c 0x2028
    || nat_eq c 0x2029
    || nat_eq c 0x202f
    || nat_eq c 0x205f
    || nat_eq c 0x3000

unfoldable pub trim_start : Text → Text
trim_start [] = []
trim_start (c ∷ s) = let rest = trim_start s in if is_whitespace c then rest else c ∷ s

unfoldable pub trim_end : Text → Text
trim_end [] = []
trim_end (c ∷ s) = elim (trim_end s) [
  | [] ↦ if is_whitespace c then [] else c ∷ []
  | d ∷ t ↦ c ∷ d ∷ t
]

unfoldable pub trim : Text → Text
unfolding trim_start trim_end
trim s = trim_end (trim_start s)

unfoldable pub ascii_lower : ℕ → ℕ
ascii_lower c = if leb 65 c && leb c 90 then c + 32 else c

abbrev pub is_ascii_alphabetic : ℕ → Bool
is_ascii_alphabetic c = leb 65 c && leb c 90 || leb 97 c && leb c 122

abbrev pub is_ascii_digit : ℕ → Bool
is_ascii_digit c = leb 48 c && leb c 57

-- The bytes that UTF-8 spends on a character.
abbrev pub len_utf8 : ℕ → ℕ
len_utf8 c = if ltb c 0x80 then 1 else if ltb c 0x800 then 2 else if ltb c 0x10000 then 3 else 4

-- `(&s[..i], &s[i..])` at a byte offset; `none` is the panic at an offset inside a character or
-- past the end.
unfoldable pub split_at_byte : ℕ → Text → Option (Text × Text)
split_at_byte zero s = some ([], s)
split_at_byte (suc i) [] = none
split_at_byte (suc i) (c ∷ s) =
    let rest = split_at_byte (suc i - len_utf8 c) s in
    if leb (len_utf8 c) (suc i)
    then elim rest [ none ↦ none | some (a, b) ↦ some (c ∷ a, b) ]
    else none
