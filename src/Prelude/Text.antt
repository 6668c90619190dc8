-- ===== src/Prelude/Text.antt =====
-- The parts of Rust's `str` and `char` that the program uses. A text is the list of its Unicode
-- scalar values; `len` counts its UTF-8 bytes.
pub mod Laws
use Prim.Native.Char.{code}
use Prim.Native.String.{String}
use patchwright.Prelude.{
  ℕ, ◌+◌, Bool, true, false, ◌&&◌, ◌||◌, List, [], ◌∷◌, Option, none, some, ltb, leb, if◌then◌else◌,
  is_empty, ◌==◌, nat_eq, map,
}

abbrev pub Text : Type 0
Text = List ℕ

-- A literal of the source.
abbrev pub codes : String → Text
codes String.[] = []
codes (String.◌∷◌ c s) = code c ∷ codes s

abbrev between : ℕ → ℕ → ℕ → Bool
between lo hi c = leb lo c && leb c hi

-- `char::is_whitespace`: the Unicode property White_Space.
unfoldable pub is_whitespace : ℕ → Bool
is_whitespace c =
    between 9 13 c
    || c == 32
    || c == 0x85
    || c == 0xA0
    || c == 0x1680
    || between 0x2000 0x200A c
    || c == 0x2028
    || c == 0x2029
    || c == 0x202F
    || c == 0x205F
    || c == 0x3000

-- `char::is_control`: the Unicode category Cc.
unfoldable pub is_control : ℕ → Bool
is_control c = leb c 0x1F || between 0x7F 0x9F c

-- `u8::is_ascii_hexdigit`.
unfoldable pub is_ascii_hexdigit : ℕ → Bool
is_ascii_hexdigit c = between b'0' b'9' c || between b'a' b'f' c || between b'A' b'F' c

pub trim_start : Text → Text
trim_start [] = []
trim_start (c ∷ s) = let rest = trim_start s in if is_whitespace c then rest else c ∷ s

pub trim_end : Text → Text
trim_end [] = []
trim_end (c ∷ s) =
    let rest = trim_end s in if is_empty rest && is_whitespace c then [] else c ∷ rest

unfoldable pub trim : Text → Text
unfolding trim_start trim_end is_whitespace
trim s = trim_end (trim_start s)

-- `char::len_utf8` and `str::len`.
pub len_utf8 : ℕ → ℕ
len_utf8 c = if ltb c 0x80 then 1 else if ltb c 0x800 then 2 else if ltb c 0x10000 then 3 else 4

unfoldable pub len : Text → ℕ
unfolding len_utf8
len [] = 0
len (c ∷ s) = len_utf8 c + len s

pub lower : ℕ → ℕ
lower c = if between b'A' b'Z' c then c + 32 else c

unfoldable pub to_ascii_lowercase : Text → Text
unfolding lower
to_ascii_lowercase s = map lower s

unfoldable pub starts_with : Text → Text → Bool
starts_with s [] = true
starts_with [] (p ∷ ps) = false
starts_with (c ∷ s) (p ∷ ps) = c == p && starts_with s ps

-- `str::contains` of a text.
unfoldable pub contains_text : Text → Text → Bool
unfolding starts_with
contains_text [] p = starts_with [] p
contains_text (c ∷ s) p = starts_with (c ∷ s) p || contains_text s p

-- `split_once` of a single character: what stands before and behind its first occurrence.
unfoldable pub split_once : ℕ → Text → Option (Text × Text)
split_once sep [] = none
split_once sep (c ∷ s) =
    let rest = split_once sep s in
    if c == sep
    then some ([], s)
    else elim rest [ none ↦ none | some (before, after) ↦ some (c ∷ before, after) ]
