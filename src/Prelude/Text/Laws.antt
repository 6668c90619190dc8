-- ===== src/Prelude/Text/Laws.antt =====
-- Laws of trimming and of ASCII lowercase, both idempotent.
use patchwright.Prelude.{
  ℕ, ◌≡◌, ◌∙◌, ap, true, ◌≤◌, refl, inl, inr, false, [], ◌∷◌, arith, Bool-cases, length, all,
}
use patchwright.Prelude.Text.{
  Text, is_whitespace, is_ascii_hexdigit, trim_start, trim_end, trim, lower, len_utf8, len,
  to_ascii_lowercase, starts_with, contains_text,
}

trim_start-trim_start : (s : Text) → trim_start (trim_start s) ≡ trim_start s
unfolding trim_start
trim_start-trim_start [] = refl
trim_start-trim_start (c ∷ s) = ground (arith, trim_start-trim_start s)

trim_end-trim_end : (s : Text) → trim_end (trim_end s) ≡ trim_end s
unfolding trim_end
trim_end-trim_end [] = refl
trim_end-trim_end (c ∷ s) = ground (arith, trim_end-trim_end s)

length-trim_start : (s : Text) → length (trim_start s) ≤ length s
unfolding trim_start
length-trim_start [] = omega arith
length-trim_start (c ∷ s) = ground (arith, length-trim_start s)

starts_clean : (c : ℕ) (s : Text) → trim_start (c ∷ s) ≡ c ∷ s → is_whitespace c ≡ false
unfolding trim_start
starts_clean c s h = elim (Bool-cases (is_whitespace c)) [
  | inl white ↦ absurd (omega (arith, length-trim_start s, ap length (rw (white, trim_start) at h)))
  | inr black ↦ black
]

-- Trimming the end of a text that starts with no white space leaves its start alone.
trim_start-trim_end : (s : Text) → trim_start s ≡ s → trim_start (trim_end s) ≡ trim_end s
unfolding trim_end trim_start
trim_start-trim_end [] h = refl
trim_start-trim_end (c ∷ s) h = ground (arith, starts_clean c s h)

pub trim_idempotent : (s : Text) → trim (trim s) ≡ trim s
unfolding trim
trim_idempotent s =
    ap trim_end (trim_start-trim_end (trim_start s) (trim_start-trim_start s))
    ∙ trim_end-trim_end (trim_start s)

lower-lower : (c : ℕ) → lower (lower c) ≡ lower c
unfolding lower
lower-lower c = ground arith

len_utf8-lower : (c : ℕ) → len_utf8 (lower c) ≡ len_utf8 c
unfolding lower len_utf8
len_utf8-lower c = ground arith

is_ascii_hexdigit-lower : (c : ℕ) → is_ascii_hexdigit (lower c) ≡ is_ascii_hexdigit c
unfolding lower is_ascii_hexdigit
is_ascii_hexdigit-lower c = ground arith

pub to_ascii_lowercase-to_ascii_lowercase :
    (s : Text) → to_ascii_lowercase (to_ascii_lowercase s) ≡ to_ascii_lowercase s
unfolding to_ascii_lowercase
to_ascii_lowercase-to_ascii_lowercase [] = refl
to_ascii_lowercase-to_ascii_lowercase (c ∷ s) =
    rw (lower-lower c, to_ascii_lowercase-to_ascii_lowercase s) refl

pub len-to_ascii_lowercase : (s : Text) → len (to_ascii_lowercase s) ≡ len s
unfolding to_ascii_lowercase len
len-to_ascii_lowercase [] = refl
len-to_ascii_lowercase (c ∷ s) = rw (len_utf8-lower c, len-to_ascii_lowercase s) refl

pub all-to_ascii_lowercase :
    (s : Text) → all (to_ascii_lowercase s) is_ascii_hexdigit ≡ all s is_ascii_hexdigit
unfolding to_ascii_lowercase
all-to_ascii_lowercase [] = refl
all-to_ascii_lowercase (c ∷ s) = rw (is_ascii_hexdigit-lower c, all-to_ascii_lowercase s) refl

trim_end-slash : (s : Text) → starts_with (trim_end (b'/' ∷ s)) (b'/' ∷ []) ≡ true
unfolding trim_end is_whitespace starts_with
trim_end-slash s = ground arith

-- White space before a slash is trimmed away.
pub starts_with-trim :
    (blank : ℕ) (s : Text)
    → is_whitespace blank ≡ true
    → starts_with (trim (blank ∷ b'/' ∷ s)) (b'/' ∷ []) ≡ true
unfolding trim trim_start
starts_with-trim blank s h = rw h (trim_end-slash s)

starts_with-trim_end : (s p : Text) → starts_with s p ≡ false → starts_with (trim_end s) p ≡ false
unfolding trim_end starts_with
starts_with-trim_end [] p h = h
starts_with-trim_end (c ∷ s) [] h = h
starts_with-trim_end (c ∷ s) (q ∷ p) h = ground (arith, starts_with-trim_end s p)

contains_text-trim_end :
    (s : Text) (p : ℕ) (ps : Text)
    → contains_text s (p ∷ ps) ≡ false
    → contains_text (trim_end s) (p ∷ ps) ≡ false
unfolding trim_end contains_text starts_with
contains_text-trim_end [] p ps h = h
contains_text-trim_end (c ∷ s) p ps h =
    ground (arith, contains_text-trim_end s p ps, starts_with-trim_end s ps)

contains_text-trim_start :
    (s p : Text) → contains_text s p ≡ false → contains_text (trim_start s) p ≡ false
unfolding trim_start contains_text
contains_text-trim_start [] p h = h
contains_text-trim_start (c ∷ s) p h = ground (arith, contains_text-trim_start s p)

-- Trimming a text brings in no text that it did not contain.
pub contains_text-trim :
    (s : Text) (p : ℕ) (ps : Text)
    → contains_text s (p ∷ ps) ≡ false
    → contains_text (trim s) (p ∷ ps) ≡ false
unfolding trim
contains_text-trim s p ps h =
    contains_text-trim_end (trim_start s) p ps (contains_text-trim_start s (p ∷ ps) h)
