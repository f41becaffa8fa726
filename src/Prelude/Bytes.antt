-- ===== src/Prelude/Bytes.antt =====
-- Go strings as lists of bytes, with what the program uses of package strings.
use Prim.Native.Nat.{ℕ, zero, suc, ◌-◌}
use Prim.Native.Char.{code}
use Prim.Native.String.{String}
use mathlib.Core.Path.{◌≡◌, refl}
use mathlib.Core.Bool.{Bool, true, false, ◌&&◌, ◌||◌}
use mathlib.Core.List.{List, [], ◌∷◌, ◌++◌, reverse, reverse-append, reverse-reverse}
use native.Mathlib.Omega.{arith}
use tinvest.Prelude.Tests.{leb, ◌==◌, if◌then◌else◌}

abbrev pub Text : Type 0
Text = List ℕ

-- The bytes of an ASCII literal.
abbrev pub codes : String → Text
codes String.[] = []
codes (String.◌∷◌ c s) = code c ∷ codes s

-- `s == t` on strings.
abbrev pub text_eq : Text → Text → Bool
text_eq [] [] = true
text_eq [] (y ∷ ys) = false
text_eq (x ∷ xs) [] = false
text_eq (x ∷ xs) (y ∷ ys) = (x == y) && text_eq xs ys

pub text_eq_sound : (s t : Text) → text_eq s t ≡ true → s ≡ t
text_eq_sound [] [] h = refl
text_eq_sound [] (y ∷ ys) h = cc
text_eq_sound (x ∷ xs) [] h = cc
text_eq_sound (x ∷ xs) (y ∷ ys) h = ground (arith, text_eq_sound xs ys)

pub text_eq_refl : (s : Text) → text_eq s s ≡ true
text_eq_refl [] = refl
text_eq_refl (x ∷ xs) = ground (arith, text_eq_refl xs)

abbrev pub is_empty : Text → Bool
is_empty [] = true
is_empty (x ∷ xs) = false

abbrev pub is_digit : ℕ → Bool
is_digit c = leb b'0' c && leb c b'9'

-- The loops that accept a text only if each of its bytes is a digit.
abbrev pub all_digits : Text → Bool
all_digits [] = true
all_digits (c ∷ s) = is_digit c && all_digits s

-- unicode.IsSpace over UTF-8: the bytes of one space at the head of a text, 0 if there is none.
is_space1 : ℕ → Bool
is_space1 a = (leb 9 a && leb a 13) || a == 32

is_space2 : ℕ → ℕ → Bool
is_space2 a b = a == 0xC2 && (b == 0x85 || b == 0xA0)

is_space3 : ℕ → ℕ → ℕ → Bool
is_space3 a b c =
    (a == 0xE1 && b == 0x9A && c == 0x80)
    || (a == 0xE2
        && b == 0x80
        && ((leb 0x80 c && leb c 0x8A) || c == 0xA8 || c == 0xA9 || c == 0xAF))
    || (a == 0xE2 && b == 0x81 && c == 0x9F)
    || (a == 0xE3 && b == 0x80 && c == 0x80)

unfoldable pub space_first : Text → ℕ
unfolding is_space1 is_space2 is_space3
space_first [] = 0
space_first (a ∷ []) = if is_space1 a then 1 else 0
space_first (a ∷ b ∷ []) = if is_space1 a then 1 else if is_space2 a b then 2 else 0
space_first (a ∷ b ∷ c ∷ s) =
    if is_space1 a then 1 else if is_space2 a b then 2 else if is_space3 a b c then 3 else 0

-- The same at the head of a reversed text.
unfoldable pub space_last : Text → ℕ
unfolding is_space1 is_space2 is_space3
space_last [] = 0
space_last (a ∷ []) = if is_space1 a then 1 else 0
space_last (a ∷ b ∷ []) = if is_space1 a then 1 else if is_space2 b a then 2 else 0
space_last (a ∷ b ∷ c ∷ s) =
    if is_space1 a then 1 else if is_space2 b a then 2 else if is_space3 c b a then 3 else 0

-- Drops spaces at the head, `k` more bytes of the current one first.
unfoldable pub skip_spaces : (Text → ℕ) → ℕ → Text → Text
skip_spaces space k [] = []
skip_spaces space (suc k) (x ∷ s) = skip_spaces space k s
skip_spaces space zero (x ∷ s) =
    let rest = skip_spaces space (space (x ∷ s) - 1) s in if space (x ∷ s) == 0 then x ∷ s else rest

-- strings.TrimSpace
unfoldable pub trim_space : Text → Text
trim_space s = reverse (skip_spaces space_last 0 (reverse (skip_spaces space_first 0 s)))

-- Visible ASCII: no byte of a space.
abbrev pub is_plain : ℕ → Bool
is_plain c = leb 33 c && leb c 127

abbrev pub all_plain : Text → Bool
all_plain [] = true
all_plain (c ∷ s) = is_plain c && all_plain s

pub all_plain-append :
    (s t : Text) → all_plain s ≡ true → all_plain t ≡ true → all_plain (s ++ t) ≡ true
all_plain-append [] t h k = k
all_plain-append (c ∷ s) t h k = ground (arith, all_plain-append s t)

pub all_plain-digits : (s : Text) → all_digits s ≡ true → all_plain s ≡ true
all_plain-digits [] h = refl
all_plain-digits (c ∷ s) h = ground (arith, all_plain-digits s)

all_plain-reverse : (s : Text) → all_plain s ≡ true → all_plain (reverse s) ≡ true
all_plain-reverse [] h = refl
all_plain-reverse (c ∷ s) h =
    rw (reverse-append (c ∷ []) s)
      (all_plain-append (reverse s) (c ∷ []) (all_plain-reverse s (ground arith)) (ground arith))

space_first-plain : (s : Text) → all_plain s ≡ true → space_first s ≡ 0
unfolding space_first
space_first-plain [] h = refl
space_first-plain (a ∷ []) h = ground arith
space_first-plain (a ∷ b ∷ []) h = ground arith
space_first-plain (a ∷ b ∷ c ∷ s) h = ground arith

space_last-plain : (s : Text) → all_plain s ≡ true → space_last s ≡ 0
unfolding space_last
space_last-plain [] h = refl
space_last-plain (a ∷ []) h = ground arith
space_last-plain (a ∷ b ∷ []) h = ground arith
space_last-plain (a ∷ b ∷ c ∷ s) h = ground arith

skip_spaces-eq : (space : Text → ℕ) (s : Text) → space s ≡ 0 → skip_spaces space 0 s ≡ s
unfolding skip_spaces
skip_spaces-eq space [] h = refl
skip_spaces-eq space (c ∷ s) h = rw h refl

-- A text of visible ASCII is its own trimming.
pub trim_space-plain : (s : Text) → all_plain s ≡ true → trim_space s ≡ s
unfolding trim_space
trim_space-plain s h = rw (skip_spaces-eq space_first s (space_first-plain s h)) (
    rw
      (skip_spaces-eq space_last (reverse s) (space_last-plain (reverse s) (all_plain-reverse s h)))
      (reverse-reverse s))
