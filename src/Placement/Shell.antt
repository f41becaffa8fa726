-- ===== src/Placement/Shell.antt =====
-- The words of the reconcile command, as a POSIX shell reads them back.
use mathlib.Core.Option
use tinvest.Prelude.{
  ℕ, Bool, true, false, not, leb, both_true, ◌&&◌, ◌||◌, ◌≡◌, refl, ap, ◌∙◌, [], ◌∷◌, ◌++◌, Option,
  none, some, Text, is_empty, Bool-cases, inl, inr, arith, if◌then◌else◌, ◌==◌,
}
use tinvest.Placement.{is_safe, all_safe, escape_quotes, shell_command_arg}

pub data Quote : Type 0 where
  outside single double : Quote

-- The bytes that a POSIX shell reads as themselves outside quotes, wherever they stand in a word: no
-- control byte, no space, none of ! " # $ % & ' ( ) * ; < = > ? [ \ ` { | } ~.
abbrev pub is_ordinary : ℕ → Bool
is_ordinary c = not (
    leb c 42
    || (leb 59 c && leb c 63)
    || (leb 91 c && leb c 92)
    || c == 96
    || (leb 123 c && leb c 127))

is_safe-ordinary : (c : ℕ) → is_safe c ≡ true → is_ordinary c ≡ true
is_safe-ordinary c h = ground arith

ordinary-unquoted : (c : ℕ) → is_ordinary c ≡ true → ((c == 39) ≡ false) × ((c == 34) ≡ false)
ordinary-unquoted c h = (ground arith, ground arith)

abbrev emit : ℕ → Option Text → Option Text
emit c rest = Option.map (λ t. c ∷ t) rest

-- One word of a command line, up to its end: none for what is not a single plain word, such as an
-- unquoted space, an operator, an expansion, or a quote that is not closed.
abbrev pub read_word : Quote → Text → Option Text
read_word outside [] = some []
read_word outside (c ∷ s) =
    if c == 39
    then read_word single s
    else if c == 34
    then read_word double s
    else if is_ordinary c
    then emit c (read_word outside s)
    else none
read_word single [] = none
read_word single (c ∷ s) = if c == 39 then read_word outside s else emit c (read_word single s)
read_word double [] = none
read_word double (c ∷ s) =
    if c == 34
    then read_word outside s
    else if c == 36 || c == 96 || c == 92
    then none
    else emit c (read_word double s)

read_word-safe : (s : Text) → all_safe s ≡ true → read_word outside s ≡ some s
read_word-safe [] h = refl
read_word-safe (c ∷ s) h =
    let (plain, rest) = both_true (is_safe c) (all_safe s) h in
    let ordinary = is_safe-ordinary c plain in
    let (single_free, double_free) = ordinary-unquoted c ordinary in
    rw (single_free, double_free, ordinary) (ap (emit c) (read_word-safe s rest))

read_word-quoted : (s : Text) → read_word single (escape_quotes s ++ 39 ∷ []) ≡ some s
unfolding escape_quotes
read_word-quoted [] = refl
read_word-quoted (c ∷ s) = elim (Bool-cases (c == 39)) [
  | inl quote ↦ rw quote (ap (emit 39) (read_word-quoted s) ∙ ap (λ n. some (n ∷ s)) (ground arith))
  | inr other ↦ rw (other, other) (ap (emit c) (read_word-quoted s))
]

-- Every argument, of any bytes, that the program puts in the reconcile command is read back by a
-- shell as one word, that argument: it cannot be split, expanded or broken out of.
pub read_word-shell_command_arg :
    (arg : Text) → read_word outside (shell_command_arg arg) ≡ some arg
unfolding shell_command_arg
read_word-shell_command_arg arg = elim (Bool-cases (not (is_empty arg) && all_safe arg)) [
  | inl plain ↦ rw plain (read_word-safe arg (ground arith))
  | inr quoted ↦ rw quoted (read_word-quoted arg)
]
