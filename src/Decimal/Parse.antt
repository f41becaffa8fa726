-- ===== src/Decimal/Parse.antt =====
-- ParseQuotation on a text of digits with a fractional part: what it finds on each side of the dot.
use tinvest.Prelude.{
  ℕ, ◌-◌, ◌^◌, ◌≤◌, ◌<◌, ◌≡◌, refl, ap, ◌∙◌, Bool, true, false, [], ◌∷◌, ◌++◌, Option, none, some,
  arith, Text, is_empty, all_digits, length, replicate,
}
use tinvest.Prelude.Int.{pos}
use tinvest.Strconv.{format_nat, digits_value, parse_int}
use tinvest.Strconv.RoundTrip.{
  digits_value-format_nat, starts_digit, starts_digit-format_nat, parse_int-digits,
  parse_magnitude-pos,
}
use tinvest.Decimal.{
  ok, signed, before_dot, after_dot, parse_fraction, convert_parts, parse_parts, parse_unsigned,
}

-- A fractional part as it stands behind the digits: nothing, or a dot and its digits.
abbrev pub dotted : Option Text → Text
dotted none = []
dotted (some g) = b'.' ∷ g

abbrev pub fraction_of : Option Text → Text
fraction_of none = []
fraction_of (some g) = g

before_dot-digits :
    (d : Text) (o : Option Text) → all_digits d ≡ true → before_dot (d ++ dotted o) ≡ d
unfolding before_dot
before_dot-digits [] none h = refl
before_dot-digits [] (some g) h = refl
before_dot-digits (c ∷ d) o h = ground (arith, before_dot-digits d o)

after_dot-digits :
    (d : Text) (o : Option Text) → all_digits d ≡ true → after_dot (d ++ dotted o) ≡ fraction_of o
unfolding after_dot
after_dot-digits [] none h = refl
after_dot-digits [] (some g) h = refl
after_dot-digits (c ∷ d) o h = ground (arith, after_dot-digits d o)

starts_digit_of_all : (s : Text) → 0 < length s → all_digits s ≡ true → starts_digit s ≡ true
starts_digit_of_all [] h a = absurd (omega arith)
starts_digit_of_all (c ∷ s) h a = ground arith

-- Digits that stand for a number that fits are read as that number.
pub parse_int-value :
    (s : Text) (n : ℕ)
    → starts_digit s ≡ true
    → digits_value 0 s ≡ some n
    → n < 2 ^ 63
    → parse_int s ≡ some (pos n)
parse_int-value s n d e h = parse_int-digits s d ∙ parse_magnitude-pos s n d e h

-- A fraction of at most nine digits is read as the number of its nine digits.
pub parse_fraction-padded :
    (g p : Text) (n : ℕ)
    → g ++ replicate (9 - length g) b'0' ≡ p
    → length p ≡ 9
    → all_digits p ≡ true
    → digits_value 0 p ≡ some n
    → n < 10 ^ 9
    → parse_fraction g ≡ some (pos n)
unfolding parse_fraction digits_value
parse_fraction-padded [] p n pad l a e h =
    let value : digits_value 0 (replicate 9 b'0') ≡ some n = ap (digits_value 0) pad ∙ e in
    ground arith
parse_fraction-padded (c ∷ s) p n pad l a e h =
    rw pad (parse_int-value p n (starts_digit_of_all p (omega arith) a) e (omega arith))

not-is_empty : (s : Text) → starts_digit s ≡ true → is_empty s ≡ false
not-is_empty [] h = cc
not-is_empty (c ∷ s) h = refl

parse_unsigned-parts :
    (negative : Bool) (d : Text) (o : Option Text)
    → starts_digit d ≡ true
    → all_digits d ≡ true
    → parse_unsigned negative (d ++ dotted o) ≡ parse_parts negative d (fraction_of o)
unfolding parse_unsigned
parse_unsigned-parts negative [] o h e = cc
parse_unsigned-parts negative (c ∷ s) o h e =
    ap (λ w. parse_parts negative w (after_dot ((c ∷ s) ++ dotted o)))
      (before_dot-digits (c ∷ s) o e)
    ∙ ap (λ f. parse_parts negative (c ∷ s) f) (after_dot-digits (c ∷ s) o e)

parse_parts-digits :
    (negative : Bool) (d g : Text)
    → starts_digit d ≡ true
    → all_digits d ≡ true
    → all_digits g ≡ true
    → length g ≤ 9
    → parse_parts negative d g ≡ convert_parts negative d g
unfolding parse_parts
parse_parts-digits negative d g h e f l = ground (arith, not-is_empty d h)

-- What stands behind the sign is read as the two numbers, with the sign on both.
pub parse_unsigned-digits :
    (negative : Bool) (d : Text) (o : Option Text)
    → starts_digit d ≡ true
    → all_digits d ≡ true
    → all_digits (fraction_of o) ≡ true
    → length (fraction_of o) ≤ 9
    → parse_unsigned negative (d ++ dotted o) ≡ convert_parts negative d (fraction_of o)
parse_unsigned-digits negative d o h e f l =
    parse_unsigned-parts negative d o h e ∙ parse_parts-digits negative d (fraction_of o) h e f l

pub convert_parts-value :
    (negative : Bool) (a n : ℕ) (g : Text)
    → a < 2 ^ 63
    → parse_fraction g ≡ some (pos n)
    → convert_parts negative (format_nat a) g
      ≡ ok (record { units = signed negative (pos a); nano = signed negative (pos n) })
unfolding convert_parts
convert_parts-value negative a n g fits e = ground (
  arith,
  parse_int-value (format_nat a) a (starts_digit-format_nat a) (digits_value-format_nat a) fits,
)
