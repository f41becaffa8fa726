-- ===== src/Decimal/Bounds.antt =====
-- The values that ParseQuotation returns, and when DecimalString panics.
use native.Mathlib.Nat.{pow-suc, pow-le-pow_right}
use tinvest.Prelude.{
  ℕ, zero, suc, ◌+◌, ◌-◌, ◌*◌, ◌^◌, ◌≤◌, ◌<◌, ◌≡◌, ◌↔◌, refl, ap, sym, ◌∙◌, Bool, true, false, [],
  ◌∷◌, ◌++◌, none, some, arith, Text, is_digit, is_empty, all_digits, length, length-append,
  replicate, ◌==◌, Bool-cases, Option-cases, inl, inr, if◌then◌else◌, trim_space,
}
use mathlib.Core.Path.{subst}
use tinvest.Prelude.Int.{ℤ, pos, abs}
use tinvest.Strconv.{digits_value, parse_magnitude, parse_int, format_nat}
use tinvest.Strconv.RoundTrip.{starts_digit, parse_int-digits, digits_value-format_nat}
use tinvest.Decimal.{
  Quotation, ok, pad9, fraction_text, decimal_string, signed, before_dot, after_dot, parse_fraction,
  convert_parts, parse_parts, parse_unsigned, parse_signed, parse_quotation,
}
use native.Mathlib.Decide.{dec_lt}
use tinvest.Decimal.Parse.{dotted}
use tinvest.Decimal.Format.{fraction_text-IsWritten}
use tinvest.Decimal.RoundTrip.{IsContract}

scale : (acc d p v : ℕ) → d ≤ 9 → v < (acc * 10 + d + 1) * p → v < (acc + 1) * (p * 10)
scale acc d p v h k = grind arith

-- A value read from k digits is below 10^k.
digits_value-lt :
    (acc v : ℕ) (s : Text) → digits_value acc s ≡ some v → v < (acc + 1) * 10 ^ length s
unfolding digits_value
digits_value-lt acc v [] h = ground arith
digits_value-lt acc v (c ∷ s) h = elim (Bool-cases (is_digit c)) [
  | inl digit ↦ rw pow-suc (
      scale acc (c - b'0') (10 ^ length s) v (ground arith)
        (digits_value-lt (acc * 10 + (c - b'0')) v s (ground arith)))
  | inr other ↦ ground arith
]

-- A text that starts with a digit is read as a number that is not negative.
abbrev IsPos : ℕ → ℤ → Type 0
IsPos bound z = (n : ℕ) × (z ≡ pos n) × (n < bound)

parse_magnitude-IsPos :
    (s : Text) (z : ℤ)
    → parse_magnitude false s ≡ some z
    → (n : ℕ) × (digits_value 0 s ≡ some n) × (z ≡ pos n) × (n < 2 ^ 63)
unfolding parse_magnitude
parse_magnitude-IsPos [] z h = cc
parse_magnitude-IsPos (c ∷ s) z h = elim (Option-cases (digits_value 0 (c ∷ s))) [
  | inl unread ↦ cc (rw (unread, parse_magnitude) at h)
  | inr (n, read) ↦ (n, read, ground arith, ground arith)
]

length-replicate : (k c : ℕ) → length (replicate k c) ≡ k
length-replicate zero c = refl
length-replicate (suc k) c = ap suc (length-replicate k c)

parse_int-IsPos :
    (s : Text) (z : ℤ)
    → starts_digit s ≡ true
    → parse_int s ≡ some z
    → (n : ℕ) × (digits_value 0 s ≡ some n) × (z ≡ pos n) × (n < 2 ^ 63)
parse_int-IsPos s z d h = parse_magnitude-IsPos s z (sym (parse_int-digits s d) ∙ h)

digits_value-lt_nine : (p : Text) (n : ℕ) → length p ≡ 9 → digits_value 0 p ≡ some n → n < 10 ^ 9
digits_value-lt_nine p n nine value =
    let below : n < 1 * 10 ^ 9 = subst (λ k. n < 1 * 10 ^ k) nine (digits_value-lt 0 n p value) in
    omega arith

parse_fraction-IsPos :
    (s : Text) (z : ℤ)
    → all_digits s ≡ true
    → length s ≤ 9
    → parse_fraction s ≡ some z
    → IsPos (10 ^ 9) z
unfolding parse_fraction
parse_fraction-IsPos [] z a l h = (0, ground arith, omega arith)
parse_fraction-IsPos (c ∷ s) z a l h =
    let padded : Text = (c ∷ s) ++ replicate (9 - length (c ∷ s)) b'0' in
    let nine : length padded ≡ 9 = omega (
      arith,
      length-append (c ∷ s) (replicate (9 - length (c ∷ s)) b'0'),
      length-replicate (9 - length (c ∷ s)) b'0',
    ) in
    let (n, value, e, fits) = parse_int-IsPos padded z (ground arith) h in
    (n, e, digits_value-lt_nine padded n nine value)

signed-IsContract :
    (negative : Bool) (a n : ℕ)
    → a < 2 ^ 63
    → n < 10 ^ 9
    → IsContract (record { units = signed negative (pos a); nano = signed negative (pos n) })
unfolding signed
signed-IsContract false zero n h k = record { units_fit = h; nano_fits = k; same_sign = tt }
signed-IsContract false (suc a) n h k = record { units_fit = h; nano_fits = k; same_sign = tt }
signed-IsContract true zero zero h k = record { units_fit = h; nano_fits = k; same_sign = tt }
signed-IsContract true zero (suc n) h k = record { units_fit = h; nano_fits = k; same_sign = tt }
signed-IsContract true (suc a) zero h k = record { units_fit = h; nano_fits = k; same_sign = tt }
signed-IsContract true (suc a) (suc n) h k = record { units_fit = h; nano_fits = k; same_sign = tt }

convert_parts-IsContract :
    (negative : Bool) (whole fraction : Text) (q : Quotation)
    → starts_digit whole ≡ true
    → all_digits fraction ≡ true
    → length fraction ≤ 9
    → convert_parts negative whole fraction ≡ ok q
    → IsContract q
unfolding convert_parts
convert_parts-IsContract negative whole fraction q w f l h = elim (Option-cases (parse_int whole)) [
  | inl bad ↦ cc (rw (bad, convert_parts) at h)
  | inr (z, units) ↦ elim (Option-cases (parse_fraction fraction)) [
    | inl bad ↦ cc (rw (units, bad, convert_parts) at h)
    | inr (y, nano) ↦
        let (a, _, ea, fits) = parse_int-IsPos whole z w units in
        let (n, en, small) = parse_fraction-IsPos fraction y f l nano in
        let same : record { units = signed negative (pos a); nano = signed negative (pos n) } ≡ q =
          ground arith in
        subst IsContract same (signed-IsContract negative a n fits small)
  ]
]

starts_digit-whole :
    (w : Text)
    → all_digits (if is_empty w then b'0' ∷ [] else w) ≡ true
    → starts_digit (if is_empty w then b'0' ∷ [] else w) ≡ true
starts_digit-whole [] h = refl
starts_digit-whole (c ∷ w) h = ground arith

parse_parts-IsContract :
    (negative : Bool) (whole fraction : Text) (q : Quotation)
    → parse_parts negative whole fraction ≡ ok q
    → IsContract q
unfolding parse_parts
parse_parts-IsContract negative whole fraction q h =
    let whole' : Text = if is_empty whole then b'0' ∷ [] else whole in
    convert_parts-IsContract negative whole' fraction q (starts_digit-whole whole (ground arith))
      (ground arith) (ground arith) (ground arith)

parse_unsigned-IsContract :
    (negative : Bool) (s : Text) (q : Quotation) → parse_unsigned negative s ≡ ok q → IsContract q
unfolding parse_unsigned
parse_unsigned-IsContract negative [] q h = cc
parse_unsigned-IsContract negative (c ∷ s) q h =
    parse_parts-IsContract negative (before_dot (c ∷ s)) (after_dot (c ∷ s)) q h

parse_signed-IsContract : (s : Text) (q : Quotation) → parse_signed s ≡ ok q → IsContract q
unfolding parse_signed
parse_signed-IsContract [] q h = cc
parse_signed-IsContract (c ∷ s) q h = elim (Bool-cases (c == b'+')) [
  | inl plus ↦ parse_unsigned-IsContract false s q (ground arith)
  | inr unplus ↦ elim (Bool-cases (c == b'-')) [
    | inl minus ↦ parse_unsigned-IsContract true s q (ground arith)
    | inr bare ↦ parse_unsigned-IsContract false (c ∷ s) q (ground arith)
  ]
]

-- Whatever text ParseQuotation accepts, the result lies in the contract: its units are above the
-- least int64 and fit, its nano is below 10^9 in magnitude, and the two share a sign.
pub parse_quotation-IsContract :
    (s : Text) (q : Quotation) → parse_quotation s ≡ ok q → IsContract q
unfolding parse_quotation
parse_quotation-IsContract s q h = parse_signed-IsContract (trim_space s) q h

length-format_nat_long : (n : ℕ) → 10 ^ 9 ≤ n → 9 < length (format_nat n)
length-format_nat_long n h = elim (dec_lt 9 (length (format_nat n))) [
  | yes long ↦ long
  | no short ↦
      let value : n < 1 * 10 ^ length (format_nat n) =
        digits_value-lt 0 n (format_nat n) (digits_value-format_nat n) in
      let capped : 10 ^ length (format_nat n) ≤ 10 ^ 9 =
        pow-le-pow_right (omega arith) {i = length (format_nat n)} {j = 9} (omega arith) in
      absurd (omega arith)
]

pad9-none : (n : ℕ) → 10 ^ 9 ≤ n → pad9 n ≡ none
unfolding pad9
pad9-none n h = ground (arith, length-format_nat_long n h)

fraction_text-none : (n : ℕ) → 10 ^ 9 ≤ n → fraction_text n ≡ none
unfolding fraction_text
fraction_text-none n h = ground (arith, pad9-none n h)

-- DecimalString panics exactly when the nano part is 10^9 or more in magnitude.
pub decimal_string-none :
    (units nano : ℤ) → (decimal_string units nano ≡ none) ↔ (10 ^ 9 ≤ abs nano)
unfolding decimal_string
decimal_string-none units nano = elim (dec_lt (abs nano) (10 ^ 9)) [
  | yes small ↦
      let (o, frac) = fraction_text-IsWritten (abs nano) small in
      let written : fraction_text (abs nano) ≡ some (dotted o) = frac.written in
      (λ panics. cc (rw (written, decimal_string) at panics), λ large. absurd (omega arith))
  | no large ↦
      (λ _. omega arith, λ _. rw (fraction_text-none (abs nano) (omega arith), decimal_string) refl)
]
