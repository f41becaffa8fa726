-- ===== src/Decimal/Digits.antt =====
-- Padding to nine digits and trimming the zeros again; the length and the value of digit texts.
use native.Mathlib.Nat.{sub-zero, suc-sub-suc}
use tinvest.Prelude.{
  ℕ, zero, suc, ◌+◌, ◌-◌, ◌^◌, ◌≤◌, ◌<◌, ◌≡◌, refl, ap, ◌∙◌, true, [], ◌∷◌, ◌++◌, some, arith, Text,
  is_empty, ◌&&◌, Bool-cases, inl, inr, all_digits, length, replicate, ◌==◌, if◌then◌else◌,
}
use tinvest.Strconv.{format_nat, digits_value}
use tinvest.Strconv.RoundTrip.{all_digits-format_nat, digits_value-format_nat, length-format_nat}
use tinvest.Decimal.{pad9, trim_zeros}

abbrev trim_step : Text → ℕ → Text → Text
trim_step r c s = if c == b'0' && is_empty r then [] else c ∷ r

trim_step-pad :
    (c : ℕ) (s r : Text)
    → r ++ replicate (length s - length r) b'0' ≡ s
    → trim_step r c s ++ replicate (suc (length s) - length (trim_step r c s)) b'0' ≡ c ∷ s
trim_step-pad c s [] h = elim (Bool-cases (c == b'0')) [
  | inl zero_byte ↦ rw zero_byte (rw sub-zero (ground (arith, sub-zero (length s))))
  | inr other ↦ rw (other, suc-sub-suc) (ap (λ t. c ∷ t) h)
]
trim_step-pad c s (x ∷ r) h = elim (Bool-cases (c == b'0')) [
  | inl zero_byte ↦ rw (zero_byte, suc-sub-suc) (ap (λ t. c ∷ t) h)
  | inr other ↦ rw (other, suc-sub-suc) (ap (λ t. c ∷ t) h)
]

pub trim_zeros-pad :
    (s : Text) → trim_zeros s ++ replicate (length s - length (trim_zeros s)) b'0' ≡ s
unfolding trim_zeros
trim_zeros-pad [] = refl
trim_zeros-pad (c ∷ s) = trim_step-pad c s (trim_zeros s) (trim_zeros-pad s)

pub length-trim_zeros : (s : Text) → length (trim_zeros s) ≤ length s
unfolding trim_zeros
length-trim_zeros [] = omega arith
length-trim_zeros (c ∷ s) = ground (arith, length-trim_zeros s)

pub all_digits-trim_zeros : (s : Text) → all_digits s ≡ true → all_digits (trim_zeros s) ≡ true
unfolding trim_zeros
all_digits-trim_zeros [] h = refl
all_digits-trim_zeros (c ∷ s) h = ground (arith, all_digits-trim_zeros s)

all_digits-zeros :
    (k : ℕ) (s : Text) → all_digits s ≡ true → all_digits (replicate k b'0' ++ s) ≡ true
all_digits-zeros zero s h = h
all_digits-zeros (suc k) s h = all_digits-zeros k s h

length-zeros : (k : ℕ) (s : Text) → length (replicate k b'0' ++ s) ≡ k + length s
length-zeros zero s = omega arith
length-zeros (suc k) s = omega (arith, length-zeros k s)

digits_value-zeros : (k : ℕ) (s : Text) → digits_value 0 (replicate k b'0' ++ s) ≡ digits_value 0 s
unfolding digits_value
digits_value-zeros zero s = refl
digits_value-zeros (suc k) s = digits_value-zeros k s

-- The three facts about a padded number.
pub pad9-lem :
    (n : ℕ)
    → n < 10 ^ 9
    → (p : Text) × (pad9 n ≡ some p)
      × (length p ≡ 9)
      × (all_digits p ≡ true)
      × (digits_value 0 p ≡ some n)
unfolding pad9
pad9-lem n h =
    let fits : length (format_nat n) ≤ 9 = length-format_nat 8 n h in
    (
      replicate (9 - length (format_nat n)) b'0' ++ format_nat n,
      ground arith,
      omega (arith, length-zeros (9 - length (format_nat n)) (format_nat n)),
      all_digits-zeros (9 - length (format_nat n)) (format_nat n) (all_digits-format_nat n),
      digits_value-zeros (9 - length (format_nat n)) (format_nat n) ∙ digits_value-format_nat n,
    )
