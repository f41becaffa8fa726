-- ===== src/Decimal/Format.antt =====
-- DecimalString, branch by branch: its fractional part and the whole text.
use tinvest.Prelude.{
  ℕ, zero, suc, ◌-◌, ◌^◌, ◌≤◌, ◌<◌, ◌≡◌, refl, true, ◌∷◌, ◌++◌, Option, none, some, arith, Text,
  all_digits, length, replicate, codes,
}
use tinvest.Prelude.Int.{ℤ, pos, negsuc, abs, wrap64, wrap64-eq}
use tinvest.Strconv.{format_nat, format_int}
use tinvest.Decimal.{
  min_int64, sign_text, trim_zeros, fraction_text, decimal_string, parse_fraction,
}
use tinvest.Decimal.Digits.{trim_zeros-pad, length-trim_zeros, all_digits-trim_zeros, pad9-lem}
use tinvest.Decimal.Parse.{dotted, fraction_of, parse_fraction-padded}

-- What DecimalString writes for a nano part below 10^9, and what ParseQuotation makes of it.
pub record IsWritten (n : ℕ) (o : Option Text) : Type 0 where
  pub written : fraction_text n ≡ some (dotted o)
  pub digits : all_digits (fraction_of o) ≡ true
  pub short : length (fraction_of o) ≤ 9
  pub reads : parse_fraction (fraction_of o) ≡ some (pos n)

pub fraction_text-IsWritten : (n : ℕ) → n < 10 ^ 9 → (o : Option Text) × IsWritten n o
unfolding fraction_text parse_fraction
fraction_text-IsWritten zero h =
    (none, record { written = refl; digits = refl; short = omega arith; reads = refl })
fraction_text-IsWritten (suc n) h =
    let (p, padded, nine, all, value) = pad9-lem (suc n) h in
    let some_zeros : trim_zeros p ++ replicate (9 - length (trim_zeros p)) b'0' ≡ p =
      rw (← nine) (trim_zeros-pad p) in
    (
      some (trim_zeros p),
      record {
        written = ground arith;
        digits = all_digits-trim_zeros p all;
        short = omega (arith, length-trim_zeros p);
        reads = parse_fraction-padded (trim_zeros p) p (suc n) some_zeros nine all value h;
      },
    )

-- The text of a quotation, by the signs of its two parts.
pub decimal_string-pos :
    (f : Text) (a n : ℕ)
    → fraction_text n ≡ some f
    → decimal_string (pos a) (pos n) ≡ some (format_nat a ++ f)
unfolding decimal_string format_int sign_text
decimal_string-pos f a n e = rw (e, decimal_string) refl

pub decimal_string-negsuc :
    (f : Text) (a : ℕ) (nano : ℤ)
    → suc a < 2 ^ 63
    → fraction_text (abs nano) ≡ some f
    → decimal_string (negsuc a) nano ≡ some (b'-' ∷ (format_nat (suc a) ++ f))
unfolding decimal_string format_int sign_text
decimal_string-negsuc f a nano h e =
    let wraps : wrap64 (pos (suc a)) ≡ pos (suc a) = wrap64-eq (pos (suc a)) h in ground arith

pub decimal_string-zero :
    (f : Text) (n : ℕ)
    → fraction_text (suc n) ≡ some f
    → decimal_string (pos 0) (negsuc n) ≡ some (b'-' ∷ (format_nat 0 ++ f))
unfolding decimal_string format_int sign_text
decimal_string-zero f n e = ground arith

-- The one text that is written out in the source.
pub decimal_string-min :
    (f : Text) (nano : ℤ)
    → fraction_text (abs nano) ≡ some f
    → decimal_string min_int64 nano ≡ some (b'-' ∷ (codes "9223372036854775808" ++ f))
unfolding decimal_string sign_text wrap64
decimal_string-min f nano e = rw (e, decimal_string) refl
