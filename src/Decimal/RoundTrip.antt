-- ===== src/Decimal/RoundTrip.antt =====
-- ParseQuotation on what DecimalString writes.
use tinvest.Prelude.{
  ℕ, zero, suc, ◌^◌, ◌<◌, ◌≡◌, refl, ap, ◌∙◌, Bool, true, false, [], ◌∷◌, ◌++◌, Option, none, some,
  arith, Text, all_digits, codes, trim_space-plain, all_plain, all_plain-append, all_plain-digits,
}
use tinvest.Prelude.Int.{ℤ, pos, negsuc, abs}
use tinvest.Strconv.{format_nat, digits_value, parse_magnitude, parse_int}
use tinvest.Strconv.RoundTrip.{all_digits-format_nat, starts_digit, starts_digit-format_nat}
use tinvest.Decimal.{
  Quotation, ok, err, out_of_range, signed, min_int64, decimal_string, convert_parts,
  parse_unsigned, parse_signed, parse_quotation,
}
use tinvest.Decimal.Parse.{dotted, fraction_of, parse_unsigned-digits, convert_parts-value}
use tinvest.Decimal.Format.{
  IsWritten, fraction_text-IsWritten, decimal_string-pos, decimal_string-negsuc,
  decimal_string-zero, decimal_string-min,
}

all_plain-dotted :
    (o : Option Text) → all_digits (fraction_of o) ≡ true → all_plain (dotted o) ≡ true
all_plain-dotted none h = refl
all_plain-dotted (some g) h = all_plain-digits g h

parse_signed-digits :
    (d t : Text) → starts_digit d ≡ true → parse_signed (d ++ t) ≡ parse_unsigned false (d ++ t)
unfolding parse_signed
parse_signed-digits [] t h = cc
parse_signed-digits (c ∷ d) t h = ground arith

-- A text of digits with a fraction has no space to trim and no sign.
parse_quotation-unsigned :
    (d : Text) (o : Option Text)
    → starts_digit d ≡ true
    → all_digits d ≡ true
    → all_digits (fraction_of o) ≡ true
    → parse_quotation (d ++ dotted o) ≡ parse_unsigned false (d ++ dotted o)
unfolding parse_quotation
parse_quotation-unsigned d o h e f =
    ap parse_signed (
      trim_space-plain (d ++ dotted o)
        (all_plain-append d (dotted o) (all_plain-digits d e) (all_plain-dotted o f)))
    ∙ parse_signed-digits d (dotted o) h

parse_quotation-minus :
    (d : Text) (o : Option Text)
    → all_digits d ≡ true
    → all_digits (fraction_of o) ≡ true
    → parse_quotation (b'-' ∷ (d ++ dotted o)) ≡ parse_unsigned true (d ++ dotted o)
unfolding parse_quotation parse_signed
parse_quotation-minus d o e f = ap parse_signed (
    trim_space-plain (b'-' ∷ (d ++ dotted o))
      (all_plain-append d (dotted o) (all_plain-digits d e) (all_plain-dotted o f)))

-- The numbers behind a sign, from the text that DecimalString writes of them.
module _ (a n : ℕ) (o : Option Text) (fits : a < 2 ^ 63) (frac : IsWritten n o) where
  parses :
      (negative : Bool)
      → parse_unsigned negative (format_nat a ++ dotted o)
        ≡ ok (record { units = signed negative (pos a); nano = signed negative (pos n) })
  parses negative =
      parse_unsigned-digits negative (format_nat a) o (starts_digit-format_nat a)
        (all_digits-format_nat a) frac.digits frac.short
      ∙ convert_parts-value negative a n (fraction_of o) fits frac.reads

  parse_quotation-plus :
      parse_quotation (format_nat a ++ dotted o) ≡ ok (record { units = pos a; nano = pos n })
  unfolding signed
  parse_quotation-plus =
      parse_quotation-unsigned (format_nat a) o (starts_digit-format_nat a)
        (all_digits-format_nat a) frac.digits
      ∙ parses false

  parse_quotation-negative :
      parse_quotation (b'-' ∷ (format_nat a ++ dotted o))
      ≡ ok (record { units = signed true (pos a); nano = signed true (pos n) })
  parse_quotation-negative =
      parse_quotation-minus (format_nat a) o (all_digits-format_nat a) frac.digits ∙ parses true

-- The contract's promise that units and nano share a sign.
abbrev pub SameSign : ℤ → ℤ → Type 0
SameSign (pos zero) nano = Unit
SameSign (pos (suc a)) (pos n) = Unit
SameSign (pos (suc a)) (negsuc n) = ⊥
SameSign (negsuc a) (pos zero) = Unit
SameSign (negsuc a) (pos (suc n)) = ⊥
SameSign (negsuc a) (negsuc n) = Unit

-- A quotation of the contract whose units can be negated.
pub record IsContract (q : Quotation) : Type 0 where
  pub units_fit : abs q.units < 2 ^ 63
  pub nano_fits : abs q.nano < 10 ^ 9
  pub same_sign : SameSign q.units q.nano

round_trip :
    (units nano : ℤ)
    → abs units < 2 ^ 63
    → abs nano < 10 ^ 9
    → SameSign units nano
    → (s : Text) × (decimal_string units nano ≡ some s)
      × (parse_quotation s ≡ ok (record { units = units; nano = nano }))
unfolding signed
round_trip (pos a) (pos n) h k e =
    let (o, frac) = fraction_text-IsWritten n k in
    (
      format_nat a ++ dotted o,
      decimal_string-pos (dotted o) a n frac.written,
      parse_quotation-plus a n o h frac,
    )
round_trip (pos zero) (negsuc n) h k e =
    let (o, frac) = fraction_text-IsWritten (suc n) k in
    (
      b'-' ∷ (format_nat 0 ++ dotted o),
      decimal_string-zero (dotted o) n frac.written,
      parse_quotation-negative 0 (suc n) o h frac,
    )
round_trip (pos (suc a)) (negsuc n) h k e = absurd e
round_trip (negsuc a) (pos zero) h k e =
    let (o, frac) = fraction_text-IsWritten 0 k in
    (
      b'-' ∷ (format_nat (suc a) ++ dotted o),
      decimal_string-negsuc (dotted o) a (pos zero) h frac.written,
      parse_quotation-negative (suc a) 0 o h frac,
    )
round_trip (negsuc a) (pos (suc n)) h k e = absurd e
round_trip (negsuc a) (negsuc n) h k e =
    let (o, frac) = fraction_text-IsWritten (suc n) k in
    (
      b'-' ∷ (format_nat (suc a) ++ dotted o),
      decimal_string-negsuc (dotted o) a (negsuc n) h frac.written,
      parse_quotation-negative (suc a) (suc n) o h frac,
    )

-- Every quotation whose units lie strictly above the least int64, whose nano is below 10^9 in
-- magnitude and whose parts share a sign is written without a panic, and read back unchanged.
pub parse_quotation-decimal_string :
    (q : Quotation)
    → IsContract q
    → (s : Text) × (decimal_string q.units q.nano ≡ some s) × (parse_quotation s ≡ ok q)
parse_quotation-decimal_string q c = round_trip q.units q.nano c.units_fit c.nano_fits c.same_sign

-- At the least int64 the inverse fails: DecimalString writes a text that ParseQuotation refuses,
-- whatever the nano part.
pub parse_quotation-min_int64 :
    (nano : ℤ)
    → abs nano < 10 ^ 9
    → (s : Text) × (decimal_string min_int64 nano ≡ some s) × (parse_quotation s ≡ err out_of_range)
unfolding convert_parts parse_int parse_magnitude digits_value
parse_quotation-min_int64 nano k =
    let (o, frac) = fraction_text-IsWritten (abs nano) k in
    let d : Text = codes "9223372036854775808" in
    (
      b'-' ∷ (d ++ dotted o),
      decimal_string-min (dotted o) nano frac.written,
      parse_quotation-minus d o refl frac.digits
          ∙ parse_unsigned-digits true d o refl refl frac.digits frac.short,
    )
