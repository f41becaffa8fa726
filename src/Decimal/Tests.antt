-- ===== src/Decimal/Tests.antt =====
-- Runs of the decimal codec, and its theorems at concrete inputs.
use tinvest.Prelude.{
  ◌^◌, ◌≤◌, ◌≡◌, ◌↔◌, trim_space, skip_spaces, space_first, space_last, refl, none, some, arith,
  Text, codes,
}
use tinvest.Prelude.Int.{pos, negsuc, wrap64}
use tinvest.Strconv.{format_int, parse_int}
use tinvest.Decimal.{
  Quotation, ok, err, out_of_range, min_int64, pad9, trim_zeros, sign_text, fraction_text,
  decimal_string, before_dot, after_dot, parse_fraction, signed, convert_parts, parse_parts,
  parse_unsigned, parse_signed, parse_quotation,
}
use tinvest.Decimal.RoundTrip.{
  IsContract, parse_quotation-decimal_string, parse_quotation-min_int64,
}
use tinvest.Decimal.Bounds.{parse_quotation-IsContract, decimal_string-none}

abbrev price : Quotation
price = record { units = negsuc 113; nano = negsuc 249999999 }

price-IsContract : IsContract price
price-IsContract = record { units_fit = omega arith; nano_fits = omega arith; same_sign = tt }

price_text : decimal_string (negsuc 113) (negsuc 249999999) ≡ some (codes "-114.25")
unfolding decimal_string sign_text fraction_text pad9 trim_zeros format_int wrap64
price_text = refl

parse_quotation-decimal_string_example :
    (s : Text) × (decimal_string (negsuc 113) (negsuc 249999999) ≡ some s)
    × (parse_quotation s ≡ ok price)
parse_quotation-decimal_string_example = parse_quotation-decimal_string price price-IsContract

parse_quotation-min_int64_example :
    (s : Text) × (decimal_string min_int64 (pos 0) ≡ some s)
    × (parse_quotation s ≡ err out_of_range)
parse_quotation-min_int64_example = parse_quotation-min_int64 (pos 0) (omega arith)

parsed : parse_quotation (codes " -114.250 ") ≡ ok price
unfolding parse_quotation trim_space parse_signed parse_unsigned before_dot after_dot parse_parts
    convert_parts parse_fraction parse_int signed skip_spaces space_first space_last
parsed = refl

parse_quotation-IsContract_example : IsContract price
parse_quotation-IsContract_example = parse_quotation-IsContract (codes " -114.250 ") price parsed

decimal_string-none_example :
    (decimal_string (pos 1) (pos 1_000_000_000) ≡ none) ↔ (10 ^ 9 ≤ 1_000_000_000)
decimal_string-none_example = decimal_string-none (pos 1) (pos 1_000_000_000)
