-- ===== src/Decimal.antt =====
-- internal/render/decimal.go: units and nano as an exact decimal text, and back. A text is a list of
-- bytes. `none` in `pad9` and `decimal_string` is the panic of strings.Repeat on a negative count.
pub mod Digits
pub mod Format
pub mod Parse
pub mod RoundTrip
pub mod Bounds
mod Tests
use tinvest.Prelude.{
  ℕ, zero, suc, ◌+◌, ◌-◌, ◌^◌, Bool, true, false, not, ◌&&◌, ◌||◌, List, [], ◌∷◌, ◌++◌, Option,
  none, some, Text, codes, is_empty, all_digits, trim_space, length, replicate, leb, ltb, ◌==◌,
  if◌then◌else◌,
}
use tinvest.Prelude.Int.{ℤ, pos, negsuc, neg, eq_ℤ, abs, is_neg, is_zero, wrap64}
use tinvest.Strconv.{format_int, format_nat, parse_int}

-- investapi.Quotation, and the amount of a MoneyValue: an int64 and an int32.
pub record Quotation : Type 0 where
  pub units : ℤ
  pub nano : ℤ

-- `strings.Repeat("0", 9-len(s)) + s`
unfoldable pub pad9 : ℕ → Option Text
pad9 n =
    let s = format_nat n in
    if leb (length s) 9 then some (replicate (9 - length s) b'0' ++ s) else none

-- strings.TrimRight(s, "0")
unfoldable pub trim_zeros : Text → Text
trim_zeros [] = []
trim_zeros (c ∷ s) = let r = trim_zeros s in if c == b'0' && is_empty r then [] else c ∷ r

abbrev pub min_int64 : ℤ
min_int64 = negsuc 9223372036854775807

unfoldable pub sign_text : Bool → Text
sign_text negative = if negative then b'-' ∷ [] else []

-- The fractional part, with its dot; nothing for 0.
unfoldable pub fraction_text : ℕ → Option Text
fraction_text n =
    if n == 0 then some [] else elim (pad9 n) [ none ↦ none | some p ↦ some (b'.' ∷ trim_zeros p) ]

-- `-x` of an int64 wraps at the least one; an int32 is negated as an int64.
unfoldable pub decimal_string : ℤ → ℤ → Option Text
decimal_string units nano =
    let negative = is_neg units || is_neg nano in
    let abs_units = if is_neg units then wrap64 (neg units) else units in
    let abs_nano = abs nano in
    let sign = sign_text (negative && (not (is_zero abs_units) || not (abs_nano == 0))) in
    let whole =
      if eq_ℤ units min_int64 then codes "9223372036854775808" else format_int abs_units in
    elim (fraction_text abs_nano) [ none ↦ none | some f ↦ some (sign ++ (whole ++ f)) ]

-- The errors of ParseQuotation, one for each message.
pub data ParseError : Type 0 where
  empty_decimal invalid_decimal bad_integer_part too_many_digits bad_fraction out_of_range :
      ParseError

pub data Parsed : Type 0 where
  ok : Quotation → Parsed
  err : ParseError → Parsed

-- The text before the first dot, and behind it.
unfoldable pub before_dot : Text → Text
before_dot [] = []
before_dot (c ∷ s) = let r = before_dot s in if c == b'.' then [] else c ∷ r

unfoldable pub after_dot : Text → Text
after_dot [] = []
after_dot (c ∷ s) = let r = after_dot s in if c == b'.' then s else r

-- The nano part of at most nine digits.
unfoldable pub parse_fraction : Text → Option ℤ
parse_fraction [] = some (pos 0)
parse_fraction (c ∷ s) = parse_int ((c ∷ s) ++ replicate (9 - length (c ∷ s)) b'0')

unfoldable pub signed : Bool → ℤ → ℤ
signed negative z = if negative then neg z else z

-- The two conversions and the sign. `int32(nano)` keeps the value: nine digits fit.
unfoldable pub convert_parts : Bool → Text → Text → Parsed
convert_parts negative whole fraction = elim (parse_int whole) [
  | none ↦ err out_of_range
  | some units ↦ elim (parse_fraction fraction) [
    | none ↦ err out_of_range
    | some nano ↦ ok (record { units = signed negative units; nano = signed negative nano })
  ]
]

unfoldable pub parse_parts : Bool → Text → Text → Parsed
parse_parts negative whole fraction =
    if is_empty whole && is_empty fraction
    then err invalid_decimal
    else (let whole' = if is_empty whole then b'0' ∷ [] else whole in
        if not (all_digits whole')
        then err bad_integer_part
        else if ltb 9 (length fraction)
        then err too_many_digits
        else if not (all_digits fraction)
        then err bad_fraction
        else convert_parts negative whole' fraction)

-- What stands behind the sign.
unfoldable pub parse_unsigned : Bool → Text → Parsed
parse_unsigned negative [] = err invalid_decimal
parse_unsigned negative (c ∷ s) = parse_parts negative (before_dot (c ∷ s)) (after_dot (c ∷ s))

unfoldable pub parse_signed : Text → Parsed
parse_signed [] = err empty_decimal
parse_signed (c ∷ s) =
    if c == b'+'
    then parse_unsigned false s
    else if c == b'-'
    then parse_unsigned true s
    else parse_unsigned false (c ∷ s)

unfoldable pub parse_quotation : Text → Parsed
parse_quotation s = parse_signed (trim_space s)
