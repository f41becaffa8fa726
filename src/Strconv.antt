-- ===== src/Strconv.antt =====
-- Package strconv, as far as the program calls it: FormatInt, Itoa, ParseInt and Atoi in base 10.
-- Both parse errors (syntax and range) are `none`; no caller tells them apart.
pub mod RoundTrip
use tinvest.Prelude.{
  ℕ, zero, suc, ◌+◌, ◌-◌, ◌*◌, ◌/◌, ◌%◌, ◌^◌, Bool, true, false, List, [], ◌∷◌, ◌++◌, Option, none,
  some, Text, is_digit, ltb, leb, ◌==◌, if◌then◌else◌,
}
use tinvest.Prelude.Int.{ℤ, pos, negsuc, sub_ℕ}

-- The digits of `n`, at most `fuel` of them; `n + 1` is always enough.
pub digits_of : ℕ → ℕ → Text
digits_of zero n = []
digits_of (suc fuel) n =
    let rest = digits_of fuel (n / 10) in
    if ltb n 10 then (b'0' + n) ∷ [] else rest ++ (b'0' + n % 10) ∷ []

unfoldable pub format_nat : ℕ → Text
unfolding digits_of
format_nat n = digits_of (suc n) n

unfoldable pub format_int : ℤ → Text
unfolding format_nat
format_int (pos n) = format_nat n
format_int (negsuc n) = b'-' ∷ format_nat (suc n)

-- The value of the digits of a text behind those already read.
unfoldable pub digits_value : ℕ → Text → Option ℕ
digits_value acc [] = some acc
digits_value acc (c ∷ s) =
    let rest = digits_value (acc * 10 + (c - b'0')) s in if is_digit c then rest else none

-- ParseUint, then the range test of ParseInt: |value| is at most 2^63 - 1, or 2^63 below zero.
unfoldable pub parse_magnitude : Bool → Text → Option ℤ
unfolding digits_value
parse_magnitude negative [] = none
parse_magnitude negative (c ∷ s) = elim (digits_value 0 (c ∷ s)) [
  | none ↦ none
  | some n ↦
      if negative
      then (if leb n (2 ^ 63) then some (sub_ℕ 0 n) else none)
      else (if ltb n (2 ^ 63) then some (pos n) else none)
]

-- strconv.ParseInt(s, 10, 64); strconv.Atoi is the same on a 64-bit platform.
unfoldable pub parse_int : Text → Option ℤ
unfolding parse_magnitude
parse_int [] = none
parse_int (c ∷ s) =
    if c == b'+'
    then parse_magnitude false s
    else if c == b'-'
    then parse_magnitude true s
    else parse_magnitude false (c ∷ s)
