-- ===== src/Strconv/RoundTrip.antt =====
-- ParseInt on what FormatInt writes.
use native.Mathlib.Nat.{pow-suc}
use tinvest.Prelude.{
  length, length-append, ℕ, zero, suc, ◌+◌, ◌-◌, ◌*◌, ◌/◌, ◌%◌, ◌^◌, ◌≤◌, ◌<◌, ◌≡◌, refl, true,
  false, [], ◌∷◌, ◌++◌, some, arith, Text, is_digit, all_digits, Bool, ◌∙◌,
}
use tinvest.Prelude.Int.{ℤ, pos, negsuc, IsInt64}
use tinvest.Strconv.{digits_of, format_nat, format_int, digits_value, parse_magnitude, parse_int}

pub digits_value-digit :
    (acc : ℕ) (c : ℕ) (s : Text)
    → is_digit c ≡ true
    → digits_value acc (c ∷ s) ≡ digits_value (acc * 10 + (c - b'0')) s
unfolding digits_value
digits_value-digit acc c s h = ground arith

-- Reading a text and one more digit.
digits_value-snoc :
    (acc v d : ℕ) (s : Text)
    → digits_value acc s ≡ some v
    → d < 10
    → digits_value acc (s ++ (b'0' + d) ∷ []) ≡ some (v * 10 + d)
unfolding digits_value
digits_value-snoc acc v d [] e h = ground arith
digits_value-snoc acc v d (c ∷ s) e h =
    ground (arith, digits_value-snoc (acc * 10 + (c - b'0')) v d s)

one_digit : (n : ℕ) → n < 10 → digits_value 0 ((b'0' + n) ∷ []) ≡ some n
unfolding digits_value
one_digit n h = ground arith

digits_value-digits_of : (fuel n : ℕ) → n < fuel → digits_value 0 (digits_of fuel n) ≡ some n
unfolding digits_of
digits_value-digits_of zero n h = elim h [ ]
digits_value-digits_of (suc fuel) n h = ground (
  arith,
  one_digit n,
  digits_value-digits_of fuel (n / 10),
  digits_value-snoc 0 (n / 10) (n % 10) (digits_of fuel (n / 10)),
)

pub digits_value-format_nat : (n : ℕ) → digits_value 0 (format_nat n) ≡ some n
unfolding format_nat
digits_value-format_nat n = digits_value-digits_of (suc n) n (omega arith)

all_digits-snoc :
    (s : Text) (d : ℕ) → d < 10 → all_digits s ≡ true → all_digits (s ++ (b'0' + d) ∷ []) ≡ true
all_digits-snoc [] d h e = ground arith
all_digits-snoc (c ∷ s) d h e = ground (arith, all_digits-snoc s d h)

all_digits-digits_of : (fuel n : ℕ) → all_digits (digits_of fuel n) ≡ true
unfolding digits_of
all_digits-digits_of zero n = refl
all_digits-digits_of (suc fuel) n = ground (
  arith,
  all_digits-digits_of fuel (n / 10),
  all_digits-snoc (digits_of fuel (n / 10)) (n % 10) (omega arith),
)

-- Every byte that FormatInt writes for a number is a digit.
pub all_digits-format_nat : (n : ℕ) → all_digits (format_nat n) ≡ true
unfolding format_nat
all_digits-format_nat n = all_digits-digits_of (suc n) n

-- A text that is not empty and starts with a digit.
abbrev pub starts_digit : Text → Bool
starts_digit [] = false
starts_digit (c ∷ s) = is_digit c

starts_digit-snoc : (s : Text) (d : ℕ) → starts_digit s ≡ true → starts_digit (s ++ d ∷ []) ≡ true
starts_digit-snoc [] d h = cc
starts_digit-snoc (c ∷ s) d h = h

starts_digit-digits_of : (fuel n : ℕ) → n < fuel → starts_digit (digits_of fuel n) ≡ true
unfolding digits_of
starts_digit-digits_of zero n h = elim h [ ]
starts_digit-digits_of (suc fuel) n h = ground (
  arith,
  starts_digit-digits_of fuel (n / 10),
  starts_digit-snoc (digits_of fuel (n / 10)) (b'0' + n % 10),
)

pub starts_digit-format_nat : (n : ℕ) → starts_digit (format_nat n) ≡ true
unfolding format_nat
starts_digit-format_nat n = starts_digit-digits_of (suc n) n (omega arith)

-- A text that starts with a digit has no sign for ParseInt to take off.
pub parse_int-digits : (s : Text) → starts_digit s ≡ true → parse_int s ≡ parse_magnitude false s
unfolding parse_int
parse_int-digits [] h = cc
parse_int-digits (c ∷ s) h = ground arith

pub parse_magnitude-pos :
    (s : Text) (n : ℕ)
    → starts_digit s ≡ true
    → digits_value 0 s ≡ some n
    → n < 2 ^ 63
    → parse_magnitude false s ≡ some (pos n)
unfolding parse_magnitude
parse_magnitude-pos [] n d e h = cc
parse_magnitude-pos (c ∷ s) n d e h = ground arith

pub parse_magnitude-neg :
    (s : Text) (n : ℕ)
    → starts_digit s ≡ true
    → digits_value 0 s ≡ some (suc n)
    → n < 2 ^ 63
    → parse_magnitude true s ≡ some (negsuc n)
unfolding parse_magnitude
parse_magnitude-neg [] n d e h = cc
parse_magnitude-neg (c ∷ s) n d e h = ground arith

-- Every int64 survives FormatInt and ParseInt.
pub parse_int-format_int : (z : ℤ) → IsInt64 z → parse_int (format_int z) ≡ some z
unfolding format_int
parse_int-format_int (pos n) h =
    parse_int-digits (format_nat n) (starts_digit-format_nat n)
    ∙ parse_magnitude-pos (format_nat n) n (starts_digit-format_nat n) (digits_value-format_nat n) h
parse_int-format_int (negsuc n) h =
    unfold parse_int in
    parse_magnitude-neg (format_nat (suc n)) n (starts_digit-format_nat (suc n))
      (digits_value-format_nat (suc n)) h

tenth-lt : (m n : ℕ) → n < m * 10 → n / 10 < m
tenth-lt m n h = omega arith

length-digits_of : (fuel k n : ℕ) → n < 10 ^ suc k → length (digits_of fuel n) ≤ suc k
unfolding digits_of
length-digits_of zero k n h = omega arith
length-digits_of (suc fuel) zero n h = ground arith
length-digits_of (suc fuel) (suc k) n h = ground (
  arith,
  length-digits_of fuel k (n / 10) (tenth-lt (10 ^ suc k) n (rw pow-suc at h)),
  length-append (digits_of fuel (n / 10)) ((b'0' + n % 10) ∷ []),
)

-- A number below 10^k has at most k digits.
pub length-format_nat : (k n : ℕ) → n < 10 ^ suc k → length (format_nat n) ≤ suc k
unfolding format_nat
length-format_nat k n h = length-digits_of (suc n) k n h
