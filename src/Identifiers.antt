-- ===== src/Identifiers.antt =====
-- internal/broker/instruments/classify.go and the order ids of cmd/tinvest/orders.go: which texts name
-- an instrument, and which texts are client order ids.
pub mod Uuid
pub mod Ticker
mod Tests
use tinvest.Prelude.{
  ℕ, zero, suc, ◌+◌, ◌*◌, ◌/◌, ◌%◌, Bool, true, false, not, ◌&&◌, ◌||◌, List, [], ◌∷◌, ◌++◌, Option,
  none, some, Text, codes, is_empty, is_digit, trim_space, length, take, drop, ◌==◌, leb, ltb,
  if◌then◌else◌,
}

-- [0-9a-fA-F] and [0-9A-Za-z]
abbrev pub is_hex : ℕ → Bool
is_hex c = is_digit c || (leb 97 c && leb c 102) || (leb 65 c && leb c 70)

abbrev pub is_alnum : ℕ → Bool
is_alnum c = is_digit c || (leb 97 c && leb c 122) || (leb 65 c && leb c 90)

abbrev pub all_hex : Text → Bool
all_hex [] = true
all_hex (c ∷ s) = is_hex c && all_hex s

abbrev pub all_alnum : Text → Bool
all_alnum [] = true
all_alnum (c ∷ s) = is_alnum c && all_alnum s

-- A text of hexadecimal digits, and of dashes where the pattern is true.
unfoldable pub fits : List Bool → Text → Bool
fits [] [] = true
fits [] (c ∷ s) = false
fits (b ∷ pattern) [] = false
fits (true ∷ pattern) (c ∷ s) = c == b'-' && fits pattern s
fits (false ∷ pattern) (c ∷ s) = is_hex c && fits pattern s

-- 8-4-4-4-12
abbrev pub hexes : ℕ → List Bool → List Bool
hexes zero rest = rest
hexes (suc n) rest = false ∷ hexes n rest

abbrev pub uid_pattern : List Bool
uid_pattern = hexes 8 (true ∷ hexes 4 (true ∷ hexes 4 (true ∷ hexes 4 (true ∷ hexes 12 []))))

abbrev pub is_figi : Text → Bool
is_figi s = length s == 12 && all_alnum s

pub data IdKind : Type 0 where
  unknown uid figi ticker : IdKind

pub record ParsedId : Type 0 where
  pub kind : IdKind
  pub raw : Text
  pub ticker_part : Text
  pub class_code : Text

pub data InvalidId : Type 0 where
  empty_id side_missing unrecognized : InvalidId

pub data Classified : Type 0 where
  classified : ParsedId → Classified
  invalid : InvalidId → Classified

-- strings.Contains, and both sides of strings.SplitN(s, "@", 2).
abbrev pub contains_at : Text → Bool
contains_at [] = false
contains_at (c ∷ s) = c == b'@' || contains_at s

unfoldable pub before_at : Text → Text
before_at [] = []
before_at (c ∷ s) = let rest = before_at s in if c == b'@' then [] else c ∷ rest

unfoldable pub after_at : Text → Text
after_at [] = []
after_at (c ∷ s) = let rest = after_at s in if c == b'@' then s else rest

unfoldable pub classify_trimmed : Text → Classified
classify_trimmed s =
    if is_empty s
    then invalid empty_id
    else if contains_at s
    then (if is_empty (before_at s) || is_empty (after_at s)
        then invalid side_missing
        else classified
            (record { kind = ticker; raw = s; ticker_part = before_at s; class_code = after_at s }))
    else if fits uid_pattern s
    then classified (record { kind = uid; raw = s; ticker_part = []; class_code = [] })
    else if is_figi s
    then classified (record { kind = figi; raw = s; ticker_part = []; class_code = [] })
    else invalid unrecognized

-- `Classify`
unfoldable pub classify_id : Text → Classified
classify_id raw = classify_trimmed (trim_space raw)

-- s[n], of a text that is longer than n.
abbrev pub is_dash_at : ℕ → Text → Bool
is_dash_at n [] = false
is_dash_at zero (c ∷ s) = c == b'-'
is_dash_at (suc n) (c ∷ s) = is_dash_at n s

-- strings.ReplaceAll(s, "-", "")
unfoldable pub without_dashes : Text → Text
without_dashes [] = []
without_dashes (c ∷ s) = let rest = without_dashes s in if c == b'-' then rest else c ∷ rest

-- `validateOrderID`: no error. hex.DecodeString takes an even number of hexadecimal digits.
unfoldable pub validate_order_id : Text → Bool
validate_order_id s =
    length s == 36
    && is_dash_at 8 s
    && is_dash_at 13 s
    && is_dash_at 18 s
    && is_dash_at 23 s
    && length (without_dashes s) == 32
    && all_hex (without_dashes s)
    && length (without_dashes s) % 2 == 0

-- %x
abbrev pub hex_digit : ℕ → ℕ
hex_digit n = if ltb n 10 then 48 + n else 87 + n

unfoldable pub hex_bytes : List ℕ → Text
hex_bytes [] = []
hex_bytes (b ∷ bs) = hex_digit (b / 16) ∷ hex_digit (b % 16) ∷ hex_bytes bs

-- b[6] = (b[6] & 0x0f) | 0x40 and b[8] = (b[8] & 0x3f) | 0x80, by position.
unfoldable pub set_bits : ℕ → List ℕ → List ℕ
set_bits i [] = []
set_bits i (b ∷ bs) =
    let rest = set_bits (suc i) bs in
    (if i == 6 then b % 16 + 64 else if i == 8 then b % 64 + 128 else b) ∷ rest

-- The format "%x-%x-%x-%x-%x" of the sixteen bytes.
unfoldable pub format_uuid : List ℕ → Text
format_uuid bs =
    hex_bytes (take 4 bs)
    ++ (b'-'
        ∷ (hex_bytes (take 2 (drop 4 bs))
            ++ (b'-'
                ∷ (hex_bytes (take 2 (drop 6 bs))
                    ++ (b'-'
                        ∷ (hex_bytes (take 2 (drop 8 bs)) ++ (b'-' ∷ hex_bytes (drop 10 bs))))))))

-- `newOrderID`, on the sixteen bytes of rand.Read.
unfoldable pub new_order_id : List ℕ → Text
new_order_id bs = format_uuid (set_bits 0 bs)
