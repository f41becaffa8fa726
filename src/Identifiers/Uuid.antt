-- ===== src/Identifiers/Uuid.antt =====
-- The two readings of a UUID: by the pattern of instrument ids, and by the test of order ids; and the
-- generated order ids.
use mathlib.Core.List.{append-nil}
use tinvest.Prelude.{
  ℕ, zero, suc, ◌+◌, ◌/◌, ◌%◌, ◌≤◌, ◌<◌, ◌≡◌, refl, sym, ap, ◌∙◌, Bool, true, false, ◌&&◌, ◌-◌, All,
  List, [], ◌∷◌, ◌++◌, Text, length, take, drop, ◌==◌, arith, if◌then◌else◌,
}
use tinvest.Identifiers.{
  is_hex, all_hex, fits, hexes, uid_pattern, is_dash_at, without_dashes, validate_order_id,
  hex_digit, hex_bytes, set_bits, format_uuid, new_order_id,
}

-- The length and the dashes of a pattern, and its number of digits.
abbrev has_shape : List Bool → Text → Bool
has_shape [] [] = true
has_shape [] (c ∷ s) = false
has_shape (b ∷ pattern) [] = false
has_shape (true ∷ pattern) (c ∷ s) = c == b'-' && has_shape pattern s
has_shape (false ∷ pattern) (c ∷ s) = has_shape pattern s

abbrev count_hex : List Bool → ℕ
count_hex [] = 0
count_hex (true ∷ pattern) = count_hex pattern
count_hex (false ∷ pattern) = suc (count_hex pattern)

has_shape-short :
    (pattern : List Bool) (s : Text)
    → has_shape pattern s ≡ true
    → length (without_dashes s) ≤ count_hex pattern
unfolding without_dashes
has_shape-short [] [] h = omega arith
has_shape-short [] (c ∷ s) h = cc h
has_shape-short (b ∷ pattern) [] h = cc h
has_shape-short (true ∷ pattern) (c ∷ s) h = ground (arith, has_shape-short pattern s)
has_shape-short (false ∷ pattern) (c ∷ s) h = ground (arith, has_shape-short pattern s h)

fits-has_shape :
    (pattern : List Bool) (s : Text)
    → fits pattern s ≡ (
        has_shape pattern s
        && length (without_dashes s) == count_hex pattern
        && all_hex (without_dashes s))
unfolding fits without_dashes
fits-has_shape [] [] = refl
fits-has_shape [] (c ∷ s) = refl
fits-has_shape (b ∷ pattern) [] = ground arith
fits-has_shape (true ∷ pattern) (c ∷ s) = ground (arith, fits-has_shape pattern s)
fits-has_shape (false ∷ pattern) (c ∷ s) =
    ground (arith, fits-has_shape pattern s, has_shape-short pattern s)

-- The dashes of a pattern by their positions.
abbrev positions : ℕ → List Bool → List ℕ
positions i [] = []
positions i (true ∷ pattern) = i ∷ positions (suc i) pattern
positions i (false ∷ pattern) = positions (suc i) pattern

abbrev dashes_at : List ℕ → Text → Bool
dashes_at [] s = true
dashes_at (i ∷ is) s = is_dash_at i s && dashes_at is s

dashes_at-behind :
    (i : ℕ) (pattern : List Bool) (c : ℕ) (s : Text)
    → dashes_at (positions (suc i) pattern) (c ∷ s) ≡ dashes_at (positions i pattern) s
dashes_at-behind i [] c s = refl
dashes_at-behind i (true ∷ pattern) c s =
    ap (λ b. is_dash_at i s && b) (dashes_at-behind (suc i) pattern c s)
dashes_at-behind i (false ∷ pattern) c s = dashes_at-behind (suc i) pattern c s

has_shape-positions :
    (pattern : List Bool) (s : Text)
    → has_shape pattern s ≡ (length s == length pattern && dashes_at (positions 0 pattern) s)
has_shape-positions [] [] = refl
has_shape-positions [] (c ∷ s) = ground arith
has_shape-positions (b ∷ pattern) [] = ground arith
has_shape-positions (true ∷ pattern) (c ∷ s) =
    ground (arith, has_shape-positions pattern s, dashes_at-behind 0 pattern c s)
has_shape-positions (false ∷ pattern) (c ∷ s) =
    ground (arith, has_shape-positions pattern s, dashes_at-behind 0 pattern c s)

-- The test of order ids takes exactly the texts of the instrument ids' UUID pattern.
pub validate_order_id-fits : (s : Text) → validate_order_id s ≡ fits uid_pattern s
unfolding validate_order_id
validate_order_id-fits s =
    ground (arith, fits-has_shape uid_pattern s, has_shape-positions uid_pattern s)

abbrev AreBytes : List ℕ → Type 0
AreBytes bs = All (λ b. b < 256) bs

is_hex-hex_digit : (n : ℕ) → n < 16 → is_hex (hex_digit n) ≡ true
is_hex-hex_digit n h = ground arith

abbrev twice : ℕ → ℕ
twice zero = 0
twice (suc n) = suc (suc (twice n))

fits-hex_bytes :
    (bs : List ℕ) (n : ℕ) (pattern : List Bool) (s : Text)
    → length bs ≡ n
    → AreBytes bs
    → fits (hexes (twice n) pattern) (hex_bytes bs ++ s) ≡ fits pattern s
unfolding fits hex_bytes
fits-hex_bytes [] zero pattern s l h = refl
fits-hex_bytes [] (suc n) pattern s l h = absurd (omega (arith, l))
fits-hex_bytes (b ∷ bs) zero pattern s l h = absurd (omega (arith, l))
fits-hex_bytes (b ∷ bs) (suc n) pattern s l h =
    let small = h.0 in
    rw (is_hex-hex_digit (b / 16) (omega (arith, small)), is_hex-hex_digit (b % 16) (omega arith))
      (fits-hex_bytes bs n pattern s (omega (arith, l)) h.1)

take-AreBytes : (n : ℕ) (bs : List ℕ) → AreBytes bs → AreBytes (take n bs)
take-AreBytes zero bs h = tt
take-AreBytes (suc n) [] h = tt
take-AreBytes (suc n) (b ∷ bs) h = (h.0, take-AreBytes n bs h.1)

drop-AreBytes : (n : ℕ) (bs : List ℕ) → AreBytes bs → AreBytes (drop n bs)
drop-AreBytes zero bs h = h
drop-AreBytes (suc n) [] h = tt
drop-AreBytes (suc n) (b ∷ bs) h = drop-AreBytes n bs h.1

length-take : (n : ℕ) (bs : List ℕ) → n ≤ length bs → length (take n bs) ≡ n
length-take zero bs h = refl
length-take (suc n) [] h = absurd (omega (arith, h))
length-take (suc n) (b ∷ bs) h = ap suc (length-take n bs (omega (arith, h)))

length-drop : (n : ℕ) (bs : List ℕ) → length (drop n bs) ≡ length bs - n
length-drop zero bs = omega arith
length-drop (suc n) [] = omega arith
length-drop (suc n) (b ∷ bs) = omega (arith, length-drop n bs)

set_bits-AreBytes :
    (i : ℕ) (bs : List ℕ)
    → AreBytes bs
    → AreBytes (set_bits i bs) × (length (set_bits i bs) ≡ length bs)
unfolding set_bits
set_bits-AreBytes i [] h = (tt, refl)
set_bits-AreBytes i (b ∷ bs) h =
    let (rest, same) = set_bits-AreBytes (suc i) bs h.1 in
    let small = h.0 in ((byte (i == 6) (i == 8), rest), ap suc same)
  where
    byte :
        (six eight : Bool) → (if six then b % 16 + 64 else if eight then b % 64 + 128 else b) < 256
    byte true eight = omega arith
    byte false true = omega arith
    byte false false = h.0

-- One group of digits, from a place of the bytes.
fits-group :
    (n from : ℕ) (bs : List ℕ) (pattern : List Bool) (s : Text)
    → n + from ≤ length bs
    → AreBytes bs
    → fits (hexes (twice n) pattern) (hex_bytes (take n (drop from bs)) ++ s) ≡ fits pattern s
fits-group n from bs pattern s room h =
    fits-hex_bytes (take n (drop from bs)) n pattern s
      (length-take n (drop from bs) (omega (arith, room, length-drop from bs)))
      (take-AreBytes n (drop from bs) (drop-AreBytes from bs h))

fits-last :
    (bs : List ℕ)
    → length bs ≡ 16
    → AreBytes bs
    → fits (hexes 12 []) (hex_bytes (drop 10 bs)) ≡ true
unfolding fits
fits-last bs l h =
    ap (fits (hexes 12 [])) (sym (append-nil (hex_bytes (drop 10 bs))))
    ∙ fits-hex_bytes (drop 10 bs) 6 [] [] (omega (arith, l, length-drop 10 bs))
        (drop-AreBytes 10 bs h)

format_uuid-fits :
    (bs : List ℕ) → length bs ≡ 16 → AreBytes bs → fits uid_pattern (format_uuid bs) ≡ true
unfolding format_uuid fits
format_uuid-fits bs l h =
    let last = hexes 12 [] in
    let third = hexes 4 (true ∷ last) in
    let second = hexes 4 (true ∷ third) in
    let first = hexes 4 (true ∷ second) in
    let t4 = hex_bytes (drop 10 bs) in
    let t3 = hex_bytes (take 2 (drop 8 bs)) ++ (b'-' ∷ t4) in
    let t2 = hex_bytes (take 2 (drop 6 bs)) ++ (b'-' ∷ t3) in
    let t1 = hex_bytes (take 2 (drop 4 bs)) ++ (b'-' ∷ t2) in
    fits-group 4 0 bs (true ∷ first) (b'-' ∷ t1) (omega (arith, l)) h
    ∙ fits-group 2 4 bs (true ∷ second) (b'-' ∷ t2) (omega (arith, l)) h
    ∙ fits-group 2 6 bs (true ∷ third) (b'-' ∷ t3) (omega (arith, l)) h
    ∙ fits-group 2 8 bs (true ∷ last) (b'-' ∷ t4) (omega (arith, l)) h
    ∙ fits-last bs l h

-- Every order id that is generated from sixteen bytes passes the test of order ids.
pub new_order_id-validate_order_id :
    (bs : List ℕ)
    → length bs ≡ 16
    → All (λ b. b < 256) bs
    → validate_order_id (new_order_id bs) ≡ true
unfolding new_order_id
new_order_id-validate_order_id bs l h =
    let (bytes, same) = set_bits-AreBytes 0 bs h in
    validate_order_id-fits (new_order_id bs) ∙ format_uuid-fits (set_bits 0 bs) (same ∙ l) bytes
