-- ===== src/Orders/Increment.antt =====
-- internal/broker/orders/validate.go, ValidatePriceIncrement: the check in an int64 against exact
-- arithmetic in nano-units.
use tinvest.Prelude.{ℕ, zero, suc, ◌+◌, ◌*◌, ◌%◌, ◌<◌, ◌≡◌, none, some, arith, if◌then◌else◌, ◌==◌}
use tinvest.Prelude.Int.{ℤ, pos, negsuc, abs, is_zero, wrap64}
use tinvest.Decimal.{Quotation}
use tinvest.Decimal.RoundTrip.{SameSign}
use tinvest.Orders.{nano_units, abs_int64, go_rem, validate_price_increment, not_a_multiple}

-- The magnitude of a quotation, in nano-units.
abbrev pub nanos : Quotation → ℕ
nanos q = abs q.units * 1_000_000_000 + abs q.nano

-- The quotations whose nano-units fit: units below 9.2 * 10^9 in magnitude, of the contract's shape.
pub record IsModest (q : Quotation) : Type 0 where
  pub units_small : abs q.units < 9_200_000_000
  pub nano_small : abs q.nano < 1_000_000_000
  pub same_sign : SameSign q.units q.nano

abs_int64-nano_units :
    (u n : ℤ)
    → abs u < 9_200_000_000
    → abs n < 1_000_000_000
    → SameSign u n
    → abs_int64 (nano_units (record { units = u; nano = n })) ≡ pos (abs u * 1_000_000_000 + abs n)
unfolding nano_units abs_int64 wrap64
abs_int64-nano_units (pos a) (pos n) h k e = ground arith
abs_int64-nano_units (pos zero) (negsuc n) h k e = ground arith
abs_int64-nano_units (pos (suc a)) (negsuc n) h k e = absurd e
abs_int64-nano_units (negsuc a) (pos zero) h k e = ground arith
abs_int64-nano_units (negsuc a) (pos (suc n)) h k e = absurd e
abs_int64-nano_units (negsuc a) (negsuc n) h k e = ground arith

is_zero-nano_units :
    (u n : ℤ)
    → abs u < 9_200_000_000
    → abs n < 1_000_000_000
    → SameSign u n
    → is_zero (nano_units (record { units = u; nano = n })) ≡ (abs u * 1_000_000_000 + abs n == 0)
unfolding nano_units wrap64
is_zero-nano_units (pos a) (pos n) h k e = ground arith
is_zero-nano_units (pos zero) (negsuc n) h k e = ground arith
is_zero-nano_units (pos (suc a)) (negsuc n) h k e = absurd e
is_zero-nano_units (negsuc a) (pos zero) h k e = ground arith
is_zero-nano_units (negsuc a) (pos (suc n)) h k e = absurd e
is_zero-nano_units (negsuc a) (negsuc n) h k e = ground arith

-- A price and an increment below 9.2 * 10^9 in magnitude, of the contract's shape: the check passes
-- exactly when the increment is zero or the price's exact nano-units are a multiple of the
-- increment's, whatever the signs; otherwise the error names both.
pub validate_price_increment-lem :
    (price increment : Quotation)
    → IsModest price
    → IsModest increment
    → validate_price_increment (some price) (some increment) ≡ (
        if nanos increment == 0
        then none
        else if nanos price % nanos increment == 0
        then none
        else some (not_a_multiple price increment))
unfolding validate_price_increment go_rem
validate_price_increment-lem p i hp hi = ground (
  arith,
  abs_int64-nano_units p.units p.nano hp.units_small hp.nano_small hp.same_sign,
  abs_int64-nano_units i.units i.nano hi.units_small hi.nano_small hi.same_sign,
  is_zero-nano_units i.units i.nano hi.units_small hi.nano_small hi.same_sign,
)
