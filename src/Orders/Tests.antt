-- ===== src/Orders/Tests.antt =====
-- The order checks at concrete inputs.
use tinvest.Prelude.{◌≡◌, ◌&&◌, not, refl, some, codes, arith, if◌then◌else◌}
use tinvest.Prelude.Int.{pos, is_pos}
use tinvest.Decimal.{Quotation}
use tinvest.Orders.{
  OrderType, order_type, validate_basics, validate_price_increment, not_a_multiple,
}
use tinvest.Orders.Shape.{is_none, is_limit, validate_basics-order_type}
use tinvest.Orders.Increment.{IsModest, validate_price_increment-lem}

-- 250.75 against a step of 0.5.
abbrev price : Quotation
price = record { units = pos 250; nano = pos 750_000_000 }

abbrev step : Quotation
step = record { units = pos 0; nano = pos 500_000_000 }

price-IsModest : IsModest price
price-IsModest = record { units_small = omega arith; nano_small = omega arith; same_sign = tt }

step-IsModest : IsModest step
step-IsModest = record { units_small = omega arith; nano_small = omega arith; same_sign = tt }

validate_price_increment-lem_example :
    validate_price_increment (some price) (some step) ≡ some (not_a_multiple price step)
validate_price_increment-lem_example =
    validate_price_increment-lem price step price-IsModest step-IsModest

validate_basics-order_type_example :
    is_none (validate_basics OrderType.market (pos 3) (some price)) ≡ (
      is_pos (pos 3)
      && (if is_limit OrderType.market then not (is_none (some price)) else is_none (some price)))
validate_basics-order_type_example =
    validate_basics-order_type (codes "market") OrderType.market (pos 3) (some price)
      (unfold order_type in refl)
