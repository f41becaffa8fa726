-- ===== src/StopOrders/Tests.antt =====
-- The stop-order checks at concrete inputs.
use tinvest.Prelude.{◌≡◌, refl, false, ◌&&◌, none, some}
use tinvest.Prelude.Int.{pos, is_pos}
use tinvest.Decimal.{Quotation}
use tinvest.StopOrders.{
  StopOrderType, ExpirationType, ExchangeOrderType, TakeProfitType, TrailingValueType, BasicsInput,
  is_none, validate_stop_basics, check_amounts, check_type_price, check_expiration, check_trailing,
  check_take_profit, is_zero_quotation, is_negative,
}
use tinvest.StopOrders.Shape.{
  is_price, fits_type, fits_expiration, fits_take_profit, validate_stop_basics-lem,
}

abbrev five : Quotation
five = record { units = pos 5; nano = pos 0 }

-- A take-profit of the regular type that carries trailing fields.
abbrev order : BasicsInput
order = record {
  stop_order_type = StopOrderType.take_profit;
  quantity = pos 1;
  price = none;
  stop_price = some five;
  expiration_type = ExpirationType.good_till_cancel;
  has_expire_date = false;
  exchange_order_type = ExchangeOrderType.market;
  take_profit_type = TakeProfitType.regular;
  trailing = some (record {
    indent = some five;
    indent_type = TrailingValueType.absolute;
    spread = some five;
    spread_type = TrailingValueType.relative;
  });
}

validate_stop_basics-lem_example : is_none (validate_stop_basics order) ≡ (
    (is_pos order.quantity && is_price order.stop_price)
    && (fits_type order.stop_order_type order.price
        && (fits_expiration order.expiration_type order.has_expire_date && fits_take_profit order)))
validate_stop_basics-lem_example = validate_stop_basics-lem order

passes : validate_stop_basics order ≡ none
unfolding validate_stop_basics check_amounts check_type_price check_expiration check_trailing
    check_take_profit is_zero_quotation is_negative
passes = refl
