-- ===== src/StopOrders/Shape.antt =====
-- internal/broker/stoporders/validate.go: the stop orders that ValidateBasics lets through.
use tinvest.Prelude.{
  ◌≡◌, refl, Bool, true, false, ◌&&◌, ◌||◌, not, Option, none, some, arith, if◌then◌else◌,
}
use tinvest.Prelude.Int.{is_pos}
use tinvest.Decimal.{Quotation}
use tinvest.StopOrders.{
  StopOrderType, ExpirationType, TakeProfitType, TrailingParams, BasicsInput, BasicsError,
  is_zero_quotation, is_negative, is_none, check_type_price, check_expiration, is_take_profit,
  check_trailing, is_unset_profit, is_unset_exchange, is_trailing, check_take_profit, or_else,
  check_amounts, validate_stop_basics,
}

-- A price above zero.
abbrev pub is_price : Option Quotation → Bool
is_price q = not (is_zero_quotation q) && not (is_negative q)

-- The price that a type wants: a price for stop-limit, and none for the other two.
abbrev pub fits_type : StopOrderType → Option Quotation → Bool
fits_type StopOrderType.stop_limit price = is_price price
fits_type StopOrderType.take_profit price = is_none price
fits_type StopOrderType.stop_loss price = is_none price
fits_type _ price = false

abbrev pub fits_expiration : ExpirationType → Bool → Bool
fits_expiration ExpirationType.good_till_cancel dated = not dated
fits_expiration ExpirationType.good_till_date dated = dated
fits_expiration _ dated = false

abbrev pub is_complete : Option TrailingParams → Bool
is_complete none = true
is_complete (some p) = not (is_zero_quotation p.indent) && not (is_zero_quotation p.spread)

-- The fields of take-profit orders: none of them for another type; for a take-profit the trailing
-- fields are complete where they stand, and stand where the type is trailing.
abbrev pub fits_take_profit : BasicsInput → Bool
fits_take_profit o =
    if is_take_profit o.stop_order_type
    then is_complete o.trailing
      && (not (is_trailing o.take_profit_type) || not (is_none o.trailing))
    else is_none o.trailing
      && is_unset_profit o.take_profit_type
      && is_unset_exchange o.exchange_order_type

or_else-is_none : (a b : Option BasicsError) → is_none (or_else a b) ≡ (is_none a && is_none b)
or_else-is_none none b = refl
or_else-is_none (some e) b = refl

check_amounts-is_none :
    (o : BasicsInput) → is_none (check_amounts o) ≡ (is_pos o.quantity && is_price o.stop_price)
unfolding check_amounts
check_amounts-is_none o = ground arith

check_type_price-is_none :
    (t : StopOrderType) (price : Option Quotation)
    → is_none (check_type_price t price) ≡ fits_type t price
unfolding check_type_price
check_type_price-is_none StopOrderType.unspecified price = refl
check_type_price-is_none StopOrderType.take_profit price = ground arith
check_type_price-is_none StopOrderType.stop_loss price = ground arith
check_type_price-is_none StopOrderType.stop_limit price = ground arith
check_type_price-is_none (StopOrderType.other n) price = refl

check_expiration-is_none :
    (t : ExpirationType) (dated : Bool)
    → is_none (check_expiration t dated) ≡ fits_expiration t dated
unfolding check_expiration
check_expiration-is_none ExpirationType.unspecified dated = refl
check_expiration-is_none ExpirationType.good_till_cancel dated = ground arith
check_expiration-is_none ExpirationType.good_till_date dated = ground arith
check_expiration-is_none (ExpirationType.other n) dated = refl

unset-not_trailing : (t : TakeProfitType) → is_unset_profit t ≡ true → is_trailing t ≡ false
unset-not_trailing TakeProfitType.unspecified h = refl
unset-not_trailing TakeProfitType.regular h = refl
unset-not_trailing TakeProfitType.trailing h = cc
unset-not_trailing (TakeProfitType.other n) h = refl

check_trailing-is_none :
    (t : StopOrderType) (p : Option TrailingParams)
    → is_none (check_trailing t p) ≡ (if is_take_profit t then is_complete p else is_none p)
unfolding check_trailing
check_trailing-is_none t none = ground arith
check_trailing-is_none t (some p) = ground arith

take_profit-is_none :
    (o : BasicsInput)
    → (is_none (check_trailing o.stop_order_type o.trailing) && is_none (check_take_profit o))
      ≡ fits_take_profit o
unfolding check_take_profit
take_profit-is_none o = ground (
  arith,
  check_trailing-is_none o.stop_order_type o.trailing,
  unset-not_trailing o.take_profit_type,
)

-- A stop order passes exactly when its quantity and its stop price are above zero, its price fits its
-- type, its expire date fits its expiration, and the take-profit fields fit its type: no other type
-- has them, and a take-profit may have complete trailing fields, and must if it is trailing.
pub validate_stop_basics-lem :
    (o : BasicsInput)
    → is_none (validate_stop_basics o) ≡ (
        (is_pos o.quantity && is_price o.stop_price)
        && (fits_type o.stop_order_type o.price
            && (fits_expiration o.expiration_type o.has_expire_date && fits_take_profit o)))
unfolding validate_stop_basics
validate_stop_basics-lem o =
    rw
      (
        or_else-is_none,
        or_else-is_none,
        or_else-is_none,
        or_else-is_none,
        check_amounts-is_none o,
        check_type_price-is_none o.stop_order_type o.price,
        check_expiration-is_none o.expiration_type o.has_expire_date,
        take_profit-is_none o,
      )
      refl
