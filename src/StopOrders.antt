-- ===== src/StopOrders.antt =====
-- internal/broker/stoporders/validate.go and status.go: the flags and the shape of a stop order, and
-- the names of its statuses. Each error is a constructor.
pub mod Shape
pub mod Names
mod Tests
use tinvest.Prelude.{
  ℕ, Bool, true, false, not, ◌&&◌, ◌||◌, Option, none, some, Text, [], codes, text_eq, is_empty,
  if◌then◌else◌,
}
use tinvest.Prelude.Int.{ℤ, is_neg, is_zero, is_pos}
use tinvest.Decimal.{Quotation}

-- The contract's enums; 0 is `unspecified`, and `other` is a number past the named ones.
pub data StopOrderDirection : Type 0 where
  unspecified buy sell : StopOrderDirection
  other : ℕ → StopOrderDirection

pub data StopOrderType : Type 0 where
  unspecified take_profit stop_loss stop_limit : StopOrderType
  other : ℕ → StopOrderType

pub data ExpirationType : Type 0 where
  unspecified good_till_cancel good_till_date : ExpirationType
  other : ℕ → ExpirationType

pub data ExchangeOrderType : Type 0 where
  unspecified market limit : ExchangeOrderType
  other : ℕ → ExchangeOrderType

pub data TakeProfitType : Type 0 where
  unspecified regular trailing : TakeProfitType
  other : ℕ → TakeProfitType

pub data TrailingValueType : Type 0 where
  unspecified absolute relative : TrailingValueType
  other : ℕ → TrailingValueType

pub data StatusOption : Type 0 where
  unspecified all active executed canceled expired : StatusOption
  other : ℕ → StatusOption

unfoldable pub stop_direction : Text → Option StopOrderDirection
stop_direction s =
    if text_eq s (codes "buy")
    then some StopOrderDirection.buy
    else if text_eq s (codes "sell")
    then some StopOrderDirection.sell
    else none

unfoldable pub stop_order_type : Text → Option StopOrderType
stop_order_type s =
    if text_eq s (codes "take-profit")
    then some StopOrderType.take_profit
    else if text_eq s (codes "stop-loss")
    then some StopOrderType.stop_loss
    else if text_eq s (codes "stop-limit")
    then some StopOrderType.stop_limit
    else none

unfoldable pub expiration : Text → Option ExpirationType
expiration s =
    if is_empty s || text_eq s (codes "gtc")
    then some ExpirationType.good_till_cancel
    else if text_eq s (codes "gtd")
    then some ExpirationType.good_till_date
    else none

unfoldable pub exchange_order_type : Text → Option ExchangeOrderType
exchange_order_type s =
    if is_empty s || text_eq s (codes "market")
    then some ExchangeOrderType.market
    else if text_eq s (codes "limit")
    then some ExchangeOrderType.limit
    else none

unfoldable pub take_profit_type : Text → Option TakeProfitType
take_profit_type s =
    if is_empty s || text_eq s (codes "regular")
    then some TakeProfitType.regular
    else if text_eq s (codes "trailing")
    then some TakeProfitType.trailing
    else none

unfoldable pub trailing_value_type : Text → Option TrailingValueType
trailing_value_type s =
    if text_eq s (codes "absolute")
    then some TrailingValueType.absolute
    else if text_eq s (codes "relative")
    then some TrailingValueType.relative
    else none

unfoldable pub status_option : Text → Option StatusOption
status_option s =
    if is_empty s
    then some StatusOption.unspecified
    else if text_eq s (codes "all")
    then some StatusOption.all
    else if text_eq s (codes "active")
    then some StatusOption.active
    else if text_eq s (codes "executed")
    then some StatusOption.executed
    else if text_eq s (codes "canceled")
    then some StatusOption.canceled
    else if text_eq s (codes "expired")
    then some StatusOption.expired
    else none

unfoldable pub status_name : StatusOption → Text
status_name StatusOption.active = codes "active"
status_name StatusOption.executed = codes "executed"
status_name StatusOption.canceled = codes "canceled"
status_name StatusOption.expired = codes "expired"
status_name _ = codes "unspecified"

unfoldable pub is_terminal_status : StatusOption → Bool
is_terminal_status StatusOption.executed = true
is_terminal_status StatusOption.canceled = true
is_terminal_status StatusOption.expired = true
is_terminal_status _ = false

pub record TrailingParams : Type 0 where
  pub indent : Option Quotation
  pub indent_type : TrailingValueType
  pub spread : Option Quotation
  pub spread_type : TrailingValueType

pub record BasicsInput : Type 0 where
  pub stop_order_type : StopOrderType
  pub quantity : ℤ
  pub price : Option Quotation
  pub stop_price : Option Quotation
  pub expiration_type : ExpirationType
  pub has_expire_date : Bool
  pub exchange_order_type : ExchangeOrderType
  pub take_profit_type : TakeProfitType
  pub trailing : Option TrailingParams

pub data BasicsError : Type 0 where
  bad_quantity : ℤ → BasicsError
  stop_price_required stop_price_negative limit_price_required price_negative : BasicsError
  price_not_allowed type_required date_not_allowed date_required : BasicsError
  expiration_required trailing_not_allowed trailing_incomplete : BasicsError
  take_profit_type_not_allowed exchange_order_type_not_allowed : BasicsError
  trailing_type_not_allowed trailing_required : BasicsError

unfoldable pub is_zero_quotation : Option Quotation → Bool
is_zero_quotation none = true
is_zero_quotation (some q) = is_zero q.units && is_zero q.nano

-- GetUnits() < 0 || GetNano() < 0, where a nil message reads 0.
unfoldable pub is_negative : Option Quotation → Bool
is_negative none = false
is_negative (some q) = is_neg q.units || is_neg q.nano

abbrev pub is_none : {A : Type 0} → Option A → Bool
is_none none = true
is_none (some x) = false

unfoldable pub check_type_price : StopOrderType → Option Quotation → Option BasicsError
check_type_price StopOrderType.stop_limit price =
    if is_zero_quotation price
    then some limit_price_required
    else if is_negative price
    then some price_negative
    else none
check_type_price StopOrderType.take_profit price =
    if is_none price then none else some price_not_allowed
check_type_price StopOrderType.stop_loss price =
    if is_none price then none else some price_not_allowed
check_type_price _ price = some type_required

unfoldable pub check_expiration : ExpirationType → Bool → Option BasicsError
check_expiration ExpirationType.good_till_cancel dated =
    if dated then some date_not_allowed else none
check_expiration ExpirationType.good_till_date dated = if dated then none else some date_required
check_expiration _ dated = some expiration_required

abbrev pub is_take_profit : StopOrderType → Bool
is_take_profit StopOrderType.take_profit = true
is_take_profit _ = false

unfoldable pub check_trailing : StopOrderType → Option TrailingParams → Option BasicsError
check_trailing t none = none
check_trailing t (some p) =
    if not (is_take_profit t)
    then some trailing_not_allowed
    else if is_zero_quotation p.indent || is_zero_quotation p.spread
    then some trailing_incomplete
    else none

abbrev pub is_unset_profit : TakeProfitType → Bool
is_unset_profit TakeProfitType.unspecified = true
is_unset_profit _ = false

abbrev pub is_unset_exchange : ExchangeOrderType → Bool
is_unset_exchange ExchangeOrderType.unspecified = true
is_unset_exchange _ = false

abbrev pub is_trailing : TakeProfitType → Bool
is_trailing TakeProfitType.trailing = true
is_trailing _ = false

-- The last three tests of ValidateBasics.
unfoldable pub check_take_profit : BasicsInput → Option BasicsError
check_take_profit o =
    if not (is_take_profit o.stop_order_type) && not (is_unset_profit o.take_profit_type)
    then some take_profit_type_not_allowed
    else if not (is_take_profit o.stop_order_type) && not (is_unset_exchange o.exchange_order_type)
    then some exchange_order_type_not_allowed
    else if is_trailing o.take_profit_type && not (is_take_profit o.stop_order_type)
    then some trailing_type_not_allowed
    else if is_trailing o.take_profit_type && is_none o.trailing
    then some trailing_required
    else none

abbrev pub or_else : Option BasicsError → Option BasicsError → Option BasicsError
or_else (some e) rest = some e
or_else none rest = rest

unfoldable pub check_amounts : BasicsInput → Option BasicsError
check_amounts o =
    if not (is_pos o.quantity)
    then some (bad_quantity o.quantity)
    else if is_zero_quotation o.stop_price
    then some stop_price_required
    else if is_negative o.stop_price
    then some stop_price_negative
    else none

-- ValidateBasics
unfoldable pub validate_stop_basics : BasicsInput → Option BasicsError
validate_stop_basics o = or_else (check_amounts o) (
    or_else (check_type_price o.stop_order_type o.price) (
      or_else (check_expiration o.expiration_type o.has_expire_date)
        (or_else (check_trailing o.stop_order_type o.trailing) (check_take_profit o))))
