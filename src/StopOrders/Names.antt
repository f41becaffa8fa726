-- ===== src/StopOrders/Names.antt =====
-- pb/investapi/stoporders.pb.go: the texts of the stop orders' enums in the contract.
use tinvest.Prelude.{Text, codes}
use tinvest.Strconv.{format_nat}
use tinvest.StopOrders.{
  StopOrderDirection, StopOrderType, ExpirationType, ExchangeOrderType, TakeProfitType,
  TrailingValueType,
}

-- The enums' String methods; a number past the names is written as it is.
unfoldable pub direction_string : StopOrderDirection → Text
direction_string StopOrderDirection.unspecified = codes "STOP_ORDER_DIRECTION_UNSPECIFIED"
direction_string StopOrderDirection.buy = codes "STOP_ORDER_DIRECTION_BUY"
direction_string StopOrderDirection.sell = codes "STOP_ORDER_DIRECTION_SELL"
direction_string (StopOrderDirection.other n) = format_nat n

unfoldable pub type_string : StopOrderType → Text
type_string StopOrderType.unspecified = codes "STOP_ORDER_TYPE_UNSPECIFIED"
type_string StopOrderType.take_profit = codes "STOP_ORDER_TYPE_TAKE_PROFIT"
type_string StopOrderType.stop_loss = codes "STOP_ORDER_TYPE_STOP_LOSS"
type_string StopOrderType.stop_limit = codes "STOP_ORDER_TYPE_STOP_LIMIT"
type_string (StopOrderType.other n) = format_nat n

unfoldable pub expiration_string : ExpirationType → Text
expiration_string ExpirationType.unspecified = codes "STOP_ORDER_EXPIRATION_TYPE_UNSPECIFIED"
expiration_string ExpirationType.good_till_cancel =
    codes "STOP_ORDER_EXPIRATION_TYPE_GOOD_TILL_CANCEL"
expiration_string ExpirationType.good_till_date = codes "STOP_ORDER_EXPIRATION_TYPE_GOOD_TILL_DATE"
expiration_string (ExpirationType.other n) = format_nat n

unfoldable pub exchange_string : ExchangeOrderType → Text
exchange_string ExchangeOrderType.unspecified = codes "EXCHANGE_ORDER_TYPE_UNSPECIFIED"
exchange_string ExchangeOrderType.market = codes "EXCHANGE_ORDER_TYPE_MARKET"
exchange_string ExchangeOrderType.limit = codes "EXCHANGE_ORDER_TYPE_LIMIT"
exchange_string (ExchangeOrderType.other n) = format_nat n

unfoldable pub profit_string : TakeProfitType → Text
profit_string TakeProfitType.unspecified = codes "TAKE_PROFIT_TYPE_UNSPECIFIED"
profit_string TakeProfitType.regular = codes "TAKE_PROFIT_TYPE_REGULAR"
profit_string TakeProfitType.trailing = codes "TAKE_PROFIT_TYPE_TRAILING"
profit_string (TakeProfitType.other n) = format_nat n

unfoldable pub value_string : TrailingValueType → Text
value_string TrailingValueType.unspecified = codes "TRAILING_VALUE_UNSPECIFIED"
value_string TrailingValueType.absolute = codes "TRAILING_VALUE_ABSOLUTE"
value_string TrailingValueType.relative = codes "TRAILING_VALUE_RELATIVE"
value_string (TrailingValueType.other n) = format_nat n
