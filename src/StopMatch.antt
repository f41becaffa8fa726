-- ===== src/StopMatch.antt =====
-- cmd/tinvest/stoporders.go: the journaled request of a stop order, and how the broker's stop orders
-- are matched against it. time.Parse is a parameter, to a moment in nanoseconds.
pub mod Reflects
pub mod Agrees
pub mod Complete
use tinvest.Prelude.{
  ℕ, ◌+◌, Bool, false, not, ◌&&◌, ◌||◌, List, [], ◌∷◌, Option, none, some, Text, text_eq, is_empty,
  ◌==◌, leb, if◌then◌else◌,
}
use tinvest.Prelude.Int.{ℤ, pos, is_pos, eq_ℤ}
use tinvest.Decimal.{Quotation, Parsed, ok, err, parse_quotation}
use tinvest.StopOrders.{
  StopOrderDirection, StopOrderType, ExpirationType, ExchangeOrderType, TakeProfitType,
  TrailingValueType, StatusOption, is_unset_profit, is_unset_exchange, is_none,
}
use tinvest.StopOrders.Names.{
  direction_string, type_string, expiration_string, exchange_string, profit_string, value_string,
}

-- The contract's trailing data and stop order, as far as they are read here.
pub record TrailingData : Type 0 where
  pub indent : Option Quotation
  pub indent_type : TrailingValueType
  pub spread : Option Quotation
  pub spread_type : TrailingValueType

pub record StopOrder : Type 0 where
  pub stop_order_id : Text
  pub instrument_uid : Text
  pub direction : StopOrderDirection
  pub order_type : StopOrderType
  pub lots_requested : ℤ
  pub stop_price : Option Quotation
  pub price : Option Quotation
  pub expiration_time : Option ℕ
  pub create_date : Option ℕ
  pub exchange_order_type : ExchangeOrderType
  pub take_profit_type : TakeProfitType
  pub trailing_data : Option TrailingData
  pub status : StatusOption

-- The journaled request, but for what the reconciliation does not read.
pub record StopOrderPayload : Type 0 where
  pub instrument_id : Text
  pub order_id : Text
  pub direction : Text
  pub stop_order_type : Text
  pub quantity : ℤ
  pub price : Text
  pub stop_price : Text
  pub expiration_type : Text
  pub expire_date : Text
  pub exchange_order_type : Text
  pub take_profit_type : Text
  pub trailing_indent : Text
  pub trailing_indent_type : Text
  pub trailing_spread : Text
  pub trailing_spread_type : Text
  pub created_at : Text

-- time.Parse with the layouts RFC3339Nano and RFC3339.
pub record Stamps : Type 0 where
  pub nano_moment : Text → Option ℕ
  pub moment : Text → Option ℕ

-- GetUnits and GetNano read 0 of a nil message.
abbrev pub units_of : Option Quotation → ℤ
units_of none = pos 0
units_of (some q) = q.units

abbrev pub nano_of : Option Quotation → ℤ
nano_of none = pos 0
nano_of (some q) = q.nano

abbrev pub equals_parsed : Option Quotation → Parsed → Bool
equals_parsed m (err e) = false
equals_parsed m (ok q) = eq_ℤ (units_of m) q.units && eq_ℤ (nano_of m) q.nano

-- `moneyEqualsDecimal` and `quotationEqualsDecimal`
unfoldable pub money_equals_decimal : Option Quotation → Text → Bool
money_equals_decimal m decimal =
    if is_empty decimal then is_none m else equals_parsed m (parse_quotation decimal)

unfoldable pub quotation_equals_decimal : Option Quotation → Text → Bool
quotation_equals_decimal q decimal =
    if is_empty decimal
    then is_none q
    else not (is_none q) && equals_parsed q (parse_quotation decimal)

-- `stopExpirationMatches`, on the parsed date of the payload.
abbrev pub same_moment : Option ℕ → Option ℕ → Bool
same_moment (some a) (some b) = a == b
same_moment _ _ = false

unfoldable pub stop_expiration_matches : Stamps → StopOrder → StopOrderPayload → Bool
stop_expiration_matches at s p =
    if text_eq p.expiration_type (expiration_string ExpirationType.good_till_cancel)
    then is_empty p.expire_date && is_none s.expiration_time
    else if text_eq p.expiration_type (expiration_string ExpirationType.good_till_date)
    then same_moment (at.moment p.expire_date) s.expiration_time
    else false

abbrev pub trailing_matches : Option TrailingData → StopOrderPayload → Bool
trailing_matches none p = false
trailing_matches (some t) p =
    quotation_equals_decimal t.indent p.trailing_indent
    && text_eq (value_string t.indent_type) p.trailing_indent_type
    && quotation_equals_decimal t.spread p.trailing_spread
    && text_eq (value_string t.spread_type) p.trailing_spread_type

unfoldable pub stop_take_profit_matches : StopOrder → StopOrderPayload → Bool
stop_take_profit_matches s p =
    if not (text_eq p.stop_order_type (type_string StopOrderType.take_profit))
    then is_empty p.exchange_order_type
      && is_empty p.take_profit_type
      && is_unset_exchange s.exchange_order_type
      && is_unset_profit s.take_profit_type
      && is_none s.trailing_data
    else if not (text_eq (exchange_string s.exchange_order_type) p.exchange_order_type)
    then false
    else if not (text_eq (profit_string s.take_profit_type) p.take_profit_type)
    then false
    else if not (text_eq p.take_profit_type (profit_string TakeProfitType.trailing))
    then is_none s.trailing_data
    else trailing_matches s.trailing_data p

-- The tests of one stop order in `matchStopOrders`.
unfoldable pub is_match : Stamps → StopOrderPayload → StopOrder → Bool
is_match at p s =
    text_eq s.instrument_uid p.instrument_id
    && text_eq (direction_string s.direction) p.direction
    && text_eq (type_string s.order_type) p.stop_order_type
    && eq_ℤ s.lots_requested p.quantity
    && money_equals_decimal s.stop_price p.stop_price
    && money_equals_decimal s.price p.price
    && stop_expiration_matches at s p
    && stop_take_profit_matches s p

unfoldable pub match_stop_orders : Stamps → StopOrderPayload → List StopOrder → List StopOrder
match_stop_orders at p [] = []
match_stop_orders at p (s ∷ list) =
    let rest = match_stop_orders at p list in if is_match at p s then s ∷ rest else rest

-- stopReconcileClockSkew and stopReconcileCreationWindow, in nanoseconds.
abbrev pub clock_skew : ℕ
clock_skew = 5000000000

abbrev pub creation_window : ℕ
creation_window = 120000000000

abbrev pub in_window : Option ℕ → Option ℕ → Bool
in_window (some intent) (some created) =
    leb intent (created + clock_skew) && leb created (intent + creation_window)
in_window _ _ = false

unfoldable pub stop_creation_matches : Stamps → StopOrder → Text → Bool
stop_creation_matches at s created_at = in_window (at.nano_moment created_at) s.create_date

-- `validateStopMatchPayload`, by the name of its error.
pub data MatchError : Type 0 where
  fields_missing bad_created_at bad_expire_date profit_fields_missing profit_fields_present
        trailing_fields_missing :
      MatchError

abbrev pub misses_fields : StopOrderPayload → Bool
misses_fields p =
    is_empty p.instrument_id
    || is_empty p.direction
    || is_empty p.stop_order_type
    || not (is_pos p.quantity)
    || is_empty p.stop_price
    || is_empty p.expiration_type
    || is_empty p.created_at

abbrev pub misses_trailing : StopOrderPayload → Bool
misses_trailing p =
    is_empty p.trailing_indent
    || is_empty p.trailing_indent_type
    || is_empty p.trailing_spread
    || is_empty p.trailing_spread_type

-- Its tests behind the fields of every type.
unfoldable pub check_match_profit : StopOrderPayload → Option MatchError
check_match_profit p =
    let missing =
      text_eq p.take_profit_type (profit_string TakeProfitType.trailing) && misses_trailing p in
    let rest = if missing then some trailing_fields_missing else none in
    if text_eq p.stop_order_type (type_string StopOrderType.take_profit)
    then (if is_empty p.exchange_order_type || is_empty p.take_profit_type
        then some profit_fields_missing
        else rest)
    else if not (is_empty p.exchange_order_type) || not (is_empty p.take_profit_type)
    then some profit_fields_present
    else rest

unfoldable pub validate_stop_match_payload : Stamps → StopOrderPayload → Option MatchError
validate_stop_match_payload at p =
    if misses_fields p
    then some fields_missing
    else if is_none (at.nano_moment p.created_at)
    then some bad_created_at
    else if text_eq p.expiration_type (expiration_string ExpirationType.good_till_date)
        && is_none (at.moment p.expire_date)
    then some bad_expire_date
    else check_match_profit p
