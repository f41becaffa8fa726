-- ===== src/Orders.antt =====
-- internal/broker/orders/validate.go and status.go: the flags and the shape of an order, and the names
-- of its states. The texts of the errors are left out: each error is a constructor with what it names.
pub mod Shape
pub mod Increment
pub mod States
mod Tests
use tinvest.Prelude.{
  ℕ, ◌+◌, ◌%◌, Bool, true, false, not, Option, none, some, Text, [], codes, text_eq, ◌==◌,
  if◌then◌else◌,
}
use tinvest.Prelude.Int.{ℤ, pos, negsuc, ◌+ℤ◌, ◌*ℤ◌, neg, abs, is_neg, is_zero, is_pos, wrap64}
use tinvest.Decimal.{Quotation}

-- The contract's enums; `other` is any number past the named ones, and 0 is `unspecified`.
pub data OrderDirection : Type 0 where
  unspecified buy sell : OrderDirection

pub data OrderType : Type 0 where
  unspecified limit market bestprice : OrderType
  other : ℕ → OrderType

pub data TimeInForceType : Type 0 where
  unspecified day fill_and_kill fill_or_kill : TimeInForceType

pub data ValidationError : Type 0 where
  bad_direction bad_type bad_tif : Text → ValidationError
  bad_quantity : ℤ → ValidationError
  price_required : ValidationError
  price_not_allowed : OrderType → ValidationError
  not_a_multiple : Quotation → Quotation → ValidationError

unfoldable pub direction : Text → Option OrderDirection
direction s =
    if text_eq s (codes "buy")
    then some OrderDirection.buy
    else if text_eq s (codes "sell")
    then some OrderDirection.sell
    else none

unfoldable pub order_type : Text → Option OrderType
order_type s =
    if text_eq s (codes "limit")
    then some OrderType.limit
    else if text_eq s (codes "market")
    then some OrderType.market
    else if text_eq s (codes "bestprice")
    then some OrderType.bestprice
    else none

unfoldable pub time_in_force : Text → Option TimeInForceType
time_in_force s =
    if text_eq s []
    then some TimeInForceType.unspecified
    else if text_eq s (codes "day")
    then some TimeInForceType.day
    else if text_eq s (codes "ioc")
    then some TimeInForceType.fill_and_kill
    else if text_eq s (codes "fok")
    then some TimeInForceType.fill_or_kill
    else none

-- The switch of ValidateBasics; none is a nil error.
unfoldable pub check_price : OrderType → Option Quotation → Option ValidationError
check_price OrderType.limit none = some price_required
check_price OrderType.limit (some price) = none
check_price OrderType.market none = none
check_price OrderType.market (some price) = some (price_not_allowed OrderType.market)
check_price OrderType.bestprice none = none
check_price OrderType.bestprice (some price) = some (price_not_allowed OrderType.bestprice)
check_price OrderType.unspecified price = none
check_price (OrderType.other n) price = none

unfoldable pub validate_basics : OrderType → ℤ → Option Quotation → Option ValidationError
validate_basics t lots price = if is_pos lots then check_price t price else some (bad_quantity lots)

-- units * 1e9 + nano, in an int64.
unfoldable pub nano_units : Quotation → ℤ
nano_units q = wrap64 (wrap64 (q.units *ℤ pos 1_000_000_000) +ℤ q.nano)

-- `if x < 0 { x = -x }`, in an int64.
unfoldable pub abs_int64 : ℤ → ℤ
abs_int64 z = if is_neg z then wrap64 (neg z) else z

-- x % y of Go, for y not 0: the remainder has the sign of x.
unfoldable pub go_rem : ℤ → ℤ → ℤ
go_rem (pos n) y = pos (n % abs y)
go_rem (negsuc n) y = neg (pos ((n + 1) % abs y))

unfoldable pub validate_price_increment :
    Option Quotation → Option Quotation → Option ValidationError
validate_price_increment none increment = none
validate_price_increment (some price) none = none
validate_price_increment (some price) (some increment) =
    let incr = nano_units increment in
    if is_zero incr
    then none
    else if is_zero (go_rem (abs_int64 (nano_units price)) (abs_int64 incr))
    then none
    else some (not_a_multiple price increment)

-- The contract's execution-report statuses.
pub data ReportStatus : Type 0 where
  unspecified fill rejected cancelled new partially_fill : ReportStatus
  other : ℕ → ReportStatus

unfoldable pub lifecycle : ReportStatus → Text
lifecycle ReportStatus.new = codes "new"
lifecycle ReportStatus.partially_fill = codes "partially-filled"
lifecycle ReportStatus.fill = codes "filled"
lifecycle ReportStatus.cancelled = codes "cancelled"
lifecycle ReportStatus.rejected = codes "rejected"
lifecycle _ = codes "unspecified"

unfoldable pub is_terminal : ReportStatus → Bool
is_terminal ReportStatus.fill = true
is_terminal ReportStatus.cancelled = true
is_terminal ReportStatus.rejected = true
is_terminal _ = false

unfoldable pub is_rejected : ReportStatus → Bool
is_rejected ReportStatus.rejected = true
is_rejected _ = false
