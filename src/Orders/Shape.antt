-- ===== src/Orders/Shape.antt =====
-- internal/broker/orders/validate.go: the shapes that ValidateBasics lets through.
use tinvest.Prelude.{
  ◌≡◌, refl, Bool, true, false, ◌&&◌, not, Option, none, some, Text, arith, if◌then◌else◌,
}
use tinvest.Prelude.Int.{ℤ, is_pos}
use tinvest.Decimal.{Quotation}
use tinvest.Orders.{OrderType, order_type, check_price, validate_basics}

abbrev pub is_none : {A : Type 0} → Option A → Bool
is_none none = true
is_none (some x) = false

abbrev pub is_limit : OrderType → Bool
is_limit OrderType.limit = true
is_limit _ = false

-- The types that the contract and the command line name.
abbrev pub is_named : OrderType → Bool
is_named OrderType.limit = true
is_named OrderType.market = true
is_named OrderType.bestprice = true
is_named _ = false

order_type-is_named : (flag : Text) (t : OrderType) → order_type flag ≡ some t → is_named t ≡ true
unfolding order_type
order_type-is_named flag t h = ground arith

check_price-named :
    (t : OrderType) (price : Option Quotation)
    → is_named t ≡ true
    → is_none (check_price t price) ≡ (if is_limit t then not (is_none price) else is_none price)
unfolding check_price
check_price-named OrderType.limit none h = refl
check_price-named OrderType.limit (some p) h = refl
check_price-named OrderType.market none h = refl
check_price-named OrderType.market (some p) h = refl
check_price-named OrderType.bestprice none h = refl
check_price-named OrderType.bestprice (some p) h = refl
check_price-named OrderType.unspecified price h = cc
check_price-named (OrderType.other n) price h = cc

-- An order whose type the command line has parsed passes the shape check exactly when its lots are
-- positive and it has a price just if its type is limit.
pub validate_basics-order_type :
    (flag : Text) (t : OrderType) (lots : ℤ) (price : Option Quotation)
    → order_type flag ≡ some t
    → is_none (validate_basics t lots price)
      ≡ (is_pos lots && (if is_limit t then not (is_none price) else is_none price))
unfolding validate_basics
validate_basics-order_type flag t lots price h =
    ground (arith, check_price-named t price (order_type-is_named flag t h))
