-- ===== src/Policy.antt =====
-- internal/policy/policy.go: the guardrails that an order passes before anything is sent. A violation
-- is a constructor with the values that its details carry; the texts of the messages are left out.
-- What the file system answers is `KillPath`, and `fold` is strings.EqualFold where a text has
-- bytes outside ASCII.
pub mod Rules
pub mod Load
mod Tests
use tinvest.Prelude.{
  ℕ, ◌+◌, Bool, true, false, not, ◌&&◌, ◌||◌, List, [], ◌∷◌, ◌++◌, Option, none, some, Text, codes,
  text_eq, is_empty, trim_space, ◌==◌, leb, ltb, if◌then◌else◌,
}
use tinvest.Prelude.Int.{ℤ, pos, ◌+ℤ◌, ◌*ℤ◌, is_pos, ltb_ℤ, leb_ℤ}
use tinvest.Decimal.{Quotation, parse_quotation, Parsed, ok, err}
use tinvest.Orders.{OrderDirection, OrderType}

pub record Policy : Type 0 where
  pub allowed_instruments : List Text
  pub max_lots_per_order : ℤ
  pub max_notional_per_order : Text
  pub notional_currency : Text
  pub max_open_orders : ℤ
  pub allow_market_orders : Bool
  pub allow_shorts : Bool
  pub kill_switch_file : Text
  pub present : Bool

pub record OrderIntent : Type 0 where
  pub direction : OrderDirection
  pub order_type : OrderType
  pub lots : ℤ
  pub price : Option Quotation
  pub lot_size : ℤ
  pub currency : Text
  pub uid : Text
  pub figi : Text
  pub ticker : Text
  pub class_code : Text
  pub raw_id : Text

pub data Violation : Type 0 where
  kill_path_unresolved kill_switch_engaged kill_check_failed : Violation
  market_disabled : OrderType → Violation
  too_many_lots : ℤ → ℤ → Violation
  not_in_allowlist : Text → Text → Violation
  currency_unknown : Violation
  currency_differs : Text → Text → Violation
  lot_size_unknown : Violation
  notional_exceeded : Text → ℤ → Violation
  too_many_open_orders : ℤ → ℤ → Violation

-- expandHome and os.Lstat at the kill path: no home directory, something there, a clean not-exists,
-- or another error.
pub data KillPath : Type 0 where
  unresolved exists absent stat_failed : KillPath

-- strings.EqualFold
abbrev pub lower : ℕ → ℕ
lower c = if leb 65 c && leb c 90 then c + 32 else c

abbrev pub is_ascii : Text → Bool
is_ascii [] = true
is_ascii (c ∷ s) = ltb c 128 && is_ascii s

abbrev pub same_letters : Text → Text → Bool
same_letters [] [] = true
same_letters [] (d ∷ t) = false
same_letters (c ∷ s) [] = false
same_letters (c ∷ s) (d ∷ t) = lower c == lower d && same_letters s t

unfoldable pub equal_fold : (Text → Text → Bool) → Text → Text → Bool
equal_fold fold s t = if is_ascii s && is_ascii t then same_letters s t else fold s t

-- On a policy, so not on nil.
unfoldable pub check_kill_switch : Policy → KillPath → Option Violation
check_kill_switch p path = if is_empty p.kill_switch_file then none else elim path [
  | unresolved ↦ some kill_path_unresolved
  | exists ↦ some kill_switch_engaged
  | absent ↦ none
  | stat_failed ↦ some kill_check_failed
]

abbrev pub is_market : OrderType → Bool
is_market OrderType.market = true
is_market OrderType.bestprice = true
is_market _ = false

abbrev first_of : Option Violation → Option Violation → Option Violation
first_of (some v) rest = some v
first_of none rest = rest

unfoldable pub check_market : Policy → OrderIntent → Option Violation
check_market p o =
    if p.present && not p.allow_market_orders && is_market o.order_type
    then some (market_disabled o.order_type)
    else none

unfoldable pub check_lots : Policy → OrderIntent → Option Violation
check_lots p o =
    if is_pos p.max_lots_per_order && ltb_ℤ p.max_lots_per_order o.lots
    then some (too_many_lots p.max_lots_per_order o.lots)
    else none

-- A nil policy has no rule.
unfoldable pub check_local : Option Policy → KillPath → OrderIntent → Option Violation
check_local none path o = none
check_local (some p) path o =
    first_of (check_kill_switch p path) (first_of (check_market p o) (check_lots p o))

unfoldable pub ticker_class : OrderIntent → Text
ticker_class o =
    if not (is_empty o.ticker) && not (is_empty o.class_code)
    then o.ticker ++ (codes "@" ++ o.class_code)
    else []

-- The body of checkAllowlist's loop, on a trimmed entry.
unfoldable pub matches : (Text → Text → Bool) → OrderIntent → Text → Bool
unfolding equal_fold
matches fold o a =
    not (is_empty a)
    && (equal_fold fold a o.uid
        || equal_fold fold a o.figi
        || equal_fold fold a o.raw_id
        || (not (is_empty (ticker_class o)) && equal_fold fold a (ticker_class o)))

unfoldable pub any_match : (Text → Text → Bool) → OrderIntent → List Text → Bool
any_match fold o [] = false
any_match fold o (a ∷ as') = matches fold o (trim_space a) || any_match fold o as'

abbrev no_entries : List Text → Bool
no_entries [] = true
no_entries (a ∷ rest) = false

unfoldable pub check_allowlist : (Text → Text → Bool) → Policy → OrderIntent → Option Violation
check_allowlist fold p o =
    if no_entries p.allowed_instruments
    then none
    else if any_match fold o p.allowed_instruments
    then none
    else some (not_in_allowlist o.uid o.raw_id)

-- quotationRat, in nano-units.
abbrev pub quotation_nanos : Quotation → ℤ
quotation_nanos q = q.units *ℤ pos 1_000_000_000 +ℤ q.nano

-- lots * lotSize * price, in nano-units, as big.Int and big.Rat keep it.
abbrev pub notional : OrderIntent → Quotation → ℤ
notional o price = quotation_nanos price *ℤ (o.lots *ℤ o.lot_size)

-- Against the parsed limit; a limit that does not parse is none.
unfoldable pub check_limit : Policy → OrderIntent → Quotation → Option Violation
check_limit p o price = elim (parse_quotation p.max_notional_per_order) [
  | ok limit ↦
      if ltb_ℤ (quotation_nanos limit) (notional o price)
      then some (notional_exceeded p.max_notional_per_order (notional o price))
      else none
  | err e ↦ none
]

unfoldable pub check_priced :
    (Text → Text → Bool) → Policy → OrderIntent → Quotation → Option Violation
check_priced fold p o price =
    if is_empty o.currency
    then some currency_unknown
    else if not (is_empty p.notional_currency)
        && not (equal_fold fold p.notional_currency o.currency)
    then some (currency_differs o.currency p.notional_currency)
    else if not (is_pos o.lot_size)
    then some lot_size_unknown
    else check_limit p o price

unfoldable pub check_notional : (Text → Text → Bool) → Policy → OrderIntent → Option Violation
check_notional fold p o =
    if is_empty p.max_notional_per_order
    then none
    else elim o.price [ none ↦ none | some price ↦ check_priced fold p o price ]

unfoldable pub check_resolved :
    (Text → Text → Bool) → Option Policy → OrderIntent → Option Violation
check_resolved fold none o = none
check_resolved fold (some p) o = first_of (check_allowlist fold p o) (check_notional fold p o)

unfoldable pub check_open_orders : Option Policy → ℤ → Option Violation
check_open_orders none open_orders = none
check_open_orders (some p) open_orders =
    if not (is_pos p.max_open_orders)
    then none
    else if leb_ℤ p.max_open_orders open_orders
    then some (too_many_open_orders open_orders p.max_open_orders)
    else none
