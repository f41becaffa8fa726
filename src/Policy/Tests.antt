-- ===== src/Policy/Tests.antt =====
-- The guardrails at concrete inputs.
use tinvest.Prelude.{
  Bool, true, false, ◌≡◌, refl, [], ◌∷◌, none, some, Text, codes, trim_space, skip_spaces,
  space_first, space_last,
}
use tinvest.Prelude.Int.{pos}
use tinvest.Strconv.{parse_int}
use tinvest.Decimal.{
  before_dot, after_dot, parse_fraction, signed, convert_parts, parse_parts, parse_unsigned,
  parse_signed, parse_quotation,
}
use tinvest.Orders.{OrderDirection, OrderType}
use tinvest.Policy.{
  Policy, OrderIntent, absent, equal_fold, check_local, check_resolved, check_open_orders,
  check_kill_switch, check_market, check_lots, check_allowlist, any_match, matches, ticker_class,
  check_notional, check_priced, check_limit,
}
use tinvest.Policy.Rules.{IsWithin, checks-IsWithin}

abbrev guarded : Policy
guarded = record {
  allowed_instruments = codes " sber@TQBR " ∷ [];
  max_lots_per_order = pos 10;
  max_notional_per_order = codes "100000.5";
  notional_currency = codes "rub";
  max_open_orders = pos 5;
  allow_market_orders = false;
  allow_shorts = false;
  kill_switch_file = codes "/tmp/kill";
  present = true;
}

abbrev order : OrderIntent
order = record {
  direction = OrderDirection.buy;
  order_type = OrderType.limit;
  lots = pos 10;
  price = some (record { units = pos 300; nano = pos 0 });
  lot_size = pos 10;
  currency = codes "RUB";
  uid = codes "u";
  figi = codes "f";
  ticker = codes "SBER";
  class_code = codes "TQBR";
  raw_id = codes "SBER@TQBR";
}

abbrev never : Text → Text → Bool
never s t = false

passes_local : check_local (some guarded) absent order ≡ none
unfolding check_local check_kill_switch check_market check_lots
passes_local = refl

passes_resolved : check_resolved never (some guarded) order ≡ none
unfolding check_resolved check_allowlist any_match matches ticker_class equal_fold trim_space
    skip_spaces space_first space_last check_notional check_priced check_limit parse_quotation
    parse_signed parse_unsigned before_dot after_dot parse_parts convert_parts parse_fraction
    parse_int signed
passes_resolved = refl

has_room : check_open_orders (some guarded) (pos 4) ≡ none
unfolding check_open_orders
has_room = refl

checks-IsWithin_example : IsWithin never guarded absent order (pos 4)
checks-IsWithin_example =
    checks-IsWithin never guarded absent order (pos 4) passes_local passes_resolved has_room
