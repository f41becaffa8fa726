-- ===== src/PlaceCommand/Tests.antt =====
-- A run of `orders place` at concrete inputs.
use tinvest.Prelude.{
  ◌≡◌, refl, true, false, [], ◌∷◌, none, some, Text, codes, trim_space, skip_spaces, space_first,
  space_last,
}
use tinvest.Prelude.Int.{pos, wrap64}
use tinvest.Strconv.{parse_int}
use tinvest.Phase.{begin, out_payload, ended}
use tinvest.Decimal.{
  before_dot, after_dot, parse_fraction, signed, convert_parts, parse_parts, parse_unsigned,
  parse_signed, parse_quotation,
}
use tinvest.Ledger.{stored, Env, Journal}
use tinvest.Orders.{
  OrderDirection, OrderType, TimeInForceType, ReportStatus, direction, order_type, time_in_force,
  check_price, validate_basics, validate_price_increment, nano_units, abs_int64, go_rem,
}
use tinvest.Policy.{
  Policy, absent, equal_fold, check_local, check_resolved, check_open_orders, check_kill_switch,
  check_market, check_lots, check_allowlist, any_match, matches, ticker_class, check_notional,
  check_priced, check_limit,
}
use tinvest.Placement.{Disk, Placed, answered, place_exec}
use tinvest.Identifiers.{
  classify_id, classify_trimmed, before_at, after_at, without_dashes, validate_order_id,
}
use tinvest.PlaceRequest.{
  PlaceInput, ResolvedPlace, built, read_price, read_order_id, build_place, absolute_policy_price,
  Instrument, Settings, local_intent, resolved_intent, place_intent,
}
use tinvest.PlaceCommand.{found, opened, World, Library, check_kill, executed, run_place}
use tinvest.PlaceCommand.Gates.{IsPassed, run_place-IsPassed}
use tinvest.PlaceCommand.Runs.{IsOpen, run_place-executes}

abbrev id : Text
id = codes "5f2c7c3e-1d2b-4a6f-9c3d-0123456789ab"

abbrev input : PlaceInput
input = record {
  instrument = codes "SBER@TQBR";
  direction = codes "buy";
  quantity = pos 10;
  type_name = codes "limit";
  price = codes "300";
  tif = [];
  order_id = id;
  async = false;
  confirm_margin_trade = false;
  dry_run = false;
}

abbrev request : ResolvedPlace
request = record {
  instrument = codes "SBER@TQBR";
  direction = OrderDirection.buy;
  order_type = OrderType.limit;
  lots = pos 10;
  price = some (record { units = pos 300; nano = pos 0 });
  price_str = codes "300";
  tif = TimeInForceType.unspecified;
  tif_str = [];
  order_id = id;
  async = false;
  confirm_margin_trade = false;
  dry_run = false;
}

is_built : build_place none input ≡ built request
unfolding build_place classify_id classify_trimmed before_at after_at direction order_type
    time_in_force read_price read_order_id validate_order_id without_dashes trim_space skip_spaces
    space_first space_last parse_quotation parse_signed parse_unsigned before_dot after_dot
    parse_parts convert_parts parse_fraction parse_int signed
is_built = refl

abbrev guarded : Policy
guarded = record {
  allowed_instruments = codes "sber@TQBR" ∷ [];
  max_lots_per_order = pos 10;
  max_notional_per_order = codes "100000.5";
  notional_currency = codes "rub";
  max_open_orders = pos 5;
  allow_market_orders = false;
  allow_shorts = false;
  kill_switch_file = codes "/tmp/kill";
  present = true;
}

abbrev inst : Instrument
inst = record {
  uid = codes "u";
  figi = codes "f";
  ticker = codes "SBER";
  class_code = codes "TQBR";
  lot = pos 10;
  currency = codes "RUB";
  min_price_increment = some (record { units = pos 0; nano = pos 10000000 });
}

abbrev at_once : Env
at_once = record { io = stored; now = codes "t"; opened = none }

abbrev disk : Disk
disk = record {
  begun = at_once;
  sent = at_once;
  closed = at_once;
  begin_error = [];
  sent_error = [];
}

abbrev world : World
world = record {
  random = none;
  loaded = some (some guarded);
  kill_first = absent;
  kill_last = absent;
  connected = none;
  instrument = found inst;
  locked = true;
  open_orders = opened 4;
  ledger_opened = true;
  start = codes "t";
  disk = disk;
  events = begin ∷ out_payload ∷ ended false ∷ [];
  reply =
      answered (record {
        execution_report_status = ReportStatus.fill;
        order_id = codes "9";
        message = [];
      });
}

abbrev lib : Library
lib = record { fold = λ s t. false; sum = λ t. t; describe = λ e. []; write = λ d. d.order_id }

abbrev settings : Settings
settings = record { account_id = codes "acc"; profile = []; endpoint = codes "prod" }

abbrev empty : Journal
empty = record { seq = 0; records = [] }

gates : IsOpen lib world settings request inst (some guarded) 4
unfolding validate_basics check_price validate_price_increment nano_units abs_int64 go_rem
    local_intent resolved_intent absolute_policy_price check_local check_kill_switch check_market
    check_lots check_resolved check_allowlist any_match matches ticker_class equal_fold trim_space
    skip_spaces space_first space_last check_notional check_priced check_limit parse_quotation
    parse_signed parse_unsigned before_dot after_dot parse_parts convert_parts parse_fraction
    parse_int signed check_open_orders check_kill wrap64
gates = record {
  shaped = refl;
  real = refl;
  has_account = refl;
  is_loaded = refl;
  local = refl;
  online = refl;
  is_found = refl;
  resolved = refl;
  stepped = refl;
  locked = refl;
  listed = refl;
  room = refl;
  has_ledger = refl;
  clean = refl;
}

abbrev outcome : Placed
outcome =
    place_exec lib.sum lib.describe disk
      (place_intent lib.write settings inst.uid world.start request) id world.events world.reply
      empty

ran : run_place lib world settings input empty ≡ executed outcome
ran = run_place-executes lib world settings input empty request inst (some guarded) 4 is_built gates

run_place-IsPassed_example : IsPassed lib world settings input empty outcome
run_place-IsPassed_example = run_place-IsPassed lib world settings input empty outcome ran
