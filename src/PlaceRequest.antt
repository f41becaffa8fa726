-- ===== src/PlaceRequest.antt =====
-- cmd/tinvest/orders.go, buildPlace and what runPlace makes of its result: the request behind the
-- flags or the JSON input, the intents that the policy judges, and the journaled document. Each error
-- is a constructor.
pub mod Accepted
use tinvest.Prelude.{
  ℕ, Bool, true, false, not, ◌&&◌, List, [], ◌∷◌, Option, none, some, Text, codes, is_empty,
  trim_space, if◌then◌else◌,
}
use tinvest.Prelude.Int.{ℤ, pos, neg, is_neg, wrap64, wrap32}
use tinvest.Strconv.{format_nat}
use tinvest.Decimal.{Quotation, ParseError, Parsed, ok, err, parse_quotation}
use tinvest.Orders.{
  OrderDirection, OrderType, TimeInForceType, direction, order_type, time_in_force,
}
use tinvest.Identifiers.{
  ParsedId, InvalidId, Classified, classified, invalid, classify_id, validate_order_id,
  new_order_id,
}
use tinvest.Policy.{OrderIntent}
use tinvest.Ledger.{Intent}

pub record PlaceInput : Type 0 where
  pub instrument : Text
  pub direction : Text
  pub quantity : ℤ
  pub type_name : Text
  pub price : Text
  pub tif : Text
  pub order_id : Text
  pub async : Bool
  pub confirm_margin_trade : Bool
  pub dry_run : Bool

pub record ResolvedPlace : Type 0 where
  pub instrument : Text
  pub direction : OrderDirection
  pub order_type : OrderType
  pub lots : ℤ
  pub price : Option Quotation
  pub price_str : Text
  pub tif : TimeInForceType
  pub tif_str : Text
  pub order_id : Text
  pub async : Bool
  pub confirm_margin_trade : Bool
  pub dry_run : Bool

pub data RequestError : Type 0 where
  bad_instrument : InvalidId → RequestError
  bad_direction bad_type bad_tif : Text → RequestError
  bad_price : ParseError → RequestError
  no_random bad_order_id : RequestError

pub data Built : Type 0 where
  built : ResolvedPlace → Built
  refused : RequestError → Built

-- The price of a trimmed text: absent, or parsed.
pub data PriceRead : Type 0 where
  priced : Option Quotation → PriceRead
  unpriced : ParseError → PriceRead

abbrev pub parsed_price : Parsed → PriceRead
parsed_price (ok q) = priced (some q)
parsed_price (err e) = unpriced e

unfoldable pub read_price : Text → PriceRead
read_price s = if is_empty s then priced none else parsed_price (parse_quotation s)

-- The order id of a trimmed text, generated if that is empty; `random` is what rand.Read gives.
unfoldable pub read_order_id : Option (List ℕ) → Text → Option Text
read_order_id random s =
    if is_empty s
    then elim random [ none ↦ none | some bytes ↦ some (new_order_id bytes) ]
    else some s

abbrev pub with_order_id :
    PlaceInput
    → OrderDirection
    → OrderType
    → TimeInForceType
    → Option Quotation
    → Option Text
    → Built
with_order_id i d t f price none = refused no_random
with_order_id i d t f price (some id) =
    if not (validate_order_id id)
    then refused bad_order_id
    else built (record {
      instrument = i.instrument;
      direction = d;
      order_type = t;
      lots = i.quantity;
      price = price;
      price_str = trim_space i.price;
      tif = f;
      tif_str = i.tif;
      order_id = id;
      async = i.async;
      confirm_margin_trade = i.confirm_margin_trade;
      dry_run = i.dry_run;
    })

abbrev pub with_price :
    Option (List ℕ) → PlaceInput → OrderDirection → OrderType → TimeInForceType → PriceRead → Built
with_price random i d t f (unpriced e) = refused (bad_price e)
with_price random i d t f (priced price) =
    with_order_id i d t f price (read_order_id random (trim_space i.order_id))

abbrev pub with_tif :
    Option (List ℕ) → PlaceInput → OrderDirection → OrderType → Option TimeInForceType → Built
with_tif random i d t none = refused (bad_tif i.tif)
with_tif random i d t (some f) = with_price random i d t f (read_price (trim_space i.price))

abbrev pub with_type : Option (List ℕ) → PlaceInput → OrderDirection → Option OrderType → Built
with_type random i d none = refused (bad_type i.type_name)
with_type random i d (some t) = with_tif random i d t (time_in_force i.tif)

abbrev pub with_direction : Option (List ℕ) → PlaceInput → Option OrderDirection → Built
with_direction random i none = refused (bad_direction i.direction)
with_direction random i (some d) = with_type random i d (order_type i.type_name)

abbrev pub with_id : Option (List ℕ) → PlaceInput → Classified → Built
with_id random i (invalid e) = refused (bad_instrument e)
with_id random i (classified p) = with_direction random i (direction i.direction)

-- `buildPlace`
unfoldable pub build_place : Option (List ℕ) → PlaceInput → Built
build_place random i = with_id random i (classify_id i.instrument)

-- `absolutePolicyPrice`
unfoldable pub absolute_policy_price : Option Quotation → Option Quotation
absolute_policy_price none = none
absolute_policy_price (some q) =
    if not (is_neg q.units) && not (is_neg q.nano)
    then some q
    else some (record { units = wrap64 (neg q.units); nano = wrap32 (neg q.nano) })

-- The parts of an Instrument that the commands read.
pub record Instrument : Type 0 where
  pub uid : Text
  pub figi : Text
  pub ticker : Text
  pub class_code : Text
  pub lot : ℤ
  pub currency : Text
  pub min_price_increment : Option Quotation

unfoldable pub local_intent : ResolvedPlace → OrderIntent
local_intent rp = record {
  direction = rp.direction;
  order_type = rp.order_type;
  lots = rp.lots;
  price = absolute_policy_price rp.price;
  lot_size = pos 0;
  currency = [];
  uid = [];
  figi = [];
  ticker = [];
  class_code = [];
  raw_id = rp.instrument;
}

unfoldable pub resolved_intent : OrderIntent → Instrument → OrderIntent
resolved_intent o inst = record o {
  uid = inst.uid;
  figi = inst.figi;
  ticker = inst.ticker;
  class_code = inst.class_code;
  lot_size = inst.lot;
  currency = inst.currency;
}

pub record Settings : Type 0 where
  pub account_id : Text
  pub profile : Text
  pub endpoint : Text

-- The journaled request of a placement; its enums are written by String.
pub record OrderDocument : Type 0 where
  pub account_id : Text
  pub endpoint : Text
  pub instrument_id : Text
  pub order_id : Text
  pub direction : OrderDirection
  pub order_type : OrderType
  pub lots : ℤ
  pub price : Text
  pub time_in_force : Text
  pub async : Bool
  pub created_at : Text
  pub confirm_margin_trade : Bool

unfoldable pub order_document : Settings → Text → Text → ResolvedPlace → OrderDocument
order_document s uid start rp = record {
  account_id = s.account_id;
  endpoint = s.endpoint;
  instrument_id = uid;
  order_id = rp.order_id;
  direction = rp.direction;
  order_type = rp.order_type;
  lots = rp.lots;
  price = rp.price_str;
  time_in_force = rp.tif_str;
  async = rp.async;
  created_at = start;
  confirm_margin_trade = rp.confirm_margin_trade;
}

-- The ledger's intent of a placement; `write` is json.Marshal.
unfoldable pub place_intent :
    (OrderDocument → Text) → Settings → Text → Text → ResolvedPlace → Intent
place_intent write s uid start rp = record {
  intent_id = rp.order_id;
  kind = codes "order.place";
  account_id = s.account_id;
  profile = s.profile;
  attempt = pos 1;
  order_id = rp.order_id;
  stop_order_id = [];
  payload = write (order_document s uid start rp);
}
