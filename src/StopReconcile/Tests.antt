-- ===== src/StopReconcile/Tests.antt =====
-- Runs of `stop-orders reconcile` at concrete inputs.
use tinvest.Prelude.{ℕ, ◌≡◌, refl, List, [], ◌∷◌, Option, none, some, Text, codes}
use tinvest.Prelude.Int.{pos}
use tinvest.Decimal.{Quotation}
use tinvest.Ledger.{
  stored, intent_created, send_started, broker_confirmed, Stage, Record, Journal, entry_from_record,
}
use tinvest.Ledger.Aggregate.{assignments, unresolved_of}
use tinvest.StopOrders.{
  StopOrderDirection, StopOrderType, ExchangeOrderType, TakeProfitType, StatusOption,
}
use tinvest.StopMatch.{StopOrder, StopOrderPayload, Stamps}
use tinvest.Reconcile.{Payloads, Target, OutcomeView}
use tinvest.StopReconcile.{
  kind_stop_order_place, stop_listed, StopAnswers, StopPayloads, StopState, resolve_stop,
  reconcile_stops, reconcile_stop_flow,
}
use tinvest.StopReconcile.Founded.{IsFounded, resolve_stop-IsFounded}
use tinvest.StopReconcile.Assigned.{placed_pairs, AreFresh, reconcile_stop_flow-AreFresh}

abbrev line : Stage → Text → Text → ℕ → Record
line stage id stop_order_id seq = record {
  seq = seq;
  ts = codes "t";
  stage = stage;
  intent_id = id;
  kind = kind_stop_order_place;
  account_id = codes "acc";
  profile = [];
  attempt = pos 1;
  payload_hash = [];
  payload = codes "{}";
  order_id = id;
  stop_order_id = stop_order_id;
  exchange_order_id = [];
  tracking_id = [];
  error = [];
  exit_code = none;
}

-- A confirmed stop order, and two sent ones.
abbrev journal : Journal
journal = record {
  seq = 5;
  records =
      line intent_created (codes "a") [] 1
      ∷ line broker_confirmed (codes "a") (codes "s1") 2
      ∷ line send_started (codes "b") [] 3
      ∷ line send_started (codes "c") [] 4
      ∷ [];
}

abbrev ten : Option Quotation
ten = some (record { units = pos 10; nano = pos 500000000 })

abbrev stop : Text → StopOrder
stop id = record {
  stop_order_id = id;
  instrument_uid = codes "uid";
  direction = StopOrderDirection.sell;
  order_type = StopOrderType.stop_loss;
  lots_requested = pos 3;
  stop_price = ten;
  price = none;
  expiration_time = none;
  create_date = some 7000000000;
  exchange_order_type = ExchangeOrderType.unspecified;
  take_profit_type = TakeProfitType.unspecified;
  trailing_data = none;
  status = StatusOption.active;
}

abbrev payload : StopOrderPayload
payload = record {
  instrument_id = codes "uid";
  order_id = codes "b";
  direction = codes "STOP_ORDER_DIRECTION_SELL";
  stop_order_type = codes "STOP_ORDER_TYPE_STOP_LOSS";
  quantity = pos 3;
  price = [];
  stop_price = codes "10.5";
  expiration_type = codes "STOP_ORDER_EXPIRATION_TYPE_GOOD_TILL_CANCEL";
  expire_date = [];
  exchange_order_type = [];
  take_profit_type = [];
  trailing_indent = [];
  trailing_indent_type = [];
  trailing_spread = [];
  trailing_spread_type = [];
  created_at = codes "t";
}

abbrev read : Payloads
read = record { order = λ t. none; endpoint = λ t. some (codes "prod") }

abbrev stops : StopPayloads
stops t = some payload

abbrev stamps : Stamps
stamps = record { nano_moment = λ t. some 6000000000; moment = λ t. none }

abbrev target : Target
target = record { profile = []; endpoint = codes "prod" }

abbrev answers : ℕ → StopAnswers
answers n = record {
  list = stop_listed (stop (codes "s2") ∷ []);
  write = record { io = stored; now = codes "t"; opened = none };
}

abbrev start : StopState
start = record { lists = []; consumed = assignments kind_stop_order_place journal.records }

abbrev run : List OutcomeView × Journal
run =
    reconcile_stops read stops stamps target answers 0 (unresolved_of journal.records) start journal

ran : reconcile_stop_flow read stops stamps target answers [] journal ≡ some run
unfolding reconcile_stop_flow
ran = refl

resolve_stop-IsFounded_example :
    let e = entry_from_record (line send_started (codes "b") [] 3) in
    IsFounded stops stamps e
      (answers 0).list
      start
      (resolve_stop read stops stamps target e (answers 0).list start).0
resolve_stop-IsFounded_example =
    resolve_stop-IsFounded read stops stamps target
      (entry_from_record (line send_started (codes "b") [] 3)) (answers 0).list start

reconcile_stop_flow-AreFresh_example :
    AreFresh (assignments kind_stop_order_place journal.records) (placed_pairs run.0)
reconcile_stop_flow-AreFresh_example =
    reconcile_stop_flow-AreFresh read stops stamps target answers [] journal run.1 run.0 ran
