-- ===== src/Reconcile.antt =====
-- cmd/tinvest/orders.go, reconcileFlowForTarget: what `orders reconcile` makes of every intent that
-- the recovery scan reports. The broker's answers are the `Answers` of each entry, in the order of
-- the calls; the journal's payload is read by `Payloads`, and time.Parse by `Clock`.
pub mod Evidence
pub mod Kept
pub mod Scan
pub mod Exit
pub mod Reused
mod Tests
use tinvest.Prelude.{
  ℕ, suc, ◌+◌, Bool, true, false, not, ◌&&◌, ◌||◌, List, [], ◌∷◌, ◌++◌, Option, none, some, Text,
  codes, text_eq, is_empty, ◌==◌, if◌then◌else◌,
}
use tinvest.Phase.{CallInfo}
use tinvest.Errors.{CallError, is_not_found}
use tinvest.Ledger.{
  Stage, intent_created, send_started, broker_confirmed, broker_rejected, reconciled, other_stage,
  Outcome, Entry, Env, Journal, reconcile_entry,
}
use tinvest.Ledger.Lines.{Corruption}
use tinvest.Ledger.Aggregate.{is_created, unresolved_of}
use tinvest.Orders.{ReportStatus, lifecycle}

-- What the command reads of an OrderState.
pub record OrderState : Type 0 where
  pub order_id : Text
  pub order_request_id : Text
  pub execution_report_status : ReportStatus

-- `cl.Get` and `cl.ListToday`.
pub data Got : Type 0 where
  got : OrderState → Got
  get_failed : CallError → Got

pub data Listed : Type 0 where
  listed : List OrderState → Listed
  list_failed : CallError → Listed

-- The broker's answers for one entry, each with what the transport saw of its call, the UTC day when the
-- entry's date is judged, and the append of the closing line. `second` has the context's own error too, where the delay before it is cut off.
pub record Answers : Type 0 where
  pub first : Got
  pub first_info : CallInfo
  pub second : Got
  pub second_info : CallInfo
  pub today : Listed
  pub today_info : CallInfo
  pub now_day : ℕ
  pub write : Env

-- What the flow reads of an orderPayload.
pub record OrderPayload : Type 0 where
  pub async : Bool
  pub created_at : Text

-- json.Unmarshal of a payload: the whole document, and its endpoint alone.
pub record Payloads : Type 0 where
  pub order : Text → Option OrderPayload
  pub endpoint : Text → Option Text

-- time.Parse of an RFC 3339 stamp to the number of its UTC day.
pub record Clock : Type 0 where
  pub day_of : Text → Option ℕ

pub record Target : Type 0 where
  pub profile : Text
  pub endpoint : Text

-- The outcomes by name.
pub data Resolution : Type 0 where
  foreign profile_mismatch indeterminate error unresolved not_placed placed ambiguous : Resolution

unfoldable pub needs_attention : Resolution → Bool
needs_attention indeterminate = true
needs_attention error = true
needs_attention unresolved = true
needs_attention ambiguous = true
needs_attention _ = false

-- ReconcileOutcomeView, but for the texts of its error and note.
pub record OutcomeView : Type 0 where
  pub intent_id : Text
  pub client_order_id : Text
  pub account_id : Text
  pub outcome : Resolution
  pub order_id : Text
  pub lifecycle_name : Text
  pub ledger_write_failed : Bool

-- What is decided of an entry: left as it is under a name, or closed, as the broker's order with the
-- tracking id of the call that found it, or as not placed with the text of the closing line.
pub data Decision : Type 0 where
  leave : Resolution → Decision
  close_placed : OrderState → Text → Decision
  close_not_placed : Text → Decision

abbrev pub is_order_kind : Text → Bool
is_order_kind kind = text_eq kind (codes "order.place") || text_eq kind (codes "order.replace")

-- `reconcileTargetMismatch`; none is an empty message.
unfoldable pub target_mismatch : Payloads → Target → Entry → Option Resolution
target_mismatch read target e =
    if not (text_eq e.intent.profile target.profile)
    then some profile_mismatch
    else elim (read.endpoint e.payload) [
      | none ↦ some indeterminate
      | some endpoint ↦
          if is_empty endpoint
          then some indeterminate
          else if not (text_eq endpoint target.endpoint)
          then some profile_mismatch
          else none
    ]

unfoldable pub find_order_by_request_id : List OrderState → Text → Option OrderState
find_order_by_request_id [] id = none
find_order_by_request_id (s ∷ list) id =
    if not (is_empty s.order_request_id) && text_eq s.order_request_id id
    then some s
    else find_order_by_request_id list id

unfoldable pub intent_created_today : Clock → ℕ → Text → Bool
intent_created_today clock now_day created_at =
    if is_empty created_at
    then false
    else elim (clock.day_of created_at) [ none ↦ false | some day ↦ day == now_day ]

-- The order that a day's list has, or else.
abbrev pub placed_or : Text → Decision → Option OrderState → Decision
placed_or tracking otherwise none = otherwise
placed_or tracking otherwise (some s) = close_placed s tracking

-- `resolveSyncNotFound`, on the answer of ListToday.
unfoldable pub resolve_sync_not_found : Clock → OrderPayload → Answers → Entry → Listed → Decision
resolve_sync_not_found clock payload ans e (list_failed err) = leave indeterminate
resolve_sync_not_found clock payload ans e (listed list) =
    placed_or ans.today_info.tracking_id
      (if intent_created_today clock ans.now_day payload.created_at
        then close_not_placed (codes "not-placed")
        else leave unresolved)
      (find_order_by_request_id list e.order_id)

-- `reconcileAsyncNotFound`, on the answer of ListToday.
unfoldable pub resolve_async_not_found : Answers → Entry → Listed → Decision
resolve_async_not_found ans e (list_failed err) = leave indeterminate
resolve_async_not_found ans e (listed list) =
    placed_or ans.today_info.tracking_id (leave unresolved)
      (find_order_by_request_id list e.order_id)

-- Behind `recheckNotFound`.
unfoldable pub resolve_recheck : Clock → OrderPayload → Answers → Entry → Got → Decision
resolve_recheck clock payload ans e (got s) = close_placed s ans.second_info.tracking_id
resolve_recheck clock payload ans e (get_failed err) =
    if is_not_found err
    then resolve_sync_not_found clock payload ans e ans.today
    else leave indeterminate

-- Behind the first `cl.Get`.
unfoldable pub resolve_lookup : Clock → OrderPayload → Answers → Entry → Got → Decision
resolve_lookup clock payload ans e (got s) = close_placed s ans.first_info.tracking_id
resolve_lookup clock payload ans e (get_failed err) =
    if not (is_not_found err)
    then leave error
    else if payload.async
    then resolve_async_not_found ans e ans.today
    else resolve_recheck clock payload ans e ans.second

-- On the payload that json.Unmarshal reads, if any.
unfoldable pub resolve_payload : Clock → Answers → Entry → Option OrderPayload → Decision
resolve_payload clock ans e none = leave indeterminate
resolve_payload clock ans e (some payload) = resolve_lookup clock payload ans e ans.first

unfoldable pub resolve_sent : Payloads → Clock → Answers → Entry → Decision
resolve_sent read clock ans e =
    if is_empty e.order_id || is_empty e.intent.account_id
    then leave indeterminate
    else resolve_payload clock ans e (read.order e.payload)

-- Behind the test of the target.
unfoldable pub resolve_checked : Payloads → Clock → Answers → Entry → Option Resolution → Decision
resolve_checked read clock ans e (some r) = leave r
resolve_checked read clock ans e none =
    if is_created e.stage
    then close_not_placed (codes "not-placed-before-send")
    else resolve_sent read clock ans e

-- The body of the loop, up to what it writes.
unfoldable pub resolve_entry : Payloads → Clock → Target → Answers → Entry → Decision
resolve_entry read clock target ans e =
    if not (is_order_kind e.intent.kind)
    then leave foreign
    else resolve_checked read clock ans e (target_mismatch read target e)

abbrev pub view_of : Entry → Resolution → OutcomeView
view_of e r = record {
  intent_id = e.intent.intent_id;
  client_order_id = e.order_id;
  account_id = e.intent.account_id;
  outcome = r;
  order_id = [];
  lifecycle_name = [];
  ledger_write_failed = false;
}

abbrev pub empty_outcome : Outcome
empty_outcome = record {
  order_id = [];
  stop_order_id = [];
  exchange_order_id = [];
  tracking_id = [];
  exit_code = none;
  error = [];
}

-- `recordReconciled`
unfoldable pub record_reconciled :
    Env → Outcome → Entry → OutcomeView → Journal → OutcomeView × Journal
record_reconciled env res e out j =
    let (e', j', done) = reconcile_entry env res e j in
    (if done then out else record out { ledger_write_failed = true }, j')

unfoldable pub apply_decision : Env → Entry → Decision → Journal → OutcomeView × Journal
apply_decision env e (leave r) j = (view_of e r, j)
apply_decision env e (close_placed s tracking) j =
    record_reconciled env (record empty_outcome { order_id = s.order_id; tracking_id = tracking }) e
      (record (view_of e placed) {
        order_id = s.order_id;
        lifecycle_name = lifecycle s.execution_report_status;
      })
      j
apply_decision env e (close_not_placed text) j =
    record_reconciled env (record empty_outcome { error = text }) e (view_of e not_placed) j

-- The loop over the entries; `answers n` belongs to the n-th.
unfoldable pub reconcile_entries :
    Payloads
    → Clock
    → Target
    → (ℕ → Answers)
    → ℕ
    → List Entry
    → Journal
    → List OutcomeView × Journal
reconcile_entries read clock target answers n [] j = ([], j)
reconcile_entries read clock target answers n (e ∷ es) j =
    let (out, j1) =
      apply_decision (answers n).write e (resolve_entry read clock target (answers n) e) j in
    let (outs, j2) = reconcile_entries read clock target answers (suc n) es j1 in (out ∷ outs, j2)

-- `reconcileFlowForTarget`: none is the error of a scan that found corrupt lines.
unfoldable pub reconcile_flow :
    Payloads
    → Clock
    → Target
    → (ℕ → Answers)
    → List Corruption
    → Journal
    → Option (List OutcomeView × Journal)
reconcile_flow read clock target answers [] j =
    some (reconcile_entries read clock target answers 0 (unresolved_of j.records) j)
reconcile_flow read clock target answers (c ∷ cs) j = none

-- The counts of newReconcileData.
pub record ReconcileData : Type 0 where
  pub unresolved_count : ℕ
  pub foreign_count : ℕ

abbrev count_when : Bool → ℕ → ℕ
count_when true n = suc n
count_when false n = n

abbrev is_foreign : Resolution → Bool
is_foreign foreign = true
is_foreign _ = false

unfoldable pub reconcile_data : List OutcomeView → ReconcileData
reconcile_data [] = record { unresolved_count = 0; foreign_count = 0 }
reconcile_data (o ∷ os) =
    let rest = reconcile_data os in
    record {
      unresolved_count =
          count_when (needs_attention o.outcome || o.ledger_write_failed) rest.unresolved_count;
      foreign_count = count_when (is_foreign o.outcome) rest.foreign_count;
    }

-- `finishReconcile`, on whether its output could be written: the exit code.
unfoldable pub finish_reconcile : Bool → ReconcileData → ℕ
finish_reconcile written data' =
    if not written then 1 else if data'.unresolved_count == 0 then 0 else 1
