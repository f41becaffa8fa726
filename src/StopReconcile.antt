-- ===== src/StopReconcile.antt =====
-- cmd/tinvest/stoporders.go, reconcileStopFlowForTarget: what `stop-orders reconcile` makes of every
-- intent that the recovery scan reports. The outcomes, the target and the clock are those of
-- cmd/tinvest/orders.go (Reconcile); the broker's answers are the `StopAnswers` of each entry.
pub mod Evidence
pub mod Asking
pub mod Founded
pub mod Assigned
mod Tests
use tinvest.Prelude.{
  ℕ, suc, Bool, true, false, not, ◌&&◌, ◌||◌, List, [], ◌∷◌, Option, none, some, Text, codes,
  text_eq, is_empty, if◌then◌else◌,
}
use tinvest.Errors.{CallError}
use tinvest.Ledger.{Entry, Env, Journal}
use tinvest.Ledger.Lines.{Corruption}
use tinvest.Ledger.Aggregate.{is_created, assignments, unresolved_of}
use tinvest.StopOrders.{status_name}
use tinvest.StopMatch.{
  StopOrder, StopOrderPayload, Stamps, MatchError, match_stop_orders, stop_creation_matches,
  validate_stop_match_payload,
}
use tinvest.Reconcile.{
  Payloads, Target, Resolution, foreign, indeterminate, error, unresolved, not_placed, placed,
  ambiguous, OutcomeView, target_mismatch, view_of, empty_outcome, record_reconciled,
}

abbrev pub kind_stop_order_place : Text
kind_stop_order_place = codes "stoporder.place"

-- `cl.List` with status=ALL.
pub data StopListed : Type 0 where
  stop_listed : List StopOrder → StopListed
  stop_list_failed : CallError → StopListed

-- The answer of the list call that an entry makes if its account's list is not there yet, and the
-- append of its closing line.
pub record StopAnswers : Type 0 where
  pub list : StopListed
  pub write : Env

-- json.Unmarshal of a payload, as a stop order's request.
abbrev pub StopPayloads : Type 0
StopPayloads = Text → Option StopOrderPayload

-- What the loop carries: the lists by account, and the stop-order ids that are taken, each with its
-- account.
pub record StopState : Type 0 where
  pub lists : List (Text × List StopOrder)
  pub consumed : List (Text × Text)

abbrev pub find_list : Text → List (Text × List StopOrder) → Option (List StopOrder)
find_list account [] = none
find_list account ((a, list) ∷ lists) =
    if text_eq a account then some list else find_list account lists

abbrev pub is_consumed : Text → Text → List (Text × Text) → Bool
is_consumed account id [] = false
is_consumed account id ((a, i) ∷ pairs) =
    (text_eq a account && text_eq i id) || is_consumed account id pairs

-- What is decided of an entry: left under a name; or closed, as the stop order or as not placed.
pub data StopDecision : Type 0 where
  stop_leave : Resolution → StopDecision
  stop_not_placed : StopDecision
  stop_placed : StopOrder → StopDecision

-- The only match.
unfoldable pub resolve_match :
    Stamps → Entry → StopOrderPayload → StopOrder → List (Text × Text) → StopDecision
resolve_match at e payload s consumed =
    if not (stop_creation_matches at s payload.created_at)
    then stop_leave unresolved
    else if is_consumed e.intent.account_id s.stop_order_id consumed
    then stop_leave unresolved
    else stop_placed s

-- The switch over the matches.
unfoldable pub resolve_matches :
    Stamps → Entry → StopOrderPayload → List StopOrder → List (Text × Text) → StopDecision
resolve_matches at e payload [] consumed =
    if is_created e.stage then stop_not_placed else stop_leave indeterminate
resolve_matches at e payload (s ∷ []) consumed = resolve_match at e payload s consumed
resolve_matches at e payload (s ∷ t ∷ matches) consumed = stop_leave ambiguous

-- The tests of an entry in front of the list call: the payload to match, or the name it is left under.
pub data StopRequest : Type 0 where
  asks : StopOrderPayload → StopRequest
  leaves : Resolution → StopRequest

abbrev pub checked_request : StopOrderPayload → Option MatchError → StopRequest
checked_request payload none = asks payload
checked_request payload (some e) = leaves indeterminate

abbrev pub read_request : Stamps → Option StopOrderPayload → StopRequest
read_request at none = leaves indeterminate
read_request at (some payload) = checked_request payload (validate_stop_match_payload at payload)

abbrev pub named_request : StopPayloads → Stamps → Entry → Option Resolution → StopRequest
named_request stops at e (some r) = leaves r
named_request stops at e none =
    if is_empty e.intent.account_id || is_empty e.order_id
    then leaves indeterminate
    else read_request at (stops e.payload)

unfoldable pub stop_request : Payloads → StopPayloads → Stamps → Target → Entry → StopRequest
stop_request read stops at target e =
    if not (text_eq e.intent.kind kind_stop_order_place)
    then leaves foreign
    else named_request stops at e (target_mismatch read target e)

-- The list of the entry's account, from the map or from the broker, and the map behind it.
abbrev pub fetched :
    Text
    → StopListed
    → List (Text × List StopOrder)
    → Option (List StopOrder) × List (Text × List StopOrder)
fetched account (stop_list_failed err) lists = (none, lists)
fetched account (stop_listed list) lists = (some list, (account, list) ∷ lists)

unfoldable pub list_for :
    Text
    → StopListed
    → List (Text × List StopOrder)
    → Option (List StopOrder) × List (Text × List StopOrder)
list_for account answer lists = elim (find_list account lists) [
  | some list ↦ (some list, lists)
  | none ↦ fetched account answer lists
]

-- Behind the list call.
unfoldable pub resolve_listed :
    Stamps → Entry → StopOrderPayload → Option (List StopOrder) → List (Text × Text) → StopDecision
resolve_listed at e payload none consumed = stop_leave error
resolve_listed at e payload (some list) consumed =
    resolve_matches at e payload (match_stop_orders at payload list) consumed

-- The decision on an entry and the state behind it; a stop order that is assigned is taken.
abbrev pub take_match : Entry → StopDecision → List (Text × Text) → List (Text × Text)
take_match e (stop_placed s) consumed = (e.intent.account_id, s.stop_order_id) ∷ consumed
take_match e _ consumed = consumed

abbrev pub resolve_request :
    Stamps → Entry → StopListed → StopState → StopRequest → StopDecision × StopState
resolve_request at e answer st (leaves r) = (stop_leave r, st)
resolve_request at e answer st (asks payload) =
    let (list, lists) = list_for e.intent.account_id answer st.lists in
    let d = resolve_listed at e payload list st.consumed in
    (d, record { lists = lists; consumed = take_match e d st.consumed })

unfoldable pub resolve_stop :
    Payloads
    → StopPayloads
    → Stamps
    → Target
    → Entry
    → StopListed
    → StopState
    → StopDecision × StopState
resolve_stop read stops at target e answer st =
    resolve_request at e answer st (stop_request read stops at target e)

unfoldable pub apply_stop_decision : Env → Entry → StopDecision → Journal → OutcomeView × Journal
apply_stop_decision env e (stop_leave r) j = (view_of e r, j)
apply_stop_decision env e stop_not_placed j =
    record_reconciled env (record empty_outcome { error = codes "not-placed-before-send" }) e
      (view_of e not_placed) j
apply_stop_decision env e (stop_placed s) j =
    record_reconciled env (record empty_outcome { stop_order_id = s.stop_order_id }) e
      (record (view_of e placed) {
        order_id = s.stop_order_id;
        lifecycle_name = status_name s.status;
      })
      j

-- The loop over the entries; `answers n` belongs to the n-th.
unfoldable pub reconcile_stops :
    Payloads
    → StopPayloads
    → Stamps
    → Target
    → (ℕ → StopAnswers)
    → ℕ
    → List Entry
    → StopState
    → Journal
    → List OutcomeView × Journal
reconcile_stops read stops at target answers n [] st j = ([], j)
reconcile_stops read stops at target answers n (e ∷ es) st j =
    let (d, st1) = resolve_stop read stops at target e (answers n).list st in
    let (out, j1) = apply_stop_decision (answers n).write e d j in
    let (outs, j2) = reconcile_stops read stops at target answers (suc n) es st1 j1 in
    (out ∷ outs, j2)

-- `reconcileStopFlowForTarget`: none is the error of a scan that found corrupt lines.
unfoldable pub reconcile_stop_flow :
    Payloads
    → StopPayloads
    → Stamps
    → Target
    → (ℕ → StopAnswers)
    → List Corruption
    → Journal
    → Option (List OutcomeView × Journal)
reconcile_stop_flow read stops at target answers [] j = some (
    reconcile_stops read stops at target answers 0 (unresolved_of j.records)
      (record { lists = []; consumed = assignments kind_stop_order_place j.records }) j)
reconcile_stop_flow read stops at target answers (c ∷ cs) j = none
