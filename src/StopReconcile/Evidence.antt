-- ===== src/StopReconcile/Evidence.antt =====
-- On what evidence `stop-orders reconcile` closes an intent.
use tinvest.Prelude.{
  Bool, true, false, not, ◌≡◌, refl, List, [], ◌∷◌, Option, none, some, if_intro, arith,
}
use tinvest.Ledger.{Entry}
use tinvest.Ledger.Aggregate.{is_created}
use tinvest.StopMatch.{
  StopOrder, StopOrderPayload, Stamps, match_stop_orders, stop_creation_matches,
  validate_stop_match_payload, MatchError,
}
use tinvest.Reconcile.{
  Payloads, Target, Resolution, foreign, profile_mismatch, indeterminate, error, unresolved,
  not_placed, placed, ambiguous,
}
use tinvest.Reconcile.{target_mismatch}
use tinvest.Reconcile.Evidence.{is_closed}
use tinvest.Reconcile.Exit.{is_target_answer, target_mismatch-lem}
use tinvest.StopReconcile.{
  StopListed, StopPayloads, StopState, is_consumed, StopDecision, stop_leave, stop_not_placed,
  stop_placed, resolve_match, resolve_matches, StopRequest, asks, leaves, checked_request,
  read_request, named_request, stop_request, list_for, resolve_listed, resolve_request,
  resolve_stop,
}

-- The list of the entry's account, from an earlier call of the run or from the entry's own.
abbrev pub IsListFor : Entry → StopListed → StopState → List StopOrder → Type 0
IsListFor e answer st list = (list_for e.intent.account_id answer st.lists).0 ≡ some list

-- What stands behind a decision that closes an entry: a readable and complete request, the account's
-- list, and what of the list matches the request.
pub record IsEvidence (at : Stamps) (request : StopRequest) (e : Entry) (answer : StopListed)
    (st : StopState) (P : StopOrderPayload → List StopOrder → Type 0) : Type 0 where
  pub payload : StopOrderPayload
  pub is_asked : request ≡ asks payload
  pub list : List StopOrder
  pub is_listed : IsListFor e answer st list
  pub holds : P payload (match_stop_orders at payload list)

-- A stop order that may be assigned: the only match, in the window, and not taken.
abbrev pub IsAssignable :
    Stamps → Entry → StopState → StopOrder → StopOrderPayload → List StopOrder → Type 0
IsAssignable at e st s payload matches =
    (matches ≡ s ∷ [])
    × (stop_creation_matches at s payload.created_at ≡ true)
    × (is_consumed e.intent.account_id s.stop_order_id st.consumed ≡ false)

abbrev pub IsUnmatched : Entry → StopOrderPayload → List StopOrder → Type 0
IsUnmatched e payload matches = (matches ≡ []) × (is_created e.stage ≡ true)

abbrev pub IsStopSupported :
    Stamps → StopRequest → Entry → StopListed → StopState → StopDecision → Type 0
IsStopSupported at request e answer st (stop_leave r) = is_closed r ≡ false
IsStopSupported at request e answer st stop_not_placed =
    IsEvidence at request e answer st (IsUnmatched e)
IsStopSupported at request e answer st (stop_placed s) =
    IsEvidence at request e answer st (IsAssignable at e st s)

module _ (at : Stamps) (e : Entry) (answer : StopListed) (st : StopState) where
  module _ (payload : StopOrderPayload) (list : List StopOrder)
      (is_listed : IsListFor e answer st list) where
    evidence :
        (P : StopOrderPayload → List StopOrder → Type 0)
        → P payload (match_stop_orders at payload list)
        → IsEvidence at (asks payload) e answer st P
    evidence P h = record {
      payload = payload;
      is_asked = refl;
      list = list;
      is_listed = is_listed;
      holds = h;
    }

    match-IsSupported :
        (s : StopOrder)
        → match_stop_orders at payload list ≡ s ∷ []
        → IsStopSupported at (asks payload) e answer st (resolve_match at e payload s st.consumed)
    unfolding resolve_match
    match-IsSupported s only =
        if_intro (IsStopSupported at (asks payload) e answer st)
          (not (stop_creation_matches at s payload.created_at)) (stop_leave unresolved) _
          (λ outside. refl)
          (λ inside.
            if_intro (IsStopSupported at (asks payload) e answer st)
              (is_consumed e.intent.account_id s.stop_order_id st.consumed) (stop_leave unresolved)
              (stop_placed s) (λ taken. refl)
              (λ free. evidence (IsAssignable at e st s) (only, ground arith, free)))

    matches-IsSupported :
        (matches : List StopOrder)
        → match_stop_orders at payload list ≡ matches
        → IsStopSupported at
            (asks payload)
            e
            answer
            st
            (resolve_matches at e payload matches st.consumed)
    unfolding resolve_matches
    matches-IsSupported [] nothing =
        if_intro (IsStopSupported at (asks payload) e answer st) (is_created e.stage)
          stop_not_placed (stop_leave indeterminate)
          (λ early. evidence (IsUnmatched e) (nothing, early)) (λ sent. refl)
    matches-IsSupported (s ∷ []) only = match-IsSupported s only
    matches-IsSupported (s ∷ t ∷ matches) more = refl

  listed-IsSupported :
      (payload : StopOrderPayload) (o : Option (List StopOrder))
      → (list_for e.intent.account_id answer st.lists).0 ≡ o
      → IsStopSupported at (asks payload) e answer st (resolve_listed at e payload o st.consumed)
  unfolding resolve_listed
  listed-IsSupported payload none h = refl
  listed-IsSupported payload (some list) h =
      matches-IsSupported payload list h (match_stop_orders at payload list) refl

-- The names that the tests in front of the list call leave an entry under.
abbrev leaves_open : StopRequest → Bool
leaves_open (leaves r) = not (is_closed r)
leaves_open (asks payload) = true

checked_request-leaves_open :
    (payload : StopOrderPayload) (o : Option MatchError)
    → leaves_open (checked_request payload o) ≡ true
checked_request-leaves_open payload none = refl
checked_request-leaves_open payload (some e) = refl

read_request-leaves_open :
    (at : Stamps) (o : Option StopOrderPayload) → leaves_open (read_request at o) ≡ true
read_request-leaves_open at none = refl
read_request-leaves_open at (some payload) =
    checked_request-leaves_open payload (validate_stop_match_payload at payload)

named_request-leaves_open :
    (stops : StopPayloads) (at : Stamps) (e : Entry) (o : Option Resolution)
    → is_target_answer o ≡ true
    → leaves_open (named_request stops at e o) ≡ true
named_request-leaves_open stops at e none h =
    ground (arith, read_request-leaves_open at (stops e.payload))
named_request-leaves_open stops at e (some r) h = open_answer r h
  where
    open_answer : (r : Resolution) → is_target_answer (some r) ≡ true → not (is_closed r) ≡ true
    open_answer foreign h = refl
    open_answer profile_mismatch h = refl
    open_answer indeterminate h = refl
    open_answer error h = refl
    open_answer unresolved h = refl
    open_answer not_placed h = cc h
    open_answer placed h = cc h
    open_answer ambiguous h = refl

stop_request-leaves_open :
    (read : Payloads) (stops : StopPayloads) (at : Stamps) (target : Target) (e : Entry)
    → leaves_open (stop_request read stops at target e) ≡ true
unfolding stop_request
stop_request-leaves_open read stops at target e = ground (
  arith,
  named_request-leaves_open stops at e (target_mismatch read target e)
      (target_mismatch-lem read target e),
)

-- Whatever the broker lists, a stop-order intent is closed as placed only as the single stop order of
-- its account's list that matches every field of its readable, complete request, created in the
-- window, and not yet assigned to an intent; and as not placed only if nothing in the list matches
-- and its reported line is the created one. An intent that is left open has neither of the two names.
pub resolve_stop-IsSupported :
    (read : Payloads) (stops : StopPayloads) (at : Stamps) (target : Target) (e : Entry)
    (answer : StopListed) (st : StopState)
    → IsStopSupported at
        (stop_request read stops at target e)
        e
        answer
        st
        (resolve_stop read stops at target e answer st).0
unfolding resolve_stop
resolve_stop-IsSupported read stops at target e answer st =
    supported (stop_request read stops at target e)
      (stop_request-leaves_open read stops at target e)
  where
    supported :
        (request : StopRequest)
        → leaves_open request ≡ true
        → IsStopSupported at request e answer st (resolve_request at e answer st request).0
    supported (leaves r) h = ground arith
    supported (asks payload) h =
        listed-IsSupported at e answer st payload (list_for e.intent.account_id answer st.lists).0
          refl
