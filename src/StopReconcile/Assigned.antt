-- ===== src/StopReconcile/Assigned.antt =====
-- Which stop orders a run of `stop-orders reconcile` assigns to intents.
use mathlib.Core.Option.{some-injective}
use mathlib.Core.Path.{subst}
use tinvest.Prelude.{
  ℕ, suc, Bool, true, false, not, ◌≡◌, refl, sym, List, [], ◌∷◌, some, Text, arith,
}
use tinvest.Ledger.{Entry, Env, Journal}
use tinvest.Ledger.Lines.{Corruption}
use tinvest.Ledger.Aggregate.{assignments, unresolved_of}
use tinvest.StopMatch.{Stamps}
use tinvest.Reconcile.{
  Payloads, Target, foreign, profile_mismatch, indeterminate, error, unresolved, not_placed, placed,
  ambiguous, OutcomeView, record_reconciled,
}
use tinvest.Reconcile.Evidence.{is_closed}
use tinvest.StopReconcile.Evidence.{IsStopSupported, resolve_stop-IsSupported}
use tinvest.StopReconcile.{
  kind_stop_order_place, StopListed, StopAnswers, StopPayloads, StopState, is_consumed,
  StopDecision, stop_leave, stop_not_placed, stop_placed, StopRequest, asks, leaves, stop_request,
  take_match, resolve_request, resolve_stop, apply_stop_decision, reconcile_stops,
  reconcile_stop_flow,
}

abbrev is_open : StopDecision → Bool
is_open (stop_leave r) = not (is_closed r)
is_open stop_not_placed = true
is_open (stop_placed s) = true

-- The stop orders that outcomes name as placed, each with its account.
abbrev pub placed_pair : OutcomeView → List (Text × Text) → List (Text × Text)
placed_pair o rest = elim o.outcome [ placed ↦ (o.account_id, o.order_id) ∷ rest | _ ↦ rest ]

abbrev pub placed_pairs : List OutcomeView → List (Text × Text)
placed_pairs [] = []
placed_pairs (o ∷ os) = placed_pair o (placed_pairs os)

-- None of the pairs is taken, and each is taken for those behind it.
abbrev pub AreFresh : List (Text × Text) → List (Text × Text) → Type 0
AreFresh consumed [] = Unit
AreFresh consumed ((a, i) ∷ pairs) =
    (is_consumed a i consumed ≡ false) × AreFresh ((a, i) ∷ consumed) pairs

-- The pair that an entry's decision takes.
abbrev decided_pairs : Entry → StopDecision → List (Text × Text) → List (Text × Text)
decided_pairs e (stop_placed s) pairs = (e.intent.account_id, s.stop_order_id) ∷ pairs
decided_pairs e stop_not_placed pairs = pairs
decided_pairs e (stop_leave r) pairs = pairs

apply_stop_decision-pairs :
    (env : Env) (e : Entry) (d : StopDecision) (j : Journal) (pairs : List (Text × Text))
    → is_open d ≡ true
    → placed_pair (apply_stop_decision env e d j).0 pairs ≡ decided_pairs e d pairs
unfolding apply_stop_decision record_reconciled
apply_stop_decision-pairs env e (stop_placed s) j pairs h = ground arith
apply_stop_decision-pairs env e stop_not_placed j pairs h = ground arith
apply_stop_decision-pairs env e (stop_leave foreign) j pairs h = refl
apply_stop_decision-pairs env e (stop_leave profile_mismatch) j pairs h = refl
apply_stop_decision-pairs env e (stop_leave indeterminate) j pairs h = refl
apply_stop_decision-pairs env e (stop_leave error) j pairs h = refl
apply_stop_decision-pairs env e (stop_leave unresolved) j pairs h = refl
apply_stop_decision-pairs env e (stop_leave not_placed) j pairs h = refl
apply_stop_decision-pairs env e (stop_leave placed) j pairs h = cc h
apply_stop_decision-pairs env e (stop_leave ambiguous) j pairs h = refl

-- What a run takes behind an entry, from what stood in front of it.
decided-AreFresh :
    (at : Stamps) (request : StopRequest) (e : Entry) (answer : StopListed) (st : StopState)
    (d : StopDecision) (pairs : List (Text × Text))
    → IsStopSupported at request e answer st d
    → AreFresh (take_match e d st.consumed) pairs
    → AreFresh st.consumed (decided_pairs e d pairs)
decided-AreFresh at request e answer st (stop_placed s) pairs h rest = (h.holds.2, rest)
decided-AreFresh at request e answer st stop_not_placed pairs h rest = rest
decided-AreFresh at request e answer st (stop_leave r) pairs h rest = rest

resolve_request-consumed :
    (at : Stamps) (e : Entry) (answer : StopListed) (st : StopState) (request : StopRequest)
    → let p = resolve_request at e answer st request in p.1.consumed ≡ take_match e p.0 st.consumed
resolve_request-consumed at e answer st (leaves r) = refl
resolve_request-consumed at e answer st (asks payload) = refl

IsStopSupported-is_open :
    (at : Stamps) (request : StopRequest) (e : Entry) (answer : StopListed) (st : StopState)
    (d : StopDecision)
    → IsStopSupported at request e answer st d
    → is_open d ≡ true
IsStopSupported-is_open at request e answer st (stop_placed s) h = refl
IsStopSupported-is_open at request e answer st stop_not_placed h = refl
IsStopSupported-is_open at request e answer st (stop_leave r) h = rw h refl

reconcile_stops-AreFresh :
    (read : Payloads) (stops : StopPayloads) (at : Stamps) (target : Target)
    (answers : ℕ → StopAnswers) (n : ℕ) (es : List Entry) (st : StopState) (j : Journal)
    → AreFresh st.consumed (placed_pairs (reconcile_stops read stops at target answers n es st j).0)
unfolding reconcile_stops resolve_stop
reconcile_stops-AreFresh read stops at target answers n [] st j = tt
reconcile_stops-AreFresh read stops at target answers n (e ∷ es) st j =
    let ans = answers n in
    let request = stop_request read stops at target e in
    let p = resolve_stop read stops at target e ans.list st in
    let q = apply_stop_decision ans.write e p.0 j in
    let supported = resolve_stop-IsSupported read stops at target e ans.list st in
    let rest = reconcile_stops-AreFresh read stops at target answers (suc n) es p.1 q.1 in
    let pairs = placed_pairs (reconcile_stops read stops at target answers (suc n) es p.1 q.1).0 in
    subst (AreFresh st.consumed)
      (sym (
        apply_stop_decision-pairs ans.write e p.0 j pairs
          (IsStopSupported-is_open at request e ans.list st p.0 supported)))
      (decided-AreFresh at request e ans.list st p.0 pairs supported
        (subst (λ c. AreFresh c pairs) (resolve_request-consumed at e ans.list st request) rest))

-- A run assigns no stop order that the journal before it ties to a successful stop-order placement of
-- the same account, and none twice.
pub reconcile_stop_flow-AreFresh :
    (read : Payloads) (stops : StopPayloads) (at : Stamps) (target : Target)
    (answers : ℕ → StopAnswers) (cs : List Corruption) (j j' : Journal) (os : List OutcomeView)
    → reconcile_stop_flow read stops at target answers cs j ≡ some (os, j')
    → AreFresh (assignments kind_stop_order_place j.records) (placed_pairs os)
unfolding reconcile_stop_flow
reconcile_stop_flow-AreFresh read stops at target answers [] j j' os ran =
    let taken = assignments kind_stop_order_place j.records in
    let p =
      reconcile_stops read stops at target answers 0 (unresolved_of j.records)
        (record { lists = []; consumed = taken }) j in
    subst (λ q. AreFresh taken (placed_pairs q.0)) (some-injective p (os, j') ran)
      (reconcile_stops-AreFresh read stops at target answers 0 (unresolved_of j.records) _ j)
reconcile_stop_flow-AreFresh read stops at target answers (c ∷ cs) j j' os ran = cc ran
