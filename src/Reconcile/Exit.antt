-- ===== src/Reconcile/Exit.antt =====
-- What exit code 0 of the reconcile command promises of the intents that the scan before it reported.
use mathlib.Core.Option.{some-injective}
use mathlib.Core.Path.{subst}
use tinvest.Prelude.{
  ℕ, suc, ◌≤◌, Bool, true, false, not, ◌&&◌, ◌||◌, ◌≡◌, ◌⊎◌, inl, inr, refl, ap, List, [], ◌∷◌,
  Option, none, some, Text, text_eq, text_eq_refl, text_eq_sound, is_empty, Bool-cases, if_intro,
  arith, if◌then◌else◌,
}
use tinvest.Ledger.{Entry, Env, Journal}
use tinvest.Ledger.Lines.{Corruption}
use tinvest.Ledger.Aggregate.{unresolved_of, is_created, is_close_stage}
use tinvest.Ledger.Dangling.{of_id, count_stage, find_entry}
use tinvest.Reconcile.{
  OrderState, Got, got, get_failed, Listed, listed, list_failed, Answers, OrderPayload, Payloads,
  Clock, Target, Resolution, foreign, profile_mismatch, indeterminate, error, unresolved,
  not_placed, placed, ambiguous, needs_attention, OutcomeView, Decision, leave, close_placed,
  close_not_placed, is_order_kind, target_mismatch, placed_or, find_order_by_request_id,
  resolve_sync_not_found, resolve_async_not_found, resolve_recheck, resolve_lookup, resolve_payload,
  resolve_sent, resolve_checked, resolve_entry, record_reconciled, apply_decision,
  reconcile_entries, reconcile_flow, reconcile_data, finish_reconcile,
}
use tinvest.Reconcile.Evidence.{is_closed}
use tinvest.Reconcile.Scan.{recorded_in, reconcile_flow-recorded}

-- An entry is not this command's to settle: of another kind, or of another profile or endpoint.
abbrev pub IsElsewhere : Payloads → Target → Entry → Type 0
IsElsewhere read target e =
    (is_order_kind e.intent.kind ≡ false) ⊎ (target_mismatch read target e ≡ some profile_mismatch)

-- A decision that leaves an entry to another command or profile.
abbrev leaves_elsewhere : Decision → Bool
leaves_elsewhere (leave foreign) = true
leaves_elsewhere (leave profile_mismatch) = true
leaves_elsewhere _ = false

module _ (clock : Clock) (ans : Answers) (e : Entry) where
  placed_or-lem :
      (tracking : Text) (d : Decision) (o : Option OrderState)
      → leaves_elsewhere d ≡ false
      → leaves_elsewhere (placed_or tracking d o) ≡ false
  placed_or-lem tracking d none h = h
  placed_or-lem tracking d (some s) h = refl

  sync-lem :
      (payload : OrderPayload) (l : Listed)
      → leaves_elsewhere (resolve_sync_not_found clock payload ans e l) ≡ false
  unfolding resolve_sync_not_found
  sync-lem payload (list_failed err) = refl
  sync-lem payload (listed list) =
      placed_or-lem _ _ (find_order_by_request_id list e.order_id) (ground arith)

  async-lem : (l : Listed) → leaves_elsewhere (resolve_async_not_found ans e l) ≡ false
  unfolding resolve_async_not_found
  async-lem (list_failed err) = refl
  async-lem (listed list) = placed_or-lem _ _ (find_order_by_request_id list e.order_id) refl

  recheck-lem :
      (payload : OrderPayload) (g : Got)
      → leaves_elsewhere (resolve_recheck clock payload ans e g) ≡ false
  unfolding resolve_recheck
  recheck-lem payload (got s) = refl
  recheck-lem payload (get_failed err) = ground (arith, sync-lem payload ans.today)

  lookup-lem :
      (payload : OrderPayload) (g : Got)
      → leaves_elsewhere (resolve_lookup clock payload ans e g) ≡ false
  unfolding resolve_lookup
  lookup-lem payload (got s) = refl
  lookup-lem payload (get_failed err) =
      ground (arith, async-lem ans.today, recheck-lem payload ans.second)

  payload-lem : (o : Option OrderPayload) → leaves_elsewhere (resolve_payload clock ans e o) ≡ false
  unfolding resolve_payload
  payload-lem none = refl
  payload-lem (some payload) = lookup-lem payload ans.first

-- What the test of the target can say.
abbrev pub is_target_answer : Option Resolution → Bool
is_target_answer none = true
is_target_answer (some indeterminate) = true
is_target_answer (some profile_mismatch) = true
is_target_answer _ = false

pub target_mismatch-lem :
    (read : Payloads) (target : Target) (e : Entry)
    → is_target_answer (target_mismatch read target e) ≡ true
unfolding target_mismatch
target_mismatch-lem read target e =
    if_intro (λ o. is_target_answer o ≡ true) (not (text_eq e.intent.profile target.profile))
      (some profile_mismatch) _ (λ p. refl) (λ p. of_endpoint (read.endpoint e.payload))
  where
    of_endpoint :
        (o : Option Text)
        → is_target_answer (elim o [
          | none ↦ some indeterminate
          | some endpoint ↦
              if is_empty endpoint
              then some indeterminate
              else if not (text_eq endpoint target.endpoint)
              then some profile_mismatch
              else none
        ])
          ≡ true
    of_endpoint none = refl
    of_endpoint (some endpoint) = ground arith

resolve_checked-lem :
    (read : Payloads) (clock : Clock) (ans : Answers) (e : Entry) (o : Option Resolution)
    → is_target_answer o ≡ true
    → leaves_elsewhere (resolve_checked read clock ans e o) ≡ true
    → o ≡ some profile_mismatch
unfolding resolve_checked resolve_sent
resolve_checked-lem read clock ans e none h k =
    ground (arith, payload-lem clock ans e (read.order e.payload))
resolve_checked-lem read clock ans e (some profile_mismatch) h k = refl
resolve_checked-lem read clock ans e (some foreign) h k = cc h
resolve_checked-lem read clock ans e (some indeterminate) h k = cc k
resolve_checked-lem read clock ans e (some error) h k = cc h
resolve_checked-lem read clock ans e (some unresolved) h k = cc h
resolve_checked-lem read clock ans e (some not_placed) h k = cc h
resolve_checked-lem read clock ans e (some placed) h k = cc h
resolve_checked-lem read clock ans e (some ambiguous) h k = cc h

leaves_elsewhere-IsElsewhere :
    (read : Payloads) (clock : Clock) (target : Target) (ans : Answers) (e : Entry)
    → leaves_elsewhere (resolve_entry read clock target ans e) ≡ true
    → IsElsewhere read target e
unfolding resolve_entry
leaves_elsewhere-IsElsewhere read clock target ans e h =
    elim (Bool-cases (is_order_kind e.intent.kind)) [
      | inr other ↦ inl other
      | inl own ↦ inr (
          resolve_checked-lem read clock ans e (target_mismatch read target e)
            (target_mismatch-lem read target e) (rw own at h))
    ]

-- An outcome that does not count as unresolved.
abbrev is_settled : OutcomeView → Bool
is_settled o = not (needs_attention o.outcome || o.ledger_write_failed)

apply_decision-is_settled :
    (env : Env) (e : Entry) (d : Decision) (j : Journal)
    → let out = (apply_decision env e d j).0 in
      is_settled out ≡ true
      → (leaves_elsewhere d ≡ true)
        ⊎ ((is_closed out.outcome
              && text_eq out.intent_id e.intent.intent_id
              && not out.ledger_write_failed)
            ≡ true)
unfolding apply_decision record_reconciled needs_attention
apply_decision-is_settled env e (leave foreign) j h = inl refl
apply_decision-is_settled env e (leave profile_mismatch) j h = inl refl
apply_decision-is_settled env e (leave indeterminate) j h = cc h
apply_decision-is_settled env e (leave error) j h = cc h
apply_decision-is_settled env e (leave unresolved) j h = cc h
apply_decision-is_settled env e (leave ambiguous) j h = cc h
apply_decision-is_settled env e (leave not_placed) j h =
    inr (ground (arith, text_eq_refl e.intent.intent_id))
apply_decision-is_settled env e (leave placed) j h =
    inr (ground (arith, text_eq_refl e.intent.intent_id))
apply_decision-is_settled env e (close_placed s tracking) j h =
    inr (ground (arith, text_eq_refl e.intent.intent_id))
apply_decision-is_settled env e (close_not_placed text) j h =
    inr (ground (arith, text_eq_refl e.intent.intent_id))

abbrev all_settled : List OutcomeView → Bool
all_settled [] = true
all_settled (o ∷ os) = is_settled o && all_settled os

unresolved_count-all_settled :
    (os : List OutcomeView) → (reconcile_data os).unresolved_count ≡ 0 → all_settled os ≡ true
unfolding reconcile_data
unresolved_count-all_settled [] h = refl
unresolved_count-all_settled (o ∷ os) h = ground (arith, unresolved_count-all_settled os)

finish_reconcile-all_settled :
    (written : Bool) (os : List OutcomeView)
    → finish_reconcile written (reconcile_data os) ≡ 0
    → all_settled os ≡ true
unfolding finish_reconcile
finish_reconcile-all_settled written os h = ground (arith, unresolved_count-all_settled os)

-- The outcome of an entry is recorded: its intent is closed and its line is written.
abbrev records_entry : OutcomeView → Entry → Bool
records_entry out e =
    is_closed out.outcome && text_eq out.intent_id e.intent.intent_id && not out.ledger_write_failed

recorded_here :
    (id : Text) (e : Entry) (out : OutcomeView) (os : List OutcomeView)
    → text_eq e.intent.intent_id id ≡ true
    → records_entry out e ≡ true
    → recorded_in id (out ∷ os) ≡ true
recorded_here id e out os here h =
    let same = text_eq_sound e.intent.intent_id id here in
    let own =
      subst
        (λ t.
          (is_closed out.outcome && text_eq out.intent_id t && not out.ledger_write_failed) ≡ true)
        same h in
    ground arith

reconcile_entries-all_settled :
    (read : Payloads) (clock : Clock) (target : Target) (answers : ℕ → Answers) (n : ℕ)
    (es : List Entry) (j : Journal) (id : Text) (e : Entry)
    → find_entry id es ≡ some e
    → let os = (reconcile_entries read clock target answers n es j).0 in
      all_settled os ≡ true → IsElsewhere read target e ⊎ (recorded_in id os ≡ true)
unfolding reconcile_entries
reconcile_entries-all_settled read clock target answers n [] j id e h k = cc h
reconcile_entries-all_settled read clock target answers n (x ∷ es) j id e h k =
    let ans = answers n in
    let d = resolve_entry read clock target ans x in
    let p = apply_decision ans.write x d j in
    let q = reconcile_entries read clock target answers (suc n) es p.1 in
    let settled = apply_decision-is_settled ans.write x d j (ground arith) in
    let rest = reconcile_entries-all_settled read clock target answers (suc n) es p.1 id e in
    joined p.0 q.0 (ground arith) settled (λ m. rest m (ground arith)) h
  where
    joined :
        (out : OutcomeView) (os : List OutcomeView)
        → is_settled out ≡ true
        → (leaves_elsewhere (resolve_entry read clock target (answers n) x) ≡ true)
          ⊎ (records_entry out x ≡ true)
        → (find_entry id es ≡ some e → IsElsewhere read target e ⊎ (recorded_in id os ≡ true))
        → find_entry id (x ∷ es) ≡ some e
        → IsElsewhere read target e ⊎ (recorded_in id (out ∷ os) ≡ true)
    joined out os settled s rest found = elim (Bool-cases (text_eq x.intent.intent_id id)) [
      | inr there ↦ elim (rest (rw there at found)) [
        | inl elsewhere ↦ inl elsewhere
        | inr recorded ↦ inr (ground arith)
      ]
      | inl here ↦ elim s [
        | inl left ↦ inl (
            subst (IsElsewhere read target) (some-injective x e (rw here at found))
              (leaves_elsewhere-IsElsewhere read clock target (answers n) x left))
        | inr written ↦ inr (recorded_here id x out os here written)
      ]
    ]

reconcile_flow-all_settled :
    (read : Payloads) (clock : Clock) (target : Target) (answers : ℕ → Answers)
    (cs : List Corruption) (j j' : Journal) (os : List OutcomeView) (id : Text) (e : Entry)
    → reconcile_flow read clock target answers cs j ≡ some (os, j')
    → find_entry id (unresolved_of j.records) ≡ some e
    → all_settled os ≡ true
    → IsElsewhere read target e ⊎ (recorded_in id os ≡ true)
unfolding reconcile_flow
reconcile_flow-all_settled read clock target answers [] j j' os id e ran found h =
    let es = unresolved_of j.records in
    let p = reconcile_entries read clock target answers 0 es j in
    let same = ap (λ q. q.0) (some-injective p (os, j') ran) in
    subst (λ xs. IsElsewhere read target e ⊎ (recorded_in id xs ≡ true)) same
      (reconcile_entries-all_settled read clock target answers 0 es j id e found (rw same h))
reconcile_flow-all_settled read clock target answers (c ∷ cs) j j' os id e ran found h = cc ran

-- When the reconcile command exits with 0, every intent that the scan before the run reported is
-- either none of this command's (of another kind, or of another profile or endpoint) or no longer
-- reported by the scan, where the lines before the run opened at most one lifecycle of it more than
-- they closed.
pub finish_reconcile-resolves :
    (read : Payloads) (clock : Clock) (target : Target) (answers : ℕ → Answers)
    (cs : List Corruption) (j j' : Journal) (os : List OutcomeView) (written : Bool) (id : Text)
    (e : Entry)
    → reconcile_flow read clock target answers cs j ≡ some (os, j')
    → finish_reconcile written (reconcile_data os) ≡ 0
    → find_entry id (unresolved_of j.records) ≡ some e
    → let own = of_id id j.records in
      count_stage is_created own ≤ suc (count_stage is_close_stage own)
      → IsElsewhere read target e ⊎ (find_entry id (unresolved_of j'.records) ≡ none)
finish_reconcile-resolves read clock target answers cs j j' os written id e ran exit found few =
    elim (reconcile_flow-all_settled read clock target answers cs j j' os id e ran found
      (finish_reconcile-all_settled written os exit)) [
        | inl elsewhere ↦ inl elsewhere
        | inr recorded ↦
            inr (reconcile_flow-recorded read clock target answers cs j j' os id ran recorded few)
      ]
