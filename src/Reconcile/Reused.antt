-- ===== src/Reconcile/Reused.antt =====
-- What the reconcile command makes of an intent id whose last line is a created one.
use mathlib.Core.Option.{some-injective}
use mathlib.Core.Option
use tinvest.Prelude.{
  ℕ, suc, true, false, ◌≡◌, inl, inr, refl, sym, ap, ◌∙◌, List, [], ◌∷◌, ◌++◌, Option, none, some,
  Text, codes, text_eq, Bool-cases, arith, if◌then◌else◌,
}
use tinvest.Ledger.{intent_created, Record, Entry, Env, Journal, entry_from_record}
use tinvest.Ledger.Lines.{Corruption}
use tinvest.Ledger.Aggregate.{unresolved_of, is_open_stage, is_created}
use tinvest.Ledger.Dangling.{
  of_id, last_of, any_stage, ends_open, is_dangling, reported, find_entry,
}
use tinvest.Ledger.Reports.{find_entry-unresolved_of}
use tinvest.Ledger.OwnLines.{last_of-append}
use tinvest.Reconcile.Scan.{entry_of_lines}
use tinvest.Reconcile.{
  Answers, Payloads, Clock, Target, not_placed, OutcomeView, Decision, leave, close_placed,
  close_not_placed, is_order_kind, target_mismatch, resolve_checked, resolve_entry,
  record_reconciled, apply_decision, reconcile_entries, reconcile_flow,
}

abbrev pub find_outcome : Text → List OutcomeView → Option OutcomeView
find_outcome id [] = none
find_outcome id (o ∷ os) = if text_eq o.intent_id id then some o else find_outcome id os

-- An entry's outcome names its intent.
apply_decision-id :
    (env : Env) (e : Entry) (d : Decision) (j : Journal)
    → (apply_decision env e d j).0.intent_id ≡ e.intent.intent_id
unfolding apply_decision record_reconciled
apply_decision-id env e (leave r) j = refl
apply_decision-id env e (close_placed s tracking) j = ground arith
apply_decision-id env e (close_not_placed text) j = ground arith

-- The outcome of an entry whose decision is the same on any answers.
reconcile_entries-find_outcome :
    (read : Payloads) (clock : Clock) (target : Target) (answers : ℕ → Answers) (n : ℕ)
    (es : List Entry) (j : Journal) (id : Text) (e : Entry) (d : Decision)
    → find_entry id es ≡ some e
    → ((ans : Answers) → resolve_entry read clock target ans e ≡ d)
    → (env : Env) × (j1 : Journal) × (find_outcome id
          (reconcile_entries read clock target answers n es j).0
        ≡ some (apply_decision env e d j1).0)
unfolding reconcile_entries
reconcile_entries-find_outcome read clock target answers n [] j id e d h same = cc h
reconcile_entries-find_outcome read clock target answers n (x ∷ es) j id e d h same =
    let dx = resolve_entry read clock target (answers n) x in
    let p = apply_decision (answers n).write x dx j in
    let q = reconcile_entries read clock target answers (suc n) es p.1 in
    let named = apply_decision-id (answers n).write x dx j in
    elim (Bool-cases (text_eq x.intent.intent_id id)) [
      | inr there ↦
          let (env, j1, found) =
            reconcile_entries-find_outcome read clock target answers (suc n) es p.1 id e d
              (rw there at h) same in
          (env, j1, skipped p.0 q.0 (ap (λ t. text_eq t id) named ∙ there) ∙ found)
      | inl here ↦
          let own = some-injective x e (rw here at h) in
          (
            (answers n).write,
            j,
            taken p.0 q.0 (ap (λ t. text_eq t id) named ∙ here)
                ∙ ap
                    (λ y.
                      some
                        (apply_decision (answers n).write y
                          (resolve_entry read clock target (answers n) y) j).0)
                    own
                ∙ ap (λ c. some (apply_decision (answers n).write e c j).0) (same (answers n)),
          )
    ]
  where
    skipped :
        (o : OutcomeView) (os : List OutcomeView)
        → text_eq o.intent_id id ≡ false
        → find_outcome id (o ∷ os) ≡ find_outcome id os
    skipped o os k = rw k refl

    taken :
        (o : OutcomeView) (os : List OutcomeView)
        → text_eq o.intent_id id ≡ true
        → find_outcome id (o ∷ os) ≡ some o
    taken o os k = rw k refl

-- Lines that end in a created one are reported by that line.
reported-created :
    (xs : List Record) (r : Record)
    → r.stage ≡ intent_created
    → (is_dangling (xs ++ r ∷ []) ≡ true) × (reported (xs ++ r ∷ []) ≡ some r)
reported-created xs r h =
    let last = last_of-append any_stage none xs (r ∷ []) in
    let opened = last_of-append is_open_stage none xs (r ∷ []) in
    let is_open = ap is_open_stage h in
    let at_end = ap (λ b. if b then some r else last_of is_open_stage none xs) is_open in
    (ground (arith, ap ends_open last, is_open), chosen _ (opened ∙ at_end))
  where
    chosen :
        (o : Option Record)
        → o ≡ some r
        → (elim o [ some y ↦ some y | none ↦ last_of any_stage none (xs ++ r ∷ []) ]) ≡ some r
    chosen none k = cc k
    chosen (some y) k = k

entry_from_record-stage : (r : Record) → (entry_from_record r).stage ≡ r.stage
unfolding entry_from_record
entry_from_record-stage r = refl

resolve_entry-created :
    (read : Payloads) (clock : Clock) (target : Target) (ans : Answers) (e : Entry)
    → e.stage ≡ intent_created
    → is_order_kind e.intent.kind ≡ true
    → target_mismatch read target e ≡ none
    → resolve_entry read clock target ans e ≡ close_not_placed (codes "not-placed-before-send")
unfolding resolve_entry resolve_checked
resolve_entry-created read clock target ans e stage kind match = ground (arith, ap is_created stage)

close_not_placed-outcome :
    (env : Env) (e : Entry) (text : Text) (j : Journal)
    → (apply_decision env e (close_not_placed text) j).0.outcome ≡ not_placed
unfolding apply_decision record_reconciled
close_not_placed-outcome env e text j = ground arith

-- An order intent of this command's target whose last line is a created one is closed as not placed,
-- whatever its earlier lines say, sends without an answer included, and whatever the broker answers.
pub reconcile_flow-reused :
    (read : Payloads) (clock : Clock) (target : Target) (answers : ℕ → Answers)
    (cs : List Corruption) (j j' : Journal) (os : List OutcomeView) (id : Text) (xs : List Record)
    (r : Record)
    → reconcile_flow read clock target answers cs j ≡ some (os, j')
    → of_id id j.records ≡ xs ++ r ∷ []
    → r.stage ≡ intent_created
    → is_order_kind (entry_from_record r).intent.kind ≡ true
    → target_mismatch read target (entry_from_record r) ≡ none
    → (o : OutcomeView) × (find_outcome id os ≡ some o) × (o.outcome ≡ not_placed)
unfolding reconcile_flow
reconcile_flow-reused read clock target answers (c ∷ cs) j j' os id xs r ran own h kind match =
    cc ran
reconcile_flow-reused read clock target answers [] j j' os id xs r ran own h kind match =
    let es = unresolved_of j.records in
    let e = entry_from_record r in
    let (dangles, rep) = reported-created xs r h in
    let found =
      find_entry-unresolved_of id j.records
      ∙ ap entry_of_lines own
      ∙ ap (λ b. if b then Option.map entry_from_record (reported (xs ++ r ∷ [])) else none) dangles
      ∙ ap (Option.map entry_from_record) rep in
    let same = λ (ans : Answers).
      resolve_entry-created read clock target ans e (entry_from_record-stage r ∙ h) kind match in
    let (env, j1, at) =
      reconcile_entries-find_outcome read clock target answers 0 es j id e _ found same in
    let p = reconcile_entries read clock target answers 0 es j in
    let out = ap (λ q. q.0) (some-injective p (os, j') ran) in
    (
      (apply_decision env e (close_not_placed (codes "not-placed-before-send")) j1).0,
      sym (ap (find_outcome id) out) ∙ at,
      close_not_placed-outcome env e (codes "not-placed-before-send") j1,
    )
