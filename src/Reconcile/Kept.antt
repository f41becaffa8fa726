-- ===== src/Reconcile/Kept.antt =====
-- What a run of the reconcile command leaves of the journal and of the recovery scan.
use mathlib.Core.List.{append-nil}
use tinvest.Prelude.{
  ℕ, suc, Bool, true, false, ◌≡◌, ◌⊎◌, inl, inr, refl, sym, List, [], ◌∷◌, ◌++◌, Text,
  if◌then◌else◌,
}
use tinvest.Ledger.{
  Io, stored, refused, unwritten, unsynced, reconciled, Outcome, Record, Entry, Env, Journal,
  reconcile_entry, entry_record, apply_outcome,
}
use tinvest.Ledger.Appends.{is_stored, lands, numbered, write_record-records, write_record-done}
use tinvest.Reconcile.Evidence.{is_closed, IsSupported, resolve_entry-IsSupported}
use tinvest.Reconcile.{
  Answers, Payloads, Clock, Target, OutcomeView, Decision, leave, close_placed, close_not_placed,
  record_reconciled, apply_decision, resolve_entry, reconcile_entries,
}

-- A line that closes an intent, and the lines that some list of outcomes adds.
abbrev pub IsClosing : Text → Record → Type 0
IsClosing id r = (r.intent_id ≡ id) × (r.stage ≡ reconciled)

-- What one outcome adds to the records: nothing, or the closing line of its intent; and the line if
-- the intent was closed and no write failed.
pub record IsStep (o : OutcomeView) (before after : List Record) : Type 0 where
  pub lines : List Record
  pub shape : after ≡ before ++ lines
  pub only :
      (lines ≡ [])
      ⊎ ((r : Record) × (lines ≡ r ∷ []) × IsClosing o.intent_id r × (is_closed o.outcome ≡ true))
  pub closed :
      is_closed o.outcome ≡ true
      → o.ledger_write_failed ≡ false
      → (r : Record) × (lines ≡ r ∷ []) × IsClosing o.intent_id r

written-IsStep :
    (out : OutcomeView) (before : List Record) (r : Record) (done lands : Bool)
    → (done ≡ true → lands ≡ true)
    → IsClosing out.intent_id r
    → is_closed out.outcome ≡ true
    → out.ledger_write_failed ≡ false
    → IsStep
        (if done then out else record out { ledger_write_failed = true })
        before
        (if lands then before ++ r ∷ [] else before)
written-IsStep out before r true true h c closed fresh = record {
  lines = r ∷ [];
  shape = refl;
  only = inr (r, refl, c, closed);
  closed = λ k w. (r, refl, c);
}
written-IsStep out before r true false h c closed fresh = cc (h refl)
written-IsStep out before r false true h c closed fresh = record {
  lines = r ∷ [];
  shape = refl;
  only = inr (r, refl, c, closed);
  closed = λ k w. (r, refl, c);
}
written-IsStep out before r false false h c closed fresh = record {
  lines = [];
  shape = sym (append-nil before);
  only = inl refl;
  closed = λ k w. absurd (cc w);
}

is_stored-lands : (io : Io) → is_stored io ≡ true → lands io ≡ true
is_stored-lands stored h = refl
is_stored-lands refused h = cc
is_stored-lands unwritten h = cc
is_stored-lands unsynced h = refl

record_reconciled-IsStep :
    (env : Env) (res : Outcome) (e : Entry) (out : OutcomeView) (j : Journal)
    → out.intent_id ≡ e.intent.intent_id
    → is_closed out.outcome ≡ true
    → out.ledger_write_failed ≡ false
    → let p = record_reconciled env res e out j in IsStep p.0 j.records p.1.records
unfolding record_reconciled reconcile_entry entry_record apply_outcome
record_reconciled-IsStep env res e out j own closed fresh =
    let e' = apply_outcome res e in
    let r = record (entry_record e' reconciled) { exit_code = res.exit_code; error = res.error } in
    rw (write_record-done env e' r j, write_record-records env e' r j)
      (written-IsStep out j.records (numbered env j r) (is_stored env.io) (lands env.io)
        (is_stored-lands env.io) (sym own, refl) closed fresh)

apply_decision-IsStep :
    (read : Payloads) (clock : Clock) (ans : Answers) (env : Env) (e : Entry) (d : Decision)
    (j : Journal)
    → IsSupported read clock ans e d
    → let p = apply_decision env e d j in IsStep p.0 j.records p.1.records
unfolding apply_decision
apply_decision-IsStep read clock ans env e (leave r) j h = record {
  lines = [];
  shape = sym (append-nil j.records);
  only = inl refl;
  closed = λ k w. absurd (cc (h, k));
}
apply_decision-IsStep read clock ans env e (close_placed s tracking) j h =
    record_reconciled-IsStep env _ e _ j refl refl refl
apply_decision-IsStep read clock ans env e (close_not_placed text) j h =
    record_reconciled-IsStep env _ e _ j refl refl refl

-- The records behind a run, as the lines of its outcomes.
abbrev pub AreSteps : List OutcomeView → List Record → List Record → Type 0
AreSteps [] before after = after ≡ before
AreSteps (o ∷ os) before after =
    (middle : List Record) × IsStep o before middle × AreSteps os middle after

pub reconcile_entries-AreSteps :
    (read : Payloads) (clock : Clock) (target : Target) (answers : ℕ → Answers) (n : ℕ)
    (es : List Entry) (j : Journal)
    → let p = reconcile_entries read clock target answers n es j in
      AreSteps p.0 j.records p.1.records
unfolding reconcile_entries
reconcile_entries-AreSteps read clock target answers n [] j = refl
reconcile_entries-AreSteps read clock target answers n (e ∷ es) j =
    let ans = answers n in
    let d = resolve_entry read clock target ans e in
    let p = apply_decision ans.write e d j in
    (
      p.1.records,
      apply_decision-IsStep read clock ans ans.write e d j
          (resolve_entry-IsSupported read clock target ans e),
      reconcile_entries-AreSteps read clock target answers (suc n) es p.1,
    )
