-- ===== src/Reconcile/Scan.antt =====
-- The recovery scan behind a run of the reconcile command.
use mathlib.Core.List.{append-nil, append_assoc}
use mathlib.Core.Option.{some-injective}
use mathlib.Core.Option
use mathlib.Core.Path.{subst}
use tinvest.Prelude.{
  ℕ, suc, ◌≤◌, Bool, true, false, not, ◌&&◌, ◌||◌, ◌≡◌, ◌⊎◌, inl, inr, refl, sym, ap, ◌∙◌, List, [],
  ◌∷◌, ◌++◌, Option, none, some, Text, text_eq, ltb, Bool-cases, if_intro, arith, if◌then◌else◌,
}
use tinvest.Ledger.{reconciled, Record, Entry, Journal, entry_from_record}
use tinvest.Ledger.Lines.{Corruption}
use tinvest.Ledger.Aggregate.{unresolved_of, is_created, is_close_stage, is_open_stage, bump}
use tinvest.Ledger.Dangling.{
  of_id, any_stage, last_of, count_stage, ends_open, is_dangling, reported, find_entry,
}
use tinvest.Ledger.Reports.{find_entry-unresolved_of}
use tinvest.Ledger.OwnLines.{of_id-append, last_of-append, count_stage-append}
use tinvest.Reconcile.{
  Answers, Payloads, Clock, Target, OutcomeView, reconcile_entries, reconcile_flow,
}
use tinvest.Reconcile.Evidence.{is_closed}
use tinvest.Reconcile.Kept.{IsClosing, IsStep, AreSteps, reconcile_entries-AreSteps}

-- Some outcome closed an intent; and its line was written without an error.
abbrev pub closed_in : Text → List OutcomeView → Bool
closed_in id [] = false
closed_in id (o ∷ os) = (is_closed o.outcome && text_eq o.intent_id id) || closed_in id os

abbrev pub recorded_in : Text → List OutcomeView → Bool
recorded_in id [] = false
recorded_in id (o ∷ os) =
    (is_closed o.outcome && text_eq o.intent_id id && not o.ledger_write_failed)
    || recorded_in id os

abbrev AreReconciled : List Record → Type 0
AreReconciled [] = Unit
AreReconciled (r ∷ rs) = (r.stage ≡ reconciled) × AreReconciled rs

-- What a run adds to the lines of one intent.
record IsGrown (id : Text) (os : List OutcomeView) (before after : List Record) : Type 0 where
  added : List Record
  shape : of_id id after ≡ of_id id before ++ added
  closing : AreReconciled added
  untouched : closed_in id os ≡ false → added ≡ []
  touched : recorded_in id os ≡ true → (r : Record) × (rest : List Record) × (added ≡ r ∷ rest)

append-AreReconciled :
    (xs ys : List Record) → AreReconciled xs → AreReconciled ys → AreReconciled (xs ++ ys)
append-AreReconciled [] ys h k = k
append-AreReconciled (x ∷ xs) ys h k = (h.0, append-AreReconciled xs ys h.1 k)

closing-AreReconciled :
    (id : Text) (r : Record) → r.stage ≡ reconciled → AreReconciled (of_id id (r ∷ []))
closing-AreReconciled id r h =
    if_intro AreReconciled (text_eq r.intent_id id) (r ∷ []) [] (λ k. (h, tt)) (λ k. tt)

step-IsGrown :
    (id : Text) (o : OutcomeView) (before after : List Record)
    → IsStep o before after
    → IsGrown id (o ∷ []) before after
step-IsGrown id o before after s = record {
  added = of_id id s.lines;
  shape = ap (of_id id) s.shape ∙ of_id-append id before s.lines;
  closing = closes s.only;
  untouched = keeps s.only;
  touched = λ h. shows (s.closed (closed_of h) (written_of h)) h;
}
  where
    closed_of : recorded_in id (o ∷ []) ≡ true → is_closed o.outcome ≡ true
    closed_of h = ground arith

    written_of : recorded_in id (o ∷ []) ≡ true → o.ledger_write_failed ≡ false
    written_of h = ground arith

    closes :
        (s.lines ≡ [])
          ⊎ ((r : Record) × (s.lines ≡ r ∷ [])
              × IsClosing o.intent_id r
              × (is_closed o.outcome ≡ true))
        → AreReconciled (of_id id s.lines)
    closes (inl e) = rw e tt
    closes (inr (r, e, c, k)) = rw e (closing-AreReconciled id r c.1)

    keeps :
        (s.lines ≡ [])
          ⊎ ((r : Record) × (s.lines ≡ r ∷ [])
              × IsClosing o.intent_id r
              × (is_closed o.outcome ≡ true))
        → closed_in id (o ∷ []) ≡ false
        → of_id id s.lines ≡ []
    keeps (inl e) h = rw e refl
    keeps (inr (r, e, c, k)) h = rw (e, c.0) (ground arith)

    shows :
        (r : Record) × (s.lines ≡ r ∷ []) × IsClosing o.intent_id r
        → recorded_in id (o ∷ []) ≡ true
        → (r : Record) × (rest : List Record) × (of_id id s.lines ≡ r ∷ rest)
    shows (r, e, c) h = (r, [], rw (e, c.0) (ground arith))

headed :
    (xs : List Record) (r : Record) (rest ys : List Record)
    → ys ≡ r ∷ rest
    → (r' : Record) × (rest' : List Record) × (xs ++ ys ≡ r' ∷ rest')
headed [] r rest ys e = (r, rest, e)
headed (x ∷ xs) r rest ys e = (x, xs ++ ys, refl)

join-IsGrown :
    (id : Text) (o : OutcomeView) (os : List OutcomeView) (before middle after : List Record)
    → IsGrown id (o ∷ []) before middle
    → IsGrown id os middle after
    → IsGrown id (o ∷ os) before after
join-IsGrown id o os before middle after g h = record {
  added = g.added ++ h.added;
  shape =
      h.shape ∙ ap (λ xs. xs ++ h.added) g.shape ∙ append_assoc (of_id id before) g.added h.added;
  closing = append-AreReconciled g.added h.added g.closing h.closing;
  untouched = λ k. rw (g.untouched (ground arith), h.untouched (ground arith)) refl;
  touched = λ k. joined g.touched h.touched (Bool-cases (recorded_in id (o ∷ []))) k;
}
  where
    joined :
        (recorded_in id (o ∷ []) ≡ true
          → (r : Record) × (rest : List Record) × (g.added ≡ r ∷ rest))
        → (recorded_in id os ≡ true → (r : Record) × (rest : List Record) × (h.added ≡ r ∷ rest))
        → (recorded_in id (o ∷ []) ≡ true) ⊎ (recorded_in id (o ∷ []) ≡ false)
        → recorded_in id (o ∷ os) ≡ true
        → (r : Record) × (rest : List Record) × (g.added ++ h.added ≡ r ∷ rest)
    joined x y (inl one) k =
        let (r, rest, e) = x one in (r, rest ++ h.added, ap (λ xs. xs ++ h.added) e)
    joined x y (inr one) k = let (r, rest, e) = y (ground arith) in headed g.added r rest h.added e

steps-IsGrown :
    (id : Text) (os : List OutcomeView) (before after : List Record)
    → AreSteps os before after
    → IsGrown id os before after
steps-IsGrown id [] before after h = record {
  added = [];
  shape = ap (of_id id) h ∙ sym (append-nil (of_id id before));
  closing = tt;
  untouched = λ k. refl;
  touched = λ k. cc k;
}
steps-IsGrown id (o ∷ os) before after (middle, s, rest) =
    join-IsGrown id o os before middle after (step-IsGrown id o before middle s)
      (steps-IsGrown id os middle after rest)

-- Reconciled lines behind the lines of an intent.
last_reconciled :
    (b : Option Record) (rs : List Record)
    → AreReconciled rs
    → ends_open b ≡ false
    → ends_open (last_of any_stage b rs) ≡ false
last_reconciled b [] h k = k
last_reconciled b (r ∷ rs) h k = last_reconciled (some r) rs h.1 (rw h.0 refl)

count_created_reconciled : (rs : List Record) → AreReconciled rs → count_stage is_created rs ≡ 0
count_created_reconciled [] h = refl
count_created_reconciled (r ∷ rs) h = rw (h.0, count_created_reconciled rs h.1) refl

count_close_reconciled :
    (r : Record) (rest : List Record)
    → r.stage ≡ reconciled
    → 1 ≤ count_stage is_close_stage (r ∷ rest)
count_close_reconciled r rest h =
    subst (λ s. 1 ≤ bump (is_close_stage s) (count_stage is_close_stage rest)) (sym h) (omega arith)

neither_dangles : (b : Bool) (m n : ℕ) → b ≡ false → n ≤ m → (b || ltb m n) ≡ false
neither_dangles true m n h k = cc h
neither_dangles false m n h k = ground arith

is_dangling_reconciled :
    (xs : List Record) (r : Record) (rest : List Record)
    → AreReconciled (r ∷ rest)
    → count_stage is_created xs ≤ suc (count_stage is_close_stage xs)
    → is_dangling (xs ++ r ∷ rest) ≡ false
is_dangling_reconciled xs r rest h few =
    let created = count_stage-append is_created xs (r ∷ rest) in
    let closed = count_stage-append is_close_stage xs (r ∷ rest) in
    let none_created = count_created_reconciled (r ∷ rest) h in
    let some_closed = count_close_reconciled r rest h.0 in
    neither_dangles _ _ _
      (ap ends_open (last_of-append any_stage none xs (r ∷ rest))
        ∙ last_reconciled (some r) rest h.1 (ap is_open_stage h.0))
      (omega (arith, created, closed, none_created, some_closed, few))

abbrev pub entry_of_lines : List Record → Option Entry
entry_of_lines rs = if is_dangling rs then Option.map entry_from_record (reported rs) else none

reconcile_flow-AreSteps :
    (read : Payloads) (clock : Clock) (target : Target) (answers : ℕ → Answers)
    (cs : List Corruption) (j j' : Journal) (os : List OutcomeView)
    → reconcile_flow read clock target answers cs j ≡ some (os, j')
    → AreSteps os j.records j'.records
unfolding reconcile_flow
reconcile_flow-AreSteps read clock target answers [] j j' os ran =
    let same =
      some-injective (reconcile_entries read clock target answers 0 (unresolved_of j.records) j)
        (os, j') ran in
    subst (λ p. AreSteps p.0 j.records p.1.records) same
      (reconcile_entries-AreSteps read clock target answers 0 (unresolved_of j.records) j)
reconcile_flow-AreSteps read clock target answers (c ∷ cs) j j' os ran = cc ran

-- The scan behind a run reports an intent that no outcome closed as the scan before the run did.
pub reconcile_flow-kept :
    (read : Payloads) (clock : Clock) (target : Target) (answers : ℕ → Answers)
    (cs : List Corruption) (j j' : Journal) (os : List OutcomeView) (id : Text)
    → reconcile_flow read clock target answers cs j ≡ some (os, j')
    → closed_in id os ≡ false
    → find_entry id (unresolved_of j'.records) ≡ find_entry id (unresolved_of j.records)
reconcile_flow-kept read clock target answers cs j j' os id ran h =
    let g =
      steps-IsGrown id os j.records j'.records
        (reconcile_flow-AreSteps read clock target answers cs j j' os ran) in
    let same =
      g.shape
      ∙ ap (λ xs. of_id id j.records ++ xs) (g.untouched h)
      ∙ append-nil (of_id id j.records) in
    find_entry-unresolved_of id j'.records
    ∙ ap entry_of_lines same
    ∙ sym (find_entry-unresolved_of id j.records)

-- The scan behind a run does not report an intent that an outcome closed with its line written, where
-- the lines before the run opened at most one lifecycle more than they closed.
pub reconcile_flow-recorded :
    (read : Payloads) (clock : Clock) (target : Target) (answers : ℕ → Answers)
    (cs : List Corruption) (j j' : Journal) (os : List OutcomeView) (id : Text)
    → reconcile_flow read clock target answers cs j ≡ some (os, j')
    → recorded_in id os ≡ true
    → let own = of_id id j.records in
      count_stage is_created own ≤ suc (count_stage is_close_stage own)
      → find_entry id (unresolved_of j'.records) ≡ none
reconcile_flow-recorded read clock target answers cs j j' os id ran h few =
    let g =
      steps-IsGrown id os j.records j'.records
        (reconcile_flow-AreSteps read clock target answers cs j j' os ran) in
    let (r, rest, e) = g.touched h in
    let own = of_id id j.records in
    let closed = is_dangling_reconciled own r rest (subst AreReconciled e g.closing) few in
    let shape = g.shape ∙ ap (λ xs. own ++ xs) e in
    find_entry-unresolved_of id j'.records
    ∙ ap entry_of_lines shape
    ∙ ap (λ b. if b then Option.map entry_from_record (reported (own ++ r ∷ rest)) else none) closed
