-- ===== src/Placement/Settled.antt =====
-- The lines that a placement adds behind the broker's answer.
use tinvest.Prelude.{
  Bool, true, false, not, ◌||◌, ◌≡◌, refl, ◌∙◌, List, [], ◌∷◌, ◌++◌, Option, none, some, Text,
  Bool-cases, inl, inr, arith, if◌then◌else◌,
}
use tinvest.Phase.{CallInfo}
use tinvest.Errors.{CliError, CallError, classify}
use tinvest.Ledger.Appends.{lands, numbered, write_record-records}
use tinvest.Ledger.{
  Intent, Outcome, Record, Entry, Journal, entry_record, write_record, apply_outcome, confirm_entry,
  reject_entry,
}
use tinvest.Ledger.Aggregate.{is_close_stage}
use tinvest.Orders.{is_rejected}
use tinvest.Placement.{
  Disk, Reply, answered, answered_async, failed, Placed, PlaceOutcome, call_context, is_unconfirmed,
  hinted, execution_status, settle, settle_error, settle_response,
}

abbrev pub is_unconfirmed_error : Option CliError → Bool
is_unconfirmed_error none = false
is_unconfirmed_error (some e) = is_unconfirmed e.code

-- A closing line of an entry's intent, and the journal with it if it lands.
abbrev pub ClosesWith : Disk → Text → Journal → List Record → Bool → Type 0
ClosesWith disk id j records kept =
    (r : Record) × (r.intent_id ≡ id)
    × (is_close_stage r.stage ≡ true)
    × (records ≡ (if kept then j.records else j.records ++ r ∷ []))

closes :
    (disk : Disk) (e : Entry) (r : Record) (j : Journal)
    → is_close_stage r.stage ≡ true
    → ClosesWith disk r.intent_id j
        (write_record disk.closed e r j).1.records
        (not (lands disk.closed.io))
closes disk e r j h =
    (numbered disk.closed j r, refl, h, write_record-records disk.closed e r j ∙ ground arith)

reject_entry-ClosesWith :
    (disk : Disk) (cause : Text) (e : Entry) (j : Journal)
    → ClosesWith disk e.intent.intent_id j
        (reject_entry disk.closed cause e j).1.records
        (not (lands disk.closed.io))
unfolding reject_entry entry_record
reject_entry-ClosesWith disk cause e j = closes disk e _ j refl

confirm_entry-ClosesWith :
    (disk : Disk) (res : Outcome) (e : Entry) (j : Journal)
    → ClosesWith disk e.intent.intent_id j
        (confirm_entry disk.closed res e j).1.records
        (not (lands disk.closed.io))
unfolding confirm_entry entry_record apply_outcome
confirm_entry-ClosesWith disk res e j = closes disk (apply_outcome res e) _ j refl

abbrev Settles : Disk → Entry → Journal → Placed → Type 0
Settles disk entry j p =
    ClosesWith disk entry.intent.intent_id j p.journal.records
      (is_unconfirmed_error p.error || not (lands disk.closed.io))
    × (p.called ≡ true)

settle_error-Settles :
    (describe : CallError → Text) (disk : Disk) (intent : Intent) (order_id : Text) (entry : Entry)
    (out : PlaceOutcome) (err : CallError) (j : Journal)
    → Settles disk entry j (settle_error describe disk intent order_id entry out err j)
unfolding settle_error hinted
settle_error-Settles describe disk intent order_id entry out err j =
    let line = reject_entry-ClosesWith disk (describe err) entry j in
    elim (Bool-cases (is_unconfirmed (classify err (call_context out.info true)).code)) [
      | inl open_ended ↦ rw (open_ended, open_ended) ((line.0, line.1, line.2, refl), refl)
      | inr definite ↦ rw (definite, definite) (line, refl)
    ]

settle_response-Settles :
    (disk : Disk) (entry : Entry) (out : PlaceOutcome) (j : Journal)
    → Settles disk entry j (settle_response disk entry out j)
unfolding settle_response
settle_response-Settles disk entry out j = elim (Bool-cases (is_rejected (execution_status out))) [
  | inl rejected ↦ rw rejected (reject_entry-ClosesWith disk _ entry j, refl)
  | inr accepted ↦ rw accepted (confirm_entry-ClosesWith disk _ entry j, refl)
]

-- What a placement does behind its send: it adds one closing line of the intent, or, when the outcome
-- is unconfirmed or that line's write is lost, none.
pub settle-Settles :
    (describe : CallError → Text) (disk : Disk) (intent : Intent) (order_id : Text) (entry : Entry)
    (info : CallInfo) (reply : Reply) (j : Journal)
    → Settles disk entry j (settle describe disk intent order_id entry info reply j)
unfolding settle
settle-Settles describe disk intent order_id entry info (failed err) j =
    settle_error-Settles describe disk intent order_id entry _ err j
settle-Settles describe disk intent order_id entry info (answered r) j =
    settle_response-Settles disk entry _ j
settle-Settles describe disk intent order_id entry info (answered_async r) j =
    settle_response-Settles disk entry _ j
