-- ===== src/Placement/InDoubt.antt =====
-- Placements whose outcome is not known: the error, its hint, and the journal.
use tinvest.Prelude.{
  Bool, true, false, not, ◌&&◌, ◌||◌, ◌≡◌, refl, ◌∙◌, List, [], ◌∷◌, Option, none, some, Text,
  codes, is_empty, arith,
}
use tinvest.Phase.{RpcStats, new_call_info, observe}
use tinvest.Phase.LastAttempt.{some_of, is_answer, is_write, last_attempt, phase-observe}
use tinvest.Errors.{
  CliError, ReconcileHint, CallError, CallContext, classify, with_status, plain,
  is_sent_unconfirmed,
}
use tinvest.Errors.Classification.{is_duplicate, text_eq-api_code}
use tinvest.Ledger.{
  stored, send_started, Intent, Entry, Journal, entry_from_record, entry_record, new_entry,
}
use tinvest.Ledger.Aggregate.{unresolved_of}
use tinvest.Ledger.Dangling.{find_entry}
use tinvest.Placement.{
  Disk, failed, Placed, settle, settle_error, place_outcome, call_context, place_exec,
  is_unconfirmed, hinted, scoped_broker_command,
}
use tinvest.Placement.WriteAhead.{place_exec-called}
use tinvest.Placement.Settled.{is_unconfirmed_error}
use tinvest.Placement.Safety.{still_open, sent_record}

-- The payload was written and the last attempt got no answer, or the broker knows the order id
-- without a report.
abbrev pub is_in_doubt : List RpcStats → CallError → Bool
is_in_doubt events err =
    (not (some_of is_answer (last_attempt events)) && some_of is_write events) || is_duplicate err

abbrev pub hint_of : Option CliError → Option ReconcileHint
hint_of none = none
hint_of (some e) = e.reconcile_hint

is_unconfirmed-classify :
    (e : CallError) (cc : CallContext)
    → is_unconfirmed (classify e cc).code
      ≡ (cc.mutation && (is_sent_unconfirmed cc.phase || is_duplicate e))
unfolding classify
is_unconfirmed-classify (plain m) cc = ground arith
is_unconfirmed-classify (with_status c m) cc = ground (arith, text_eq-api_code m (codes "30057"))

in_doubt-classify :
    (err : CallError) (events : List RpcStats)
    → is_unconfirmed (classify err (call_context (observe new_call_info events) true)).code
      ≡ is_in_doubt events err
unfolding call_context
in_doubt-classify err events =
    is_unconfirmed-classify err (call_context (observe new_call_info events) true)
    ∙ ground (arith, phase-observe events)

-- The hint of an in-doubt call.
abbrev pub reconcile_with : Intent → Text → ReconcileHint
reconcile_with intent order_id = record {
  order_id = order_id;
  command =
      scoped_broker_command intent.profile intent.account_id
        (codes "orders" ∷ codes "reconcile" ∷ []);
}

module _ (sum : Text → Text) (describe : CallError → Text) (disk : Disk) (intent : Intent)
    (order_id : Text) (events : List RpcStats) (err : CallError) (j : Journal)
    (named : is_empty intent.intent_id ≡ false) (begun : disk.begun.io ≡ stored)
    (sent : disk.sent.io ≡ stored) where
  abbrev placed : Placed
  placed = place_exec sum describe disk intent order_id events (failed err) j

  placed-error :
      is_in_doubt events err ≡ true
      → (is_unconfirmed_error placed.error ≡ true)
        × (hint_of placed.error ≡ some (reconcile_with intent order_id))
  unfolding settle settle_error place_outcome hinted
  placed-error h =
      let e = in_doubt-classify err events ∙ h in
      rw
        (
          place_exec-called sum disk intent j describe order_id events (failed err) named begun
              sent,
          e,
        )
        (e, refl)

-- A placement whose intent has an id, whose two lines before the call are stored, and whose call
-- fails in doubt: after some attempt wrote the request and the last attempt got no answer, or with
-- the broker's 30057. The command fails as UNCONFIRMED with a hint that names the order id and the
-- account's reconcile command, and whatever the journal held before, the recovery scan now reports
-- the intent, with its order id and payload.
pub place_exec-in_doubt :
    (sum : Text → Text) (describe : CallError → Text) (disk : Disk) (intent : Intent)
    (order_id : Text) (events : List RpcStats) (err : CallError) (j : Journal)
    → is_empty intent.intent_id ≡ false
    → disk.begun.io ≡ stored
    → disk.sent.io ≡ stored
    → is_in_doubt events err ≡ true
    → let p = place_exec sum describe disk intent order_id events (failed err) j in
      (is_unconfirmed_error p.error ≡ true)
      × (hint_of p.error ≡ some (reconcile_with intent order_id))
      × (e : Entry) × (find_entry intent.intent_id (unresolved_of p.journal.records) ≡ some e)
      × (e.stage ≡ send_started)
      × (e.order_id ≡ intent.order_id)
      × (e.payload ≡ intent.payload)
unfolding sent_record entry_from_record entry_record new_entry
place_exec-in_doubt sum describe disk intent order_id events err j named begun sent doubt =
    let (u, hint) =
      placed-error sum describe disk intent order_id events err j named begun sent doubt in
    (
      u,
      hint,
      entry_from_record (sent_record sum describe disk intent order_id events (failed err) j),
      still_open sum describe disk intent order_id events (failed err) j named begun sent
          (rw u refl),
      refl,
      refl,
      refl,
    )
