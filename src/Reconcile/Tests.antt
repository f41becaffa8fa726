-- ===== src/Reconcile/Tests.antt =====
-- Runs of the reconcile command at concrete inputs.
use tinvest.Prelude.{ℕ, ◌≡◌, ◌⊎◌, refl, false, true, List, [], ◌∷◌, none, some, Text, codes, arith}
use tinvest.Prelude.Int.{pos}
use tinvest.Phase.{new_call_info}
use tinvest.Errors.{GrpcCode, CallError, with_status}
use tinvest.Ledger.{
  stored, intent_created, send_started, Stage, Record, Entry, Env, Journal, entry_from_record,
  append_line, entry_record, write_record, apply_outcome, reconcile_entry,
}
use tinvest.Ledger.Aggregate.{
  update_agg, first_agg, upsert, aggregate, is_unresolved, representative, unresolved_entries,
  insert_by_seq, sort_by_seq, unresolved_of,
}
use tinvest.Ledger.Dangling.{find_entry}
use tinvest.Reconcile.{
  get_failed, listed, Answers, Payloads, Clock, Target, OutcomeView, not_placed, is_order_kind,
  find_order_by_request_id, intent_created_today, needs_attention, reconcile_data, finish_reconcile,
  target_mismatch, resolve_sync_not_found, resolve_recheck, resolve_lookup, resolve_payload,
  resolve_sent, resolve_checked, resolve_entry, record_reconciled, apply_decision,
  reconcile_entries, reconcile_flow,
}
use tinvest.Reconcile.Evidence.{IsSupported, resolve_entry-IsSupported}
use tinvest.Reconcile.Scan.{closed_in, recorded_in, reconcile_flow-kept}
use tinvest.Reconcile.Exit.{IsElsewhere, finish_reconcile-resolves}
use tinvest.Reconcile.Reused.{find_outcome, reconcile_flow-reused}

abbrev line : Stage → Text → Text → ℕ → Record
line stage id kind seq = record {
  seq = seq;
  ts = codes "t";
  stage = stage;
  intent_id = id;
  kind = kind;
  account_id = codes "acc";
  profile = [];
  attempt = pos 1;
  payload_hash = [];
  payload = codes "{}";
  order_id = id;
  stop_order_id = [];
  exchange_order_id = [];
  tracking_id = [];
  error = [];
  exit_code = none;
}

abbrev order : Text
order = codes "order.place"

-- A sent order, an order id that was used again, and a stop order.
abbrev reused : Record
reused = line intent_created (codes "b") order 5

abbrev journal : Journal
journal = record {
  seq = 6;
  records =
      line intent_created (codes "a") order 1
      ∷ line send_started (codes "a") order 2
      ∷ line intent_created (codes "b") order 3
      ∷ line send_started (codes "b") order 4
      ∷ reused
      ∷ line intent_created (codes "c") (codes "stoporder.place") 6
      ∷ [];
}

abbrev missing : CallError
missing = with_status GrpcCode.not_found (codes "50005")

abbrev env : Env
env = record { io = stored; now = codes "t"; opened = none }

abbrev ans : Answers
ans = record {
  first = get_failed missing;
  first_info = new_call_info;
  second = get_failed missing;
  second_info = new_call_info;
  today = listed [];
  today_info = new_call_info;
  now_day = 7;
  write = env;
}

abbrev answers : ℕ → Answers
answers n = ans

abbrev read : Payloads
read = record {
  order = λ t. some (record { async = false; created_at = codes "now" });
  endpoint = λ t. some (codes "prod");
}

abbrev clock : Clock
clock = record { day_of = λ t. some 7 }

abbrev target : Target
target = record { profile = []; endpoint = codes "prod" }

abbrev run : List OutcomeView × Journal
run = reconcile_entries read clock target answers 0 (unresolved_of journal.records) journal

ran : reconcile_flow read clock target answers [] journal ≡ some run
unfolding reconcile_flow
ran = refl

resolve_entry-IsSupported_example :
    let e = entry_from_record (line send_started (codes "a") order 2) in
    IsSupported read clock ans e (resolve_entry read clock target ans e)
resolve_entry-IsSupported_example =
    resolve_entry-IsSupported read clock target ans
      (entry_from_record (line send_started (codes "a") order 2))

abbrev first_entry : Entry
first_entry = entry_from_record (line send_started (codes "a") order 2)

-- The run closes the sent order and the order id used again, and leaves the stop order.
run_facts :
    (closed_in (codes "c") run.0 ≡ false)
    × (recorded_in (codes "a") run.0 ≡ true)
    × (finish_reconcile true (reconcile_data run.0) ≡ 0)
    × (find_entry (codes "a") (unresolved_of journal.records) ≡ some first_entry)
    × (is_order_kind (entry_from_record reused).intent.kind ≡ true)
    × (target_mismatch read target (entry_from_record reused) ≡ none)
unfolding reconcile_entries unresolved_of sort_by_seq insert_by_seq unresolved_entries is_unresolved
    representative aggregate upsert first_agg update_agg entry_from_record resolve_entry
    resolve_checked resolve_sent resolve_payload resolve_lookup resolve_recheck
    resolve_sync_not_found target_mismatch find_order_by_request_id intent_created_today
    apply_decision record_reconciled reconcile_entry entry_record apply_outcome write_record
    append_line needs_attention reconcile_data finish_reconcile
run_facts = (refl, refl, refl, refl, refl, refl)

reconcile_flow-kept_example :
    find_entry (codes "c") (unresolved_of run.1.records)
    ≡ find_entry (codes "c") (unresolved_of journal.records)
reconcile_flow-kept_example =
    reconcile_flow-kept read clock target answers [] journal run.1 run.0 (codes "c") ran run_facts.0

finish_reconcile-resolves_example :
    IsElsewhere read target first_entry
    ⊎ (find_entry (codes "a") (unresolved_of run.1.records) ≡ none)
finish_reconcile-resolves_example =
    finish_reconcile-resolves read clock target answers [] journal run.1 run.0 true (codes "a")
      first_entry ran run_facts.2 run_facts.3 (omega arith)

reconcile_flow-reused_example :
    (o : OutcomeView) × (find_outcome (codes "b") run.0 ≡ some o) × (o.outcome ≡ not_placed)
reconcile_flow-reused_example =
    reconcile_flow-reused read clock target answers [] journal run.1 run.0 (codes "b")
      (line intent_created (codes "b") order 3 ∷ line send_started (codes "b") order 4 ∷ []) reused
      ran refl refl run_facts.4 run_facts.5
