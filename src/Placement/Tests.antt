-- ===== src/Placement/Tests.antt =====
-- Placements at concrete inputs.
use tinvest.Prelude.{
  true, not, ◌&&◌, ◌||◌, ◌≡◌, refl, List, [], ◌∷◌, none, some, Text, codes, is_empty,
}
use tinvest.Prelude.Int.{pos}
use tinvest.Phase.{RpcStats, begin, out_payload, ended}
use tinvest.Errors.{CallError, with_status, plain}
use tinvest.Ledger.{stored, unwritten, send_started, Intent, Entry, Env, Journal}
use tinvest.Ledger.Aggregate.{unresolved_of}
use tinvest.Ledger.Dangling.{find_entry}
use tinvest.Orders.{ReportStatus}
use tinvest.Placement.{
  escape_quotes, Disk, Reply, answered, failed, place_exec, shell_command_arg,
  scoped_broker_command,
}
use tinvest.Ledger.Appends.{is_stored, lands}
use tinvest.Placement.Settled.{is_unconfirmed_error}
use tinvest.Placement.Safety.{is_found, find_entry-place_exec}
use tinvest.Placement.InDoubt.{hint_of, reconcile_with, place_exec-in_doubt}
use tinvest.Placement.Shell.{outside, read_word, read_word-shell_command_arg}
use tinvest.Placement.Called.{IsSentIn, place_exec-write_ahead}

abbrev at_once : Env
at_once = record { io = stored; now = codes "t"; opened = none }

abbrev disk : Disk
disk = record {
  begun = at_once;
  sent = at_once;
  closed = record at_once { io = unwritten };
  begin_error = [];
  sent_error = [];
}

abbrev intent : Intent
intent = record {
  intent_id = codes "a";
  kind = codes "order.place";
  account_id = codes "acc";
  profile = codes "my profile";
  attempt = pos 1;
  order_id = codes "a";
  stop_order_id = [];
  payload = codes "{}";
}

abbrev empty : Journal
empty = record { seq = 0; records = [] }

-- A send, a retry without an answer, and a raw context error.
abbrev events : List RpcStats
events = begin ∷ out_payload ∷ begin ∷ ended true ∷ []

abbrev describe : CallError → Text
describe (with_status code message) = message
describe (plain message) = message

abbrev expired : CallError
expired = plain (codes "context deadline exceeded")

abbrev filled : Reply
filled =
    answered
      (record { execution_report_status = ReportStatus.fill; order_id = codes "9"; message = [] })

find_entry-place_exec_example :
    let p = place_exec (λ t. t) describe disk intent (codes "a") events filled empty in
    is_found (find_entry (codes "a") (unresolved_of p.journal.records))
    ≡ (is_unconfirmed_error p.error || not (lands disk.closed.io))
find_entry-place_exec_example =
    find_entry-place_exec (λ t. t) describe disk intent (codes "a") events filled empty refl refl
      refl refl

place_exec-in_doubt_example :
    let p = place_exec (λ t. t) describe disk intent (codes "a") events (failed expired) empty in
    (is_unconfirmed_error p.error ≡ true)
    × (hint_of p.error ≡ some (reconcile_with intent (codes "a")))
    × (e : Entry) × (find_entry intent.intent_id (unresolved_of p.journal.records) ≡ some e)
    × (e.stage ≡ send_started)
    × (e.order_id ≡ intent.order_id)
    × (e.payload ≡ intent.payload)
place_exec-in_doubt_example =
    place_exec-in_doubt (λ t. t) describe disk intent (codes "a") events expired empty refl refl
      refl refl

place_exec-write_ahead_example :
    let p = place_exec (λ t. t) describe disk intent (codes "a") events filled empty in
    (p.called
      ≡ (not (is_empty intent.intent_id) && is_stored disk.begun.io && is_stored disk.sent.io))
    × (p.called ≡ true → IsSentIn intent [] p.journal.records)
place_exec-write_ahead_example =
    place_exec-write_ahead (λ t. t) describe disk intent (codes "a") events filled empty

scoped :
    scoped_broker_command (codes "my profile") (codes "a-1") (codes "orders" ∷ [])
    ≡ codes "tinvest --profile 'my profile' --account a-1 orders"
unfolding scoped_broker_command shell_command_arg escape_quotes
scoped = refl

quoted : shell_command_arg (codes "a'b") ≡ codes "'a'\"'\"'b'"
unfolding shell_command_arg escape_quotes
quoted = refl

read_word-shell_command_arg_example :
    read_word outside (shell_command_arg (codes "my 'profile'")) ≡ some (codes "my 'profile'")
read_word-shell_command_arg_example = read_word-shell_command_arg (codes "my 'profile'")
