-- ===== src/Placement/WriteAhead.antt =====
-- The journal that a placement leaves: what is in it before the broker is called.
use tinvest.Prelude.{Bool, true, false, not, ◌&&◌, ◌≡◌, refl, ap, ◌∙◌, List, some, Text, is_empty}
use tinvest.Phase.{RpcStats, new_call_info, observe}
use tinvest.Errors.{CallError}
use tinvest.Ledger.Appends.{is_stored, with_line}
use tinvest.Ledger.{
  stored, intent_created, send_started, Intent, Record, Entry, Env, Journal, append_line,
  entry_record, write_record, send_started_entry, new_entry, begin_entry,
}
use tinvest.Placement.{Disk, Reply, settle, call_broker, send_intent, place_exec}

module _ (sum : Text → Text) (disk : Disk) (intent : Intent) (j : Journal) where
  -- The entry and the two lines that come before the call.
  abbrev pub opened_entry : Entry
  unfolding new_entry
  opened_entry = new_entry sum intent

  abbrev pub created_line : Record
  created_line = entry_record opened_entry intent_created

  abbrev pub after_begin : Journal
  after_begin = with_line disk.begun j created_line

  abbrev pub sent_line : Record
  sent_line = entry_record opened_entry send_started

  abbrev pub after_sent : Journal
  after_sent = with_line disk.sent after_begin sent_line

  abbrev pub sent_entry : Entry
  sent_entry = record opened_entry { stage = send_started }

  -- The conditions under which the broker is called.
  abbrev pub is_called : Bool
  is_called = not (is_empty intent.intent_id) && is_stored disk.begun.io && is_stored disk.sent.io

  append_line-stored :
      (env : Env) (k : Journal) (r : Record)
      → env.io ≡ stored
      → append_line env r k ≡ (with_line env k r, true)
  unfolding append_line
  append_line-stored env k r h = rw h refl

  begin_entry-stored :
      is_empty intent.intent_id ≡ false
      → disk.begun.io ≡ stored
      → begin_entry sum disk.begun intent j ≡ (some opened_entry, after_begin)
  unfolding write_record begin_entry opened_entry entry_record
  begin_entry-stored n b = rw (n, append_line-stored disk.begun j created_line b) refl

  send_started-stored :
      disk.sent.io ≡ stored
      → send_started_entry disk.sent opened_entry after_begin ≡ (sent_entry, after_sent, true)
  unfolding write_record send_started_entry opened_entry entry_record
  send_started-stored s = rw (append_line-stored disk.sent after_begin sent_line s) refl

  pub place_exec-called :
      (describe : CallError → Text) (order_id : Text) (events : List RpcStats) (reply : Reply)
      → is_empty intent.intent_id ≡ false
      → disk.begun.io ≡ stored
      → disk.sent.io ≡ stored
      → place_exec sum describe disk intent order_id events reply j
        ≡ settle describe disk intent order_id sent_entry
            (observe new_call_info events)
            reply
            after_sent
  unfolding place_exec
  place_exec-called describe order_id events reply n b s =
      ap (send_intent describe disk intent order_id events reply) (begin_entry-stored n b)
      ∙ ap (call_broker describe disk intent order_id events reply) (send_started-stored s)
