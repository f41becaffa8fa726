-- ===== src/Ledger.antt =====
-- internal/ledger/ledger.go: the write-ahead intent ledger. This file has its data and the life of
-- an entry over the committed records; Codec, Lines and Repair have the bytes of a journal file,
-- and Aggregate has the recovery scan.
pub mod Appends
pub mod Codec
pub mod Lines
pub mod Repair
pub mod CrashSafety
pub mod Recovery
pub mod Aggregate
pub mod Dangling
pub mod OwnLines
pub mod Reports
mod UnaryCodec
mod Tests
use tinvest.Prelude.{
  ℕ, suc, ◌+◌, Bool, true, false, not, List, [], ◌∷◌, ◌++◌, Option, none, some, Text, is_empty,
  text_eq, ltb, if◌then◌else◌,
}
use tinvest.Prelude.Int.{ℤ}

-- The stage of a line; `other_stage` is a text that is none of the five.
pub data Stage : Type 0 where
  intent_created send_started broker_confirmed broker_rejected reconciled : Stage
  other_stage : Text → Stage

pub record Intent : Type 0 where
  pub intent_id : Text
  pub kind : Text
  pub account_id : Text
  pub profile : Text
  pub attempt : ℤ
  pub order_id : Text
  pub stop_order_id : Text
  pub payload : Text

-- The ledger's `Result`.
pub record Outcome : Type 0 where
  pub order_id : Text
  pub stop_order_id : Text
  pub exchange_order_id : Text
  pub tracking_id : Text
  pub exit_code : Option ℤ
  pub error : Text

-- One line, but for its checksum.
pub record Record : Type 0 where
  pub seq : ℕ
  pub ts : Text
  pub stage : Stage
  pub intent_id : Text
  pub kind : Text
  pub account_id : Text
  pub profile : Text
  pub attempt : ℤ
  pub payload_hash : Text
  pub payload : Text
  pub order_id : Text
  pub stop_order_id : Text
  pub exchange_order_id : Text
  pub tracking_id : Text
  pub error : Text
  pub exit_code : Option ℤ

pub record Entry : Type 0 where
  pub intent : Intent
  pub payload_hash : Text
  pub payload : Text
  pub order_id : Text
  pub stop_order_id : Text
  pub exchange_order_id : Text
  pub tracking_id : Text
  pub stage : Stage
  pub seq : ℕ

-- What the operating system makes of one append: the line is stored and synced; the append fails
-- before its write (the month's file, the marshalling or the lock); the write fails and leaves no
-- byte; or the line is written and fsync fails. A line that is written can be read, so its texts are
-- valid UTF-8. A handle that goes on behind a write that left a part of a line is not here: a line
-- cut off by a crash is in Recovery, on the bytes of the file.
pub data Io : Type 0 where
  stored refused unwritten unsynced : Io

-- One append's surroundings: its time stamp, and the highest sequence number in the file of a new
-- month, if the month has changed since the last append.
pub record Env : Type 0 where
  pub io : Io
  pub now : Text
  pub opened : Option ℕ

-- The handle's sequence number and the records that a reader of the journal finds, oldest first.
pub record Journal : Type 0 where
  pub seq : ℕ
  pub records : List Record

-- The sequence number behind `openMonth`.
abbrev pub seq_after : Option ℕ → ℕ → ℕ
seq_after none seq = seq
seq_after (some top) seq = if ltb seq top then top else seq

-- `append`: a failed write or fsync keeps the new sequence number, an earlier failure gives it back.
-- The months are taken to advance, so the new record is the journal's last, and the sequence numbers
-- to stay below 2^63.
unfoldable pub append_line : Env → Record → Journal → Journal × Bool
append_line env r j =
    let seq = seq_after env.opened j.seq in
    let records = j.records ++ (record r { seq = suc seq; ts = env.now }) ∷ [] in
    elim env.io [
      | stored ↦ (record { seq = suc seq; records = records }, true)
      | refused ↦ (record { seq = seq; records = j.records }, false)
      | unwritten ↦ (record { seq = suc seq; records = j.records }, false)
      | unsynced ↦ (record { seq = suc seq; records = records }, false)
    ]

-- The record that `Entry.write` builds, before `append` numbers it.
unfoldable pub entry_record : Entry → Stage → Record
entry_record e stage = record {
  seq = 0;
  ts = [];
  stage = stage;
  intent_id = e.intent.intent_id;
  kind = e.intent.kind;
  account_id = e.intent.account_id;
  profile = e.intent.profile;
  attempt = e.intent.attempt;
  payload_hash = e.payload_hash;
  payload = e.payload;
  order_id = e.order_id;
  stop_order_id = e.stop_order_id;
  exchange_order_id = e.exchange_order_id;
  tracking_id = e.tracking_id;
  error = [];
  exit_code = none;
}

-- `Entry.write`, with the entry after it and whether it succeeded. The entry's stage follows the
-- journal only on success.
unfoldable pub write_record : Env → Entry → Record → Journal → Entry × Journal × Bool
write_record env e r j =
    let (j', done) = append_line env r j in
    (if done then record e { stage = r.stage } else e, j', done)

unfoldable pub send_started_entry : Env → Entry → Journal → Entry × Journal × Bool
send_started_entry env e = write_record env e (entry_record e send_started)

abbrev keep_or : Text → Text → Text
keep_or new old = if is_empty new then old else new

-- `Entry.apply`
unfoldable pub apply_outcome : Outcome → Entry → Entry
apply_outcome res e = record e {
  order_id = keep_or res.order_id e.order_id;
  stop_order_id = keep_or res.stop_order_id e.stop_order_id;
  exchange_order_id = keep_or res.exchange_order_id e.exchange_order_id;
  tracking_id = keep_or res.tracking_id e.tracking_id;
}

-- `Entry.Confirmed`
unfoldable pub confirm_entry : Env → Outcome → Entry → Journal → Entry × Journal × Bool
confirm_entry env res e j =
    let e' = apply_outcome res e in
    write_record env e' (record (entry_record e' broker_confirmed) { exit_code = res.exit_code }) j

-- `Entry.Rejected`, on the cause's text ("" for a nil cause).
unfoldable pub reject_entry : Env → Text → Entry → Journal → Entry × Journal × Bool
reject_entry env cause e =
    write_record env e (record (entry_record e broker_rejected) { error = cause })

-- `Entry.Reconciled`
unfoldable pub reconcile_entry : Env → Outcome → Entry → Journal → Entry × Journal × Bool
reconcile_entry env res e j =
    let e' = apply_outcome res e in
    write_record env e'
      (record (entry_record e' reconciled) { exit_code = res.exit_code; error = res.error }) j

-- The handle that `Begin` makes. `sum` is the hex SHA-256 of the payload.
unfoldable pub new_entry : (Text → Text) → Intent → Entry
new_entry sum intent = record {
  intent = intent;
  payload_hash = sum intent.payload;
  payload = intent.payload;
  order_id = intent.order_id;
  stop_order_id = intent.stop_order_id;
  exchange_order_id = [];
  tracking_id = [];
  stage = intent_created;
  seq = 0;
}

-- `Begin`: no handle if the intent has no id or its line was not stored. The payload is marshalled
-- already, so the branch of a payload that cannot be is not here.
unfoldable pub begin_entry : (Text → Text) → Env → Intent → Journal → Option Entry × Journal
begin_entry sum env intent j =
    if is_empty intent.intent_id
    then (none, j)
    else (let e = new_entry sum intent in
        let (e', j', done) = write_record env e (entry_record e intent_created) j in
        (if done then some e' else none, j'))

-- `entryFromRecord`
unfoldable pub entry_from_record : Record → Entry
entry_from_record r = record {
  intent = record {
    intent_id = r.intent_id;
    kind = r.kind;
    account_id = r.account_id;
    profile = r.profile;
    attempt = r.attempt;
    order_id = r.order_id;
    stop_order_id = r.stop_order_id;
    payload = [];
  };
  payload_hash = r.payload_hash;
  payload = r.payload;
  order_id = r.order_id;
  stop_order_id = r.stop_order_id;
  exchange_order_id = r.exchange_order_id;
  tracking_id = r.tracking_id;
  stage = r.stage;
  seq = r.seq;
}
