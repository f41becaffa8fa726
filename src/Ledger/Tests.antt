-- ===== src/Ledger/Tests.antt =====
-- Runs of the ledger's parts, and its theorems at concrete inputs.
use tinvest.Prelude.{
  ◌≡◌, refl, List, [], ◌∷◌, ◌++◌, Option, none, some, inr, Text, codes, length, take, suc, ◌<◌,
  leb→le, arith, leb, if◌then◌else◌,
}
use tinvest.Prelude.Int.{pos}
use tinvest.Ledger.{intent_created, send_started, broker_confirmed, Record, entry_from_record}
use tinvest.Ledger.Codec.{IsLossless, marshal_record}
use tinvest.Ledger.Lines.{newline, read_records}
use tinvest.Ledger.Repair.{IsClean, window, repair_torn_tail}
use tinvest.Ledger.CrashSafety.{with_record}
use tinvest.Ledger.Recovery.{crash_recovery}
use tinvest.Ledger.UnaryCodec.{unary, unary-IsJson}
use tinvest.Ledger.Aggregate.{unresolved_of}
use tinvest.Ledger.Dangling.{find_entry}
use tinvest.Ledger.Reports.{find_entry-unresolved_of}

abbrev sent : Record
sent = record {
  seq = 2;
  ts = codes "2026-01-01T00:00:00Z";
  stage = send_started;
  intent_id = codes "a";
  kind = codes "order.place";
  account_id = codes "acc";
  profile = [];
  attempt = pos 1;
  payload_hash = [];
  payload = codes "{}";
  order_id = codes "a";
  stop_order_id = [];
  exchange_order_id = [];
  tracking_id = [];
  error = [];
  exit_code = none;
}

sent-IsLossless : IsLossless unary sent
sent-IsLossless = record {
  seq_fits = omega arith;
  attempt_fits = omega arith;
  exit_code_fits = tt;
  own_stage = tt;
  raw_payload = λ given. refl;
  ts_utf8 = refl;
  intent_id_utf8 = refl;
  kind_utf8 = refl;
  account_id_utf8 = refl;
  profile_utf8 = refl;
  payload_hash_utf8 = refl;
  order_id_utf8 = refl;
  stop_order_id_utf8 = refl;
  exchange_order_id_utf8 = refl;
  tracking_id_utf8 = refl;
  error_utf8 = refl;
}

-- Its line.
abbrev text_of : Option Text → Text
text_of none = []
text_of (some t) = t

line : Text
line = text_of (marshal_record unary sent)

sent-line : marshal_record unary sent ≡ some line
unfolding marshal_record line
sent-line = refl

line-short : length line < window
unfolding marshal_record line
line-short = leb→le (suc (length line)) window refl

-- A crash before the newline, on a journal that holds one line already.
crash_recovery_example :
    let f = line ++ newline ∷ [] in
    let left = (repair_torn_tail (f ++ take 700 (line ++ newline ∷ []))).file in
    IsClean left
    × (read_records unary left ≡ (
        if leb 700 (length line)
        then read_records unary f
        else with_record sent (read_records unary f)))
crash_recovery_example =
    crash_recovery unary unary-IsJson sent line (line ++ newline ∷ []) 700 sent-IsLossless sent-line
      (inr (line, refl)) line-short

-- An earlier lifecycle of the same id left open, behind a confirmed one.
abbrev journal : List Record
journal =
    record sent { stage = intent_created; seq = 1 }
    ∷ sent
    ∷ record sent { stage = intent_created; seq = 3; order_id = codes "b" }
    ∷ record sent { stage = broker_confirmed; seq = 4; order_id = codes "b" }
    ∷ []

find_entry-unresolved_of_example :
    find_entry (codes "a") (unresolved_of journal)
    ≡ some
        (entry_from_record (record sent { stage = intent_created; seq = 3; order_id = codes "b" }))
find_entry-unresolved_of_example = find_entry-unresolved_of (codes "a") journal
