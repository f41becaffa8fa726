-- ===== src/Ledger/Aggregate.antt =====
-- The recovery scan (`Ledger.Unresolved`): per intent id, the stages of all its lines.
use tinvest.Prelude.{
  ℕ, suc, Bool, true, false, not, ◌&&◌, ◌||◌, List, [], ◌∷◌, Option, none, some, Text, text_eq,
  is_empty, leb, if◌then◌else◌,
}
use tinvest.Ledger.{
  Stage, intent_created, send_started, broker_confirmed, broker_rejected, reconciled, Record, Entry,
  entry_from_record,
}
use tinvest.Ledger.Codec.{Json}
use tinvest.Ledger.Lines.{Scan, Corruption, read_records, join}
use tinvest.Ledger.Repair.{repair_torn_tail}

-- `idAgg` under its id; `open_record` is `open` with `hasOpen`.
pub record IdAgg : Type 0 where
  pub id : Text
  pub opens : ℕ
  pub closes : ℕ
  pub last : Record
  pub open_record : Option Record

abbrev pub is_open_stage : Stage → Bool
is_open_stage intent_created = true
is_open_stage send_started = true
is_open_stage _ = false

abbrev pub is_created : Stage → Bool
is_created intent_created = true
is_created _ = false

abbrev pub is_close_stage : Stage → Bool
is_close_stage broker_confirmed = true
is_close_stage broker_rejected = true
is_close_stage reconciled = true
is_close_stage _ = false

abbrev pub bump : Bool → ℕ → ℕ
bump true n = suc n
bump false n = n

-- The body of the loop over the records, on the aggregate of the record's id.
unfoldable pub update_agg : Record → IdAgg → IdAgg
update_agg r a = record a {
  last = r;
  opens = bump (is_created r.stage) a.opens;
  closes = bump (is_close_stage r.stage) a.closes;
  open_record = if is_open_stage r.stage then some r else a.open_record;
}

unfoldable pub first_agg : Record → IdAgg
first_agg r =
    update_agg r (record { id = r.intent_id; opens = 0; closes = 0; last = r; open_record = none })

unfoldable pub upsert : Record → List IdAgg → List IdAgg
upsert r [] = first_agg r ∷ []
upsert r (a ∷ aggs) = if text_eq a.id r.intent_id then update_agg r a ∷ aggs else a ∷ upsert r aggs

unfoldable pub aggregate : List IdAgg → List Record → List IdAgg
aggregate aggs [] = aggs
aggregate aggs (r ∷ rs) = aggregate (upsert r aggs) rs

-- The last stage is unresolved, or more lifecycles were opened than closed.
unfoldable pub is_unresolved : IdAgg → Bool
is_unresolved a = is_open_stage a.last.stage || not (leb a.opens a.closes)

abbrev pub or_last : Option Record → Record → Record
or_last none r = r
or_last (some o) r = o

-- `rep`: the last open record, or else the last.
unfoldable pub representative : IdAgg → Record
representative a = or_last a.open_record a.last

unfoldable pub unresolved_entries : List IdAgg → List Entry
unresolved_entries [] = []
unresolved_entries (a ∷ aggs) =
    let rest = unresolved_entries aggs in
    if is_unresolved a then entry_from_record (representative a) ∷ rest else rest

-- sort.Slice by seq. The program leaves open how entries of one seq, or aggregates of a Go map, are
-- ordered; this is one order that it allows.
unfoldable pub insert_by_seq : Entry → List Entry → List Entry
insert_by_seq e [] = e ∷ []
insert_by_seq e (x ∷ xs) = if leb e.seq x.seq then e ∷ x ∷ xs else x ∷ insert_by_seq e xs

unfoldable pub sort_by_seq : List Entry → List Entry
sort_by_seq [] = []
sort_by_seq (e ∷ es) = insert_by_seq e (sort_by_seq es)

unfoldable pub unresolved_of : List Record → List Entry
unresolved_of rs = sort_by_seq (unresolved_entries (aggregate [] rs))

-- The files of all months in the order of their names, each repaired, then read.
unfoldable pub scan_files : Json → List Text → Scan
scan_files json [] = record { records = []; corruptions = [] }
scan_files json (f ∷ fs) = join (read_records json (repair_torn_tail f).file) (scan_files json fs)

-- `Unresolved`: the entries, and the corruptions of the RecoveryError beside them (none: no error).
pub record Recovery : Type 0 where
  pub entries : List Entry
  pub corruptions : List Corruption

unfoldable pub unresolved : Json → List Text → Recovery
unresolved json files =
    let s = scan_files json files in
    record { entries = unresolved_of s.records; corruptions = s.corruptions }

-- `AssignedStopOrderIDs`: the stop-order ids of successful mutations of a kind, with their account,
-- in journal order; none for the RecoveryError of a corrupt line.
abbrev pub is_success : Stage → Bool
is_success broker_confirmed = true
is_success reconciled = true
is_success _ = false

unfoldable pub is_assignment : Text → Record → Bool
is_assignment kind r =
    text_eq r.kind kind
    && not (is_empty r.account_id)
    && not (is_empty r.stop_order_id)
    && is_success r.stage

unfoldable pub assignments : Text → List Record → List (Text × Text)
assignments kind [] = []
assignments kind (r ∷ rs) =
    let rest = assignments kind rs in
    if is_assignment kind r then (r.account_id, r.stop_order_id) ∷ rest else rest

unfoldable pub assigned_stop_order_ids : Json → Text → List Text → Option (List (Text × Text))
assigned_stop_order_ids json kind files =
    let s = scan_files json files in
    elim s.corruptions [ [] ↦ some (assignments kind s.records) | _ ↦ none ]
