-- ===== src/Placement/Called.antt =====
-- When a placement calls the broker, and what the journal holds by then.
use mathlib.Core.List.{append_assoc}
use tinvest.Prelude.{
  Bool, true, false, not, ◌&&◌, ◌≡◌, refl, sym, ap, ◌∙◌, List, [], ◌∷◌, ◌++◌, Option, none, some,
  Text, is_empty, arith, if◌then◌else◌,
}
use tinvest.Phase.{RpcStats, new_call_info, observe}
use tinvest.Errors.{CallError}
use tinvest.Ledger.Appends.{is_stored, numbered, write_record-done}
use tinvest.Ledger.{
  Io, stored, refused, unwritten, unsynced, intent_created, send_started, Intent, Record, Entry,
  Journal, begin_entry, send_started_entry, new_entry, entry_record,
}
use tinvest.Placement.{Disk, Reply, Placed, settle, call_broker, send_intent, place_exec}
use tinvest.Placement.WriteAhead.{
  is_called, created_line, sent_line, after_begin, after_sent, sent_entry, place_exec-called,
}
use tinvest.Placement.Settled.{ClosesWith, settle-Settles}

module _ (sum : Text → Text) (describe : CallError → Text) (disk : Disk) (intent : Intent)
    (order_id : Text) (events : List RpcStats) (reply : Reply) (j : Journal) where
  abbrev placed : Placed
  placed = place_exec sum describe disk intent order_id events reply j

  call_broker-called :
      (r : Entry × Journal × Bool)
      → (call_broker describe disk intent order_id events reply r).called ≡ r.2
  call_broker-called (e, k, true) =
      (settle-Settles describe disk intent order_id e (observe new_call_info events) reply k).1
  call_broker-called (e, k, false) = refl

  send_intent-called :
      (r : Option Entry × Journal)
      → (send_intent describe disk intent order_id events reply r).called
        ≡ (elim r.0 [ none ↦ false | some e ↦ is_stored disk.sent.io ])
  unfolding send_started_entry
  send_intent-called (none, k) = refl
  send_intent-called (some e, k) =
      call_broker-called (send_started_entry disk.sent e k) ∙ write_record-done disk.sent e _ k

  placed-called : placed.called ≡ is_called sum disk intent j
  unfolding place_exec begin_entry new_entry
  placed-called =
      send_intent-called (begin_entry sum disk.begun intent j)
      ∙ ground (
        arith,
        write_record-done disk.begun (new_entry sum intent)
            (entry_record (new_entry sum intent) intent_created) j,
      )

is_stored-eq : (io : Io) → is_stored io ≡ true → io ≡ stored
is_stored-eq stored h = refl
is_stored-eq refused h = cc
is_stored-eq unwritten h = cc
is_stored-eq unsynced h = cc

-- The lines of a sent intent, and the rest behind them.
abbrev pub IsSentIn : Intent → List Record → List Record → Type 0
IsSentIn intent old records =
    (created : Record) × (sent : Record) × (rest : List Record) × (records
      ≡ old ++ created ∷ sent ∷ rest)
    × (created.stage ≡ intent_created)
    × (sent.stage ≡ send_started)
    × (created.intent_id ≡ intent.intent_id)
    × (sent.intent_id ≡ intent.intent_id)
    × (sent.order_id ≡ intent.order_id)
    × (sent.payload ≡ intent.payload)

after_call :
    (old : List Record) (c s r : Record) (keep : Bool)
    → (rest : List Record) × ((if keep
          then (old ++ c ∷ []) ++ s ∷ []
          else ((old ++ c ∷ []) ++ s ∷ []) ++ r ∷ [])
        ≡ old ++ c ∷ s ∷ rest)
after_call old c s r true = ([], append_assoc old (c ∷ []) (s ∷ []))
after_call old c s r false = (
  r ∷ [],
  append_assoc (old ++ c ∷ []) (s ∷ []) (r ∷ []) ∙ append_assoc old (c ∷ []) (s ∷ r ∷ []),
)

settled_lines :
    (disk : Disk) (intent : Intent) (c t : Record) (old : List Record) (k : Journal) (p : Placed)
    (keep : Bool)
    → k.records ≡ (old ++ c ∷ []) ++ t ∷ []
    → ClosesWith disk intent.intent_id k p.journal.records keep
    → (rest : List Record) × (p.journal.records ≡ old ++ c ∷ t ∷ rest)
settled_lines disk intent c t old k p keep e (r, own, close, records) =
    let (rest, shape) = after_call old c t r keep in
    (rest, records ∙ ap (λ rs. if keep then rs else rs ++ r ∷ []) e ∙ shape)

module _ (sum : Text → Text) (describe : CallError → Text) (disk : Disk) (intent : Intent)
    (order_id : Text) (events : List RpcStats) (reply : Reply) (j : Journal) where
  sent_lines :
      is_empty intent.intent_id ≡ false
      → is_stored disk.begun.io ≡ true
      → is_stored disk.sent.io ≡ true
      → IsSentIn intent j.records
          (place_exec sum describe disk intent order_id events reply j).journal.records
  unfolding entry_record new_entry
  sent_lines n b s =
      let c = numbered disk.begun j (created_line sum disk intent j) in
      let t = numbered disk.sent (after_begin sum disk intent j) (sent_line sum disk intent j) in
      let k = after_sent sum disk intent j in
      let e = sent_entry sum disk intent j in
      let p = settle describe disk intent order_id e (observe new_call_info events) reply k in
      let (rest, shape) =
        settled_lines disk intent c t j.records k p _ refl
          (settle-Settles describe disk intent order_id e (observe new_call_info events) reply
            k).0 in
      (
        c,
        t,
        rest,
        ap (λ q. q.journal.records)
              (place_exec-called sum disk intent j describe order_id events reply n
                (is_stored-eq disk.begun.io b) (is_stored-eq disk.sent.io s))
            ∙ shape,
        refl,
        refl,
        refl,
        refl,
        refl,
        refl,
      )

-- The broker is called exactly when the intent has an id and both lines before the call are stored.
-- Whenever it was called, the journal holds everything it held before, then the intent's created
-- line and its send-started line with the order id and the payload, then what came after.
pub place_exec-write_ahead :
    (sum : Text → Text) (describe : CallError → Text) (disk : Disk) (intent : Intent)
    (order_id : Text) (events : List RpcStats) (reply : Reply) (j : Journal)
    → let p = place_exec sum describe disk intent order_id events reply j in
      (p.called
        ≡ (not (is_empty intent.intent_id) && is_stored disk.begun.io && is_stored disk.sent.io))
      × (p.called ≡ true → IsSentIn intent j.records p.journal.records)
place_exec-write_ahead sum describe disk intent order_id events reply j =
    (condition, λ h. lines (sym condition ∙ h))
  where
    condition :
        (place_exec sum describe disk intent order_id events reply j).called
        ≡ (not (is_empty intent.intent_id) && is_stored disk.begun.io && is_stored disk.sent.io)
    condition = placed-called sum describe disk intent order_id events reply j

    lines :
        (not (is_empty intent.intent_id) && is_stored disk.begun.io && is_stored disk.sent.io)
          ≡ true
        → IsSentIn intent j.records
            (place_exec sum describe disk intent order_id events reply j).journal.records
    lines h =
        sent_lines sum describe disk intent order_id events reply j (ground arith) (ground arith)
          (ground arith)
