-- ===== src/Placement/Safety.antt =====
-- What the recovery scan finds of an order behind a placement, whatever the broker did.
use mathlib.Core.Option
use tinvest.Prelude.{
  Bool, true, false, not, ◌||◌, ◌≡◌, refl, sym, ap, ◌∙◌, List, [], ◌∷◌, ◌++◌, Option, none, some,
  Text, is_empty, text_eq_refl, Bool-cases, inl, inr, arith, if◌then◌else◌,
}
use tinvest.Phase.{RpcStats, new_call_info, observe}
use tinvest.Errors.{CallError}
use tinvest.Ledger.{
  Stage, stored, intent_created, send_started, broker_confirmed, broker_rejected, reconciled,
  other_stage, Intent, Record, Entry, Journal, entry_from_record, new_entry, entry_record,
}
use tinvest.Ledger.Aggregate.{unresolved_of, is_open_stage, is_created, is_close_stage}
use tinvest.Ledger.Dangling.{of_id, any_stage, is_dangling, reported, find_entry}
use tinvest.Ledger.OwnLines.{of_id-append, last_of-append}
use tinvest.Ledger.Reports.{find_entry-unresolved_of}
use tinvest.Placement.{Disk, Reply, Placed, settle, place_exec}
use tinvest.Placement.WriteAhead.{
  created_line, sent_line, after_begin, after_sent, sent_entry, place_exec-called,
}
use tinvest.Ledger.Appends.{lands, numbered}
use tinvest.Placement.Settled.{is_unconfirmed_error, ClosesWith, settle-Settles}

-- Lines of an id that end in an unresolved one: the scan reports that one.
found-open :
    (id : Text) (xs ys : List Record) (r : Record)
    → of_id id ys ≡ r ∷ []
    → is_open_stage r.stage ≡ true
    → find_entry id (unresolved_of (xs ++ ys)) ≡ some (entry_from_record r)
found-open id xs ys r own o =
    find_entry-unresolved_of id (xs ++ ys)
    ∙ ap report (of_id-append id xs ys ∙ ap (λ t. of_id id xs ++ t) own)
    ∙ ground (
      arith,
      last_of-append any_stage none (of_id id xs) (r ∷ []),
      last_of-append is_open_stage none (of_id id xs) (r ∷ []),
    )
  where
    report : List Record → Option Entry
    report rs = if is_dangling rs then Option.map entry_from_record (reported rs) else none

close_stage-not_open :
    (s : Stage) → is_close_stage s ≡ true → (is_open_stage s ≡ false) × (is_created s ≡ false)
close_stage-not_open intent_created h = cc
close_stage-not_open send_started h = cc
close_stage-not_open broker_confirmed h = (refl, refl)
close_stage-not_open broker_rejected h = (refl, refl)
close_stage-not_open reconciled h = (refl, refl)
close_stage-not_open (other_stage t) h = cc

-- A first lifecycle that is opened once, sent and closed: the scan reports nothing.
found-closed :
    (xs : List Record) (c s r : Record)
    → of_id c.intent_id xs ≡ []
    → s.intent_id ≡ c.intent_id
    → r.intent_id ≡ c.intent_id
    → c.stage ≡ intent_created
    → s.stage ≡ send_started
    → is_close_stage r.stage ≡ true
    → find_entry c.intent_id (unresolved_of (((xs ++ c ∷ []) ++ s ∷ []) ++ r ∷ [])) ≡ none
found-closed xs c s r fresh hs hr ec es er =
    find_entry-unresolved_of c.intent_id (((xs ++ c ∷ []) ++ s ∷ []) ++ r ∷ [])
    ∙ ap report own
    ∙ ground (arith, close_stage-not_open r.stage er)
  where
    report : List Record → Option Entry
    report rs = if is_dangling rs then Option.map entry_from_record (reported rs) else none

    own : of_id c.intent_id (((xs ++ c ∷ []) ++ s ∷ []) ++ r ∷ []) ≡ c ∷ s ∷ r ∷ []
    own = ground (
      arith,
      of_id-append c.intent_id ((xs ++ c ∷ []) ++ s ∷ []) (r ∷ []),
      of_id-append c.intent_id (xs ++ c ∷ []) (s ∷ []),
      of_id-append c.intent_id xs (c ∷ []),
      text_eq_refl c.intent_id,
    )

module _ (sum : Text → Text) (describe : CallError → Text) (disk : Disk) (intent : Intent)
    (order_id : Text) (events : List RpcStats) (reply : Reply) (j : Journal) where
  abbrev pub placed : Placed
  placed = place_exec sum describe disk intent order_id events reply j

  -- The line that the scan reports of an intent that was sent.
  unfoldable pub sent_record : Record
  unfolding entry_record new_entry
  sent_record = numbered disk.sent (after_begin sum disk intent j) (sent_line sum disk intent j)

  abbrev created_record : Record
  unfolding entry_record new_entry
  created_record = numbered disk.begun j (created_line sum disk intent j)

  module _ (named : is_empty intent.intent_id ≡ false) (begun : disk.begun.io ≡ stored)
      (sent : disk.sent.io ≡ stored) where
    settled-eq :
        placed
        ≡ settle describe disk intent order_id
            (sent_entry sum disk intent j)
            (observe new_call_info events)
            reply
            (after_sent sum disk intent j)
    settled-eq = place_exec-called sum disk intent j describe order_id events reply named begun sent

    line :
        ClosesWith disk intent.intent_id
          (after_sent sum disk intent j)
          placed.journal.records
          (is_unconfirmed_error placed.error || not (lands disk.closed.io))
    unfolding new_entry
    line =
        rw (settled-eq)
          (settle-Settles describe disk intent order_id (sent_entry sum disk intent j)
            (observe new_call_info events) reply (after_sent sum disk intent j)).0

    pub still_open :
        (is_unconfirmed_error placed.error || not (lands disk.closed.io)) ≡ true
        → find_entry intent.intent_id (unresolved_of placed.journal.records)
          ≡ some (entry_from_record sent_record)
    unfolding sent_record
    still_open h =
        ap (λ rs. find_entry intent.intent_id (unresolved_of rs)) (line.3 ∙ rw h refl)
        ∙ found-open intent.intent_id (after_begin sum disk intent j).records (sent_record ∷ [])
            sent_record (rw (text_eq_refl intent.intent_id) refl) refl

    closed_again :
        of_id intent.intent_id j.records ≡ []
        → (is_unconfirmed_error placed.error || not (lands disk.closed.io)) ≡ false
        → find_entry intent.intent_id (unresolved_of placed.journal.records) ≡ none
    unfolding sent_record created_record
    closed_again fresh h =
        ap (λ rs. find_entry intent.intent_id (unresolved_of rs)) (line.3 ∙ rw h refl)
        ∙ found-closed j.records created_record sent_record line.0 fresh refl line.1 refl refl
            line.2

abbrev pub is_found : Option Entry → Bool
is_found none = false
is_found (some e) = true

-- A placement whose intent has an id that the journal has not seen, and whose two lines before the
-- call are stored, whatever the transport observes, the broker replies and the last append does:
-- the recovery scan afterwards reports the intent exactly when the command's outcome is unconfirmed
-- or the closing line was lost.
pub find_entry-place_exec :
    (sum : Text → Text) (describe : CallError → Text) (disk : Disk) (intent : Intent)
    (order_id : Text) (events : List RpcStats) (reply : Reply) (j : Journal)
    → is_empty intent.intent_id ≡ false
    → of_id intent.intent_id j.records ≡ []
    → disk.begun.io ≡ stored
    → disk.sent.io ≡ stored
    → let p = place_exec sum describe disk intent order_id events reply j in
      is_found (find_entry intent.intent_id (unresolved_of p.journal.records))
      ≡ (is_unconfirmed_error p.error || not (lands disk.closed.io))
find_entry-place_exec sum describe disk intent order_id events reply j named fresh begun sent =
    elim (Bool-cases (is_unconfirmed_error p.error || not (lands disk.closed.io))) [
      | inl pending ↦
          ap is_found
            (still_open sum describe disk intent order_id events reply j named begun sent pending)
          ∙ sym pending
      | inr done ↦
          ap is_found (
            closed_again sum describe disk intent order_id events reply j named begun sent fresh
              done)
          ∙ sym done
    ]
  where
    p : Placed
    p = place_exec sum describe disk intent order_id events reply j
