-- ===== src/Ledger/Reports.antt =====
-- The recovery scan against the lines of one intent id.
use mathlib.Core.Option
use tinvest.Prelude.{
  ◌≡◌, refl, ap, ◌∙◌, true, false, List, [], ◌∷◌, Option, none, some, Bool-cases, inl, inr, Text,
  text_eq, text_eq_sound, text_eq_refl, arith, if◌then◌else◌,
}
use tinvest.Ledger.{Record, Entry, entry_from_record}
use tinvest.Ledger.Aggregate.{
  IdAgg, update_agg, first_agg, upsert, aggregate, is_unresolved, representative,
  unresolved_entries, insert_by_seq, sort_by_seq, unresolved_of,
}
use tinvest.Ledger.Dangling.{
  of_id, is_dangling, find_entry, find_agg, find_agg-upsert, find_agg-aggregate, own_agg,
  is_unresolved-absorb, representative-absorb, reported, update_agg-id,
}

-- An aggregate holds lines of its own id alone.
abbrev IsOwned : IdAgg → Type 0
IsOwned a = (a.last.intent_id ≡ a.id) × ((representative a).intent_id ≡ a.id)

update_agg-IsOwned :
    (r : Record) (a : IdAgg)
    → text_eq a.id r.intent_id ≡ true
    → IsOwned a
    → IsOwned (update_agg r a)
unfolding update_agg representative
update_agg-IsOwned r a e h = ground (arith, text_eq_sound a.id r.intent_id e)

first_agg-IsOwned : (r : Record) → IsOwned (first_agg r)
unfolding first_agg update_agg representative
first_agg-IsOwned r = ground arith

-- Every aggregate is owned, and no two share an id.
abbrev AreAggs : List IdAgg → Type 0
AreAggs [] = Unit
AreAggs (a ∷ aggs) = IsOwned a × (find_agg a.id aggs ≡ none) × AreAggs aggs

find_agg-upsert_ne :
    (a : IdAgg) (r : Record) (aggs : List IdAgg)
    → text_eq a.id r.intent_id ≡ false
    → find_agg a.id aggs ≡ none
    → find_agg a.id (upsert r aggs) ≡ none
find_agg-upsert_ne a r aggs ne h =
    ground (arith, find_agg-upsert a.id r aggs, text_eq_sound r.intent_id a.id, text_eq_refl a.id)

upsert-AreAggs : (r : Record) (aggs : List IdAgg) → AreAggs aggs → AreAggs (upsert r aggs)
unfolding upsert
upsert-AreAggs r [] h = (first_agg-IsOwned r, refl, tt)
upsert-AreAggs r (a ∷ aggs) h = elim (Bool-cases (text_eq a.id r.intent_id)) [
  | inl own ↦ rw own (update_agg-IsOwned r a own h.0, rw (update_agg-id r a) h.1, h.2)
  | inr other ↦ rw other (h.0, find_agg-upsert_ne a r aggs other h.1, upsert-AreAggs r aggs h.2)
]

aggregate-AreAggs :
    (aggs : List IdAgg) (rs : List Record) → AreAggs aggs → AreAggs (aggregate aggs rs)
unfolding aggregate
aggregate-AreAggs aggs [] h = h
aggregate-AreAggs aggs (r ∷ rs) h = aggregate-AreAggs (upsert r aggs) rs (upsert-AreAggs r aggs h)

abbrev entry_of : Option IdAgg → Option Entry
entry_of none = none
entry_of (some a) = if is_unresolved a then some (entry_from_record (representative a)) else none

entry_from_record-id : (r : Record) → (entry_from_record r).intent.intent_id ≡ r.intent_id
unfolding entry_from_record
entry_from_record-id r = refl

find_entry-unresolved_entries :
    (id : Text) (aggs : List IdAgg)
    → AreAggs aggs
    → find_entry id (unresolved_entries aggs) ≡ entry_of (find_agg id aggs)
unfolding unresolved_entries
find_entry-unresolved_entries id [] h = refl
find_entry-unresolved_entries id (a ∷ aggs) h = ground (
  arith,
  find_entry-unresolved_entries id aggs h.2,
  entry_from_record-id (representative a),
  h.0,
  h.1,
  text_eq_sound a.id id,
)

-- No two entries share an intent id.
abbrev AreDistinct : List Entry → Type 0
AreDistinct [] = Unit
AreDistinct (e ∷ es) = (find_entry e.intent.intent_id es ≡ none) × AreDistinct es

unresolved_entries-AreDistinct :
    (aggs : List IdAgg) → AreAggs aggs → AreDistinct (unresolved_entries aggs)
unfolding unresolved_entries
unresolved_entries-AreDistinct [] h = tt
unresolved_entries-AreDistinct (a ∷ aggs) h = elim (Bool-cases (is_unresolved a)) [
  | inl pending ↦ rw pending (
    rw (entry_from_record-id (representative a), h.0.1)
        (find_entry-unresolved_entries a.id aggs h.2 ∙ ap entry_of h.1),
    unresolved_entries-AreDistinct aggs h.2,
  )
  | inr closed ↦ rw closed (unresolved_entries-AreDistinct aggs h.2)
]

find_entry-insert_by_seq :
    (id : Text) (e : Entry) (es : List Entry)
    → find_entry e.intent.intent_id es ≡ none
    → find_entry id (insert_by_seq e es) ≡ find_entry id (e ∷ es)
unfolding insert_by_seq
find_entry-insert_by_seq id e [] h = refl
find_entry-insert_by_seq id e (x ∷ es) h = ground (
  arith,
  find_entry-insert_by_seq id e es,
  text_eq_sound x.intent.intent_id id,
  text_eq_sound e.intent.intent_id id,
  text_eq_refl id,
)

find_entry-sort_by_seq :
    (id : Text) (es : List Entry)
    → AreDistinct es
    → find_entry id (sort_by_seq es) ≡ find_entry id es
unfolding sort_by_seq
find_entry-sort_by_seq id [] h = refl
find_entry-sort_by_seq id (e ∷ es) h =
    find_entry-insert_by_seq id e (sort_by_seq es)
      (find_entry-sort_by_seq e.intent.intent_id es h.1 ∙ h.0)
    ∙ ground (arith, find_entry-sort_by_seq id es h.1)

entry_of-own_agg :
    (rs : List Record)
    → entry_of (own_agg none rs)
      ≡ (if is_dangling rs then Option.map entry_from_record (reported rs) else none)
entry_of-own_agg [] = refl
entry_of-own_agg (r ∷ rs) = ground (arith, is_unresolved-absorb r rs, representative-absorb r rs)

-- The scan returns an entry for an intent id exactly when that id's own lines, in journal order,
-- end in an unresolved stage or open more lifecycles than they close; the entry then carries the
-- id's last unresolved line, or its last line if it has none.
pub find_entry-unresolved_of :
    (id : Text) (rs : List Record)
    → find_entry id (unresolved_of rs) ≡ (
        if is_dangling (of_id id rs)
        then Option.map entry_from_record (reported (of_id id rs))
        else none)
unfolding unresolved_of
find_entry-unresolved_of id rs =
    find_entry-sort_by_seq id (unresolved_entries (aggregate [] rs))
      (unresolved_entries-AreDistinct (aggregate [] rs) (aggregate-AreAggs [] rs tt))
    ∙ find_entry-unresolved_entries id (aggregate [] rs) (aggregate-AreAggs [] rs tt)
    ∙ ap entry_of (find_agg-aggregate id [] rs)
    ∙ entry_of-own_agg (of_id id rs)
