-- ===== src/Ledger/Dangling.antt =====
-- What the recovery scan reports of one intent id, against that id's own lines.
use tinvest.Prelude.{
  ℕ, ◌+◌, ◌≡◌, inl, inr, refl, sym, ap, ◌∙◌, Bool, true, false, ◌||◌, List, [], ◌∷◌, Option, none,
  some, Bool-cases, Text, text_eq, text_eq_sound, arith, ltb, if◌then◌else◌,
}
use tinvest.Ledger.{Stage, Record, Entry}
use tinvest.Ledger.Aggregate.{
  IdAgg, is_open_stage, is_created, is_close_stage, bump, update_agg, first_agg, upsert, aggregate,
  is_unresolved, representative,
}

-- The lines of one intent.
abbrev pub of_id : Text → List Record → List Record
of_id id [] = []
of_id id (r ∷ rs) = let rest = of_id id rs in if text_eq r.intent_id id then r ∷ rest else rest

abbrev pub count_stage : (Stage → Bool) → List Record → ℕ
count_stage p [] = 0
count_stage p (r ∷ rs) = bump (p r.stage) (count_stage p rs)

-- The last line of a kind, or what stood before.
abbrev pub last_of : (Stage → Bool) → Option Record → List Record → Option Record
last_of p before [] = before
last_of p before (r ∷ rs) = last_of p (if p r.stage then some r else before) rs

abbrev pub any_stage : Stage → Bool
any_stage s = true

-- An intent may have reached the broker: its last line is of an unresolved stage, or more lines opened
-- a lifecycle of it than closed one.
abbrev pub ends_open : Option Record → Bool
ends_open none = false
ends_open (some r) = is_open_stage r.stage

abbrev pub is_dangling : List Record → Bool
is_dangling rs =
    ends_open (last_of any_stage none rs)
    || ltb (count_stage is_close_stage rs) (count_stage is_created rs)

abbrev pub find_entry : Text → List Entry → Option Entry
find_entry id [] = none
find_entry id (e ∷ es) = if text_eq e.intent.intent_id id then some e else find_entry id es

abbrev pub find_agg : Text → List IdAgg → Option IdAgg
find_agg id [] = none
find_agg id (a ∷ aggs) = if text_eq a.id id then some a else find_agg id aggs

text_eq-of : (a b c : Text) → text_eq a b ≡ true → text_eq a c ≡ text_eq b c
text_eq-of a b c h = ap (λ t. text_eq t c) (text_eq_sound a b h)

abbrev pub add_record : Record → Option IdAgg → IdAgg
add_record r none = first_agg r
add_record r (some a) = update_agg r a

pub update_agg-id : (r : Record) (a : IdAgg) → (update_agg r a).id ≡ a.id
unfolding update_agg
update_agg-id r a = refl

pub first_agg-id : (r : Record) → (first_agg r).id ≡ r.intent_id
unfolding first_agg update_agg
first_agg-id r = refl

pub find_agg-upsert :
    (id : Text) (r : Record) (aggs : List IdAgg)
    → find_agg id (upsert r aggs) ≡ (
        if text_eq r.intent_id id then some (add_record r (find_agg id aggs)) else find_agg id aggs)
unfolding upsert
find_agg-upsert id r [] = rw (first_agg-id r) refl
find_agg-upsert id r (a ∷ aggs) = ground (
  arith,
  find_agg-upsert id r aggs,
  update_agg-id r a,
  text_eq-of a.id r.intent_id id,
  text_eq_sound r.intent_id id,
)

-- The aggregate of one id, from its own lines.
abbrev pub absorb : IdAgg → List Record → IdAgg
absorb a [] = a
absorb a (r ∷ rs) = absorb (update_agg r a) rs

abbrev pub own_agg : Option IdAgg → List Record → Option IdAgg
own_agg (some a) rs = some (absorb a rs)
own_agg none [] = none
own_agg none (r ∷ rs) = some (absorb (first_agg r) rs)

own_agg-cons :
    (o : Option IdAgg) (r : Record) (rs : List Record)
    → own_agg o (r ∷ rs) ≡ own_agg (some (add_record r o)) rs
own_agg-cons none r rs = refl
own_agg-cons (some a) r rs = refl

pub find_agg-aggregate :
    (id : Text) (aggs : List IdAgg) (rs : List Record)
    → find_agg id (aggregate aggs rs) ≡ own_agg (find_agg id aggs) (of_id id rs)
unfolding aggregate
find_agg-aggregate id aggs [] = own_agg-nil (find_agg id aggs)
  where
    own_agg-nil : (o : Option IdAgg) → o ≡ own_agg o []
    own_agg-nil none = refl
    own_agg-nil (some a) = refl
find_agg-aggregate id aggs (r ∷ rs) = elim (Bool-cases (text_eq r.intent_id id)) [
  | inl own ↦
      find_agg-aggregate id (upsert r aggs) rs
      ∙ rw (find_agg-upsert id r aggs, own) (sym (own_agg-cons (find_agg id aggs) r (of_id id rs)))
  | inr other ↦
      find_agg-aggregate id (upsert r aggs) rs ∙ rw (find_agg-upsert id r aggs, other) refl
]

-- The four parts of an aggregate.
absorb-opens :
    (a : IdAgg) (rs : List Record) → (absorb a rs).opens ≡ a.opens + count_stage is_created rs
unfolding update_agg
absorb-opens a [] = omega arith
absorb-opens a (r ∷ rs) = ground (arith, absorb-opens (update_agg r a) rs)

absorb-closes :
    (a : IdAgg) (rs : List Record) → (absorb a rs).closes ≡ a.closes + count_stage is_close_stage rs
unfolding update_agg
absorb-closes a [] = omega arith
absorb-closes a (r ∷ rs) = ground (arith, absorb-closes (update_agg r a) rs)

absorb-last :
    (a : IdAgg) (rs : List Record) → some (absorb a rs).last ≡ last_of any_stage (some a.last) rs
unfolding update_agg
absorb-last a [] = refl
absorb-last a (r ∷ rs) = absorb-last (update_agg r a) rs

absorb-open_record :
    (a : IdAgg) (rs : List Record)
    → (absorb a rs).open_record ≡ last_of is_open_stage a.open_record rs
unfolding update_agg
absorb-open_record a [] = refl
absorb-open_record a (r ∷ rs) = absorb-open_record (update_agg r a) rs

pub is_unresolved-absorb :
    (r : Record) (rs : List Record) → is_unresolved (absorb (first_agg r) rs) ≡ is_dangling (r ∷ rs)
unfolding is_unresolved first_agg update_agg
is_unresolved-absorb r rs = ground (
  arith,
  absorb-opens (first_agg r) rs,
  absorb-closes (first_agg r) rs,
  ap ends_open (absorb-last (first_agg r) rs),
)

-- The line that an entry is made from: the last unresolved one, or else the last.
abbrev pub reported : List Record → Option Record
reported rs = elim (last_of is_open_stage none rs) [
  | some o ↦ some o
  | none ↦ last_of any_stage none rs
]

pub representative-absorb :
    (r : Record) (rs : List Record)
    → some (representative (absorb (first_agg r) rs)) ≡ reported (r ∷ rs)
unfolding representative first_agg update_agg
representative-absorb r rs =
    ground (arith, absorb-last (first_agg r) rs, absorb-open_record (first_agg r) rs)
