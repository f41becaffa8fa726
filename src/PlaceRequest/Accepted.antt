-- ===== src/PlaceRequest/Accepted.antt =====
-- The requests that buildPlace lets through.
use mathlib.Core.Path.{subst}
use tinvest.Prelude.{
  ℕ, ◌≡◌, refl, true, not, List, [], ◌∷◌, Option, none, some, Text, trim_space, if_intro, arith,
}
use tinvest.Decimal.{Quotation, Parsed, ok, err, parse_quotation}
use tinvest.Orders.{
  OrderDirection, OrderType, TimeInForceType, direction, order_type, time_in_force,
}
use tinvest.Identifiers.{
  ParsedId, validate_order_id, new_order_id, classify_id, Classified, classified, invalid,
}
use tinvest.PlaceRequest.{
  PlaceInput, ResolvedPlace, Built, built, refused, PriceRead, priced, unpriced, parsed_price,
  read_price, read_order_id, with_order_id, with_price, with_tif, with_type, with_direction,
  with_id, build_place,
}

-- The price of a trimmed text: none of an empty one.
abbrev pub IsPriceOf : Text → Option Quotation → Type 0
IsPriceOf [] price = price ≡ none
IsPriceOf (c ∷ s) price = (q : Quotation) × (price ≡ some q) × (parse_quotation (c ∷ s) ≡ ok q)

-- The order id of a trimmed text: that text, or one of random bytes if it is empty.
abbrev pub IsKeyOf : Option (List ℕ) → Text → Text → Type 0
IsKeyOf random [] key = (bytes : List ℕ) × (random ≡ some bytes) × (key ≡ new_order_id bytes)
IsKeyOf random (c ∷ s) key = key ≡ c ∷ s

-- A resolved request stands for its input.
pub record IsAccepted (random : Option (List ℕ)) (i : PlaceInput) (rp : ResolvedPlace)
    : Type 0 where
  pub id : ParsedId
  pub identified : classify_id i.instrument ≡ classified id
  pub same_instrument : rp.instrument ≡ i.instrument
  pub directed : direction i.direction ≡ some rp.direction
  pub typed : order_type i.type_name ≡ some rp.order_type
  pub timed : time_in_force i.tif ≡ some rp.tif
  pub priced_as : IsPriceOf (trim_space i.price) rp.price
  pub keyed : IsKeyOf random (trim_space i.order_id) rp.order_id
  pub key_valid : validate_order_id rp.order_id ≡ true
  pub same_lots : rp.lots ≡ i.quantity
  pub same_price_str : rp.price_str ≡ trim_space i.price
  pub same_tif_str : rp.tif_str ≡ i.tif
  pub same_async : rp.async ≡ i.async
  pub same_margin : rp.confirm_margin_trade ≡ i.confirm_margin_trade
  pub same_dry_run : rp.dry_run ≡ i.dry_run

read_price-IsPriceOf :
    (s : Text) (price : Option Quotation) → read_price s ≡ priced price → IsPriceOf s price
unfolding read_price
read_price-IsPriceOf [] price h = cc
read_price-IsPriceOf (c ∷ s) price h = by_parse (parse_quotation (c ∷ s)) refl h
  where
    by_parse :
        (r : Parsed)
        → parse_quotation (c ∷ s) ≡ r
        → parsed_price r ≡ priced price
        → IsPriceOf (c ∷ s) price
    by_parse (ok q) is e = (q, cc, is)
    by_parse (err x) is e = cc e

read_order_id-IsKeyOf :
    (random : Option (List ℕ)) (s key : Text)
    → read_order_id random s ≡ some key
    → IsKeyOf random s key
unfolding read_order_id
read_order_id-IsKeyOf none [] key h = cc
read_order_id-IsKeyOf (some bytes) [] key h = (bytes, refl, cc)
read_order_id-IsKeyOf random (c ∷ s) key h = cc

abbrev Accepts : Option (List ℕ) → PlaceInput → Built → Type 0
Accepts random i (refused e) = Unit
Accepts random i (built rp) = IsAccepted random i rp

module _ (random : Option (List ℕ)) (i : PlaceInput) (id : ParsedId)
    (identified : classify_id i.instrument ≡ classified id) where
  module _ (d : OrderDirection) (directed : direction i.direction ≡ some d) (t : OrderType)
      (typed : order_type i.type_name ≡ some t) (f : TimeInForceType)
      (timed : time_in_force i.tif ≡ some f) where
    key-Accepts :
        (price : Option Quotation)
        → read_price (trim_space i.price) ≡ priced price
        → (o : Option Text) → read_order_id random (trim_space i.order_id) ≡ o
        → Accepts random i (with_order_id i d t f price o)
    key-Accepts price priced_as none h = tt
    key-Accepts price priced_as (some key) h =
        if_intro (Accepts random i) (not (validate_order_id key)) (refused _) (built _) (λ bad. tt)
          (λ good. record {
            id = id;
            identified = identified;
            same_instrument = refl;
            directed = directed;
            typed = typed;
            timed = timed;
            priced_as = read_price-IsPriceOf (trim_space i.price) price priced_as;
            keyed = read_order_id-IsKeyOf random (trim_space i.order_id) key h;
            key_valid = ground arith;
            same_lots = refl;
            same_price_str = refl;
            same_tif_str = refl;
            same_async = refl;
            same_margin = refl;
            same_dry_run = refl;
          })

    price-Accepts :
        (r : PriceRead)
        → read_price (trim_space i.price) ≡ r
        → Accepts random i (with_price random i d t f r)
    price-Accepts (unpriced e) h = tt
    price-Accepts (priced price) h =
        key-Accepts price h (read_order_id random (trim_space i.order_id)) refl

  tif-Accepts :
      (d : OrderDirection)
      → direction i.direction ≡ some d
      → (t : OrderType) → order_type i.type_name ≡ some t
      → (o : Option TimeInForceType) → time_in_force i.tif ≡ o
      → Accepts random i (with_tif random i d t o)
  tif-Accepts d dh t th none h = tt
  tif-Accepts d dh t th (some f) h =
      price-Accepts d dh t th f h (read_price (trim_space i.price)) refl

  type-Accepts :
      (d : OrderDirection)
      → direction i.direction ≡ some d
      → (o : Option OrderType) → order_type i.type_name ≡ o
      → Accepts random i (with_type random i d o)
  type-Accepts d dh none h = tt
  type-Accepts d dh (some t) h = tif-Accepts d dh t h (time_in_force i.tif) refl

  direction-Accepts :
      (o : Option OrderDirection)
      → direction i.direction ≡ o
      → Accepts random i (with_direction random i o)
  direction-Accepts none h = tt
  direction-Accepts (some d) h = type-Accepts d h (order_type i.type_name) refl

id-Accepts :
    (random : Option (List ℕ)) (i : PlaceInput) (c : Classified)
    → classify_id i.instrument ≡ c
    → Accepts random i (with_id random i c)
id-Accepts random i (invalid e) h = tt
id-Accepts random i (classified id) h = direction-Accepts random i id h (direction i.direction) refl

-- A request that buildPlace lets through stands for its input: its instrument is classified, its enums
-- and its price are those of the input's texts, its order id is the input's or the generated one and
-- passes the test of order ids, and its lots and its three flags are the input's.
pub build_place-IsAccepted :
    (random : Option (List ℕ)) (i : PlaceInput) (rp : ResolvedPlace)
    → build_place random i ≡ built rp
    → IsAccepted random i rp
unfolding build_place
build_place-IsAccepted random i rp h =
    subst (Accepts random i) h (id-Accepts random i (classify_id i.instrument) refl)
