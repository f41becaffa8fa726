-- ===== src/Policy/Rules.antt =====
-- What an order that passed every check satisfies.
use tinvest.Prelude.{
  Bool, true, false, not, ◌≡◌, ◌⊎◌, refl, List, [], ◌∷◌, Option, none, some, Bool-cases, inl, inr,
  ap, ◌++◌, ◌&&◌, ◌||◌, both_true, codes, Text, is_empty, trim_space, arith, if◌then◌else◌,
}
use tinvest.Prelude.Int.{ℤ, pos, ◌+ℤ◌, ◌*ℤ◌, is_pos, ◌≤ℤ◌, ◌<ℤ◌, ltb_ℤ}
use tinvest.Decimal.{Quotation, parse_quotation, ok}
use tinvest.Orders.{OrderType}
use tinvest.Policy.{
  Policy, OrderIntent, Violation, KillPath, unresolved, exists, absent, stat_failed,
  check_kill_switch, check_market, is_market, check_lots, check_local, matches, any_match,
  no_entries, check_allowlist, ticker_class, equal_fold, quotation_nanos, notional, check_limit,
  check_priced, check_notional, check_resolved, check_open_orders, first_of, notional_exceeded,
}

-- An entry of a list.
abbrev pub IsEntry : Text → List Text → Type 0
IsEntry a [] = ⊥
IsEntry a (x ∷ xs) = (a ≡ x) ⊎ IsEntry a xs

-- A type whose orders name a price: neither market nor bestprice.
abbrev pub IsPriced : OrderType → Type 0
IsPriced OrderType.market = ⊥
IsPriced OrderType.bestprice = ⊥
IsPriced _ = Unit

-- A trimmed entry that names the instrument: by its uid, its FIGI, the identifier as it was given, or
-- TICKER@CLASS, up to case.
abbrev pub Names : (Text → Text → Bool) → OrderIntent → Text → Type 0
Names fold o a =
    (is_empty a ≡ false)
    × ((equal_fold fold a o.uid ≡ true)
        ⊎ ((equal_fold fold a o.figi ≡ true)
            ⊎ ((equal_fold fold a o.raw_id ≡ true)
                ⊎ ((is_empty o.ticker ≡ false)
                    × (is_empty o.class_code ≡ false)
                    × (equal_fold fold a (o.ticker ++ (codes "@" ++ o.class_code)) ≡ true)))))

-- The rules, as they are meant.
pub record IsWithin (fold : Text → Text → Bool) (p : Policy) (path : KillPath) (o : OrderIntent)
    (open_orders : ℤ) : Type 0 where
  pub kill_clear : is_empty p.kill_switch_file ≡ false → path ≡ absent
  pub market_clear : p.present ≡ true → p.allow_market_orders ≡ false → IsPriced o.order_type
  pub lots_within : is_pos p.max_lots_per_order ≡ true → o.lots ≤ℤ p.max_lots_per_order
  pub listed :
      (first : Text) (others : List Text)
      → p.allowed_instruments ≡ first ∷ others
      → (a : Text) × IsEntry a p.allowed_instruments × Names fold o (trim_space a)
  pub notional_within :
      (price limit : Quotation)
      → o.price ≡ some price
      → is_empty p.max_notional_per_order ≡ false
      → parse_quotation p.max_notional_per_order ≡ ok limit
      → (is_empty o.currency ≡ false)
        × (is_empty p.notional_currency ≡ false
            → equal_fold fold p.notional_currency o.currency ≡ true)
        × (is_pos o.lot_size ≡ true)
        × ((price.units *ℤ pos 1_000_000_000 +ℤ price.nano) *ℤ (o.lots *ℤ o.lot_size)
            ≤ℤ limit.units *ℤ pos 1_000_000_000 +ℤ limit.nano)
  pub room : is_pos p.max_open_orders ≡ true → open_orders <ℤ p.max_open_orders

first_of-none : (a b : Option Violation) → first_of a b ≡ none → (a ≡ none) × (b ≡ none)
first_of-none none b h = (refl, h)
first_of-none (some v) b h = cc

pub kill_clear-lem :
    (p : Policy) (path : KillPath)
    → check_kill_switch p path ≡ none
    → is_empty p.kill_switch_file ≡ false
    → path ≡ absent
unfolding check_kill_switch
kill_clear-lem p unresolved h e = cc (rw e at h)
kill_clear-lem p exists h e = cc (rw e at h)
kill_clear-lem p absent h e = refl
kill_clear-lem p stat_failed h e = cc (rw e at h)

is_market-IsPriced : (t : OrderType) → is_market t ≡ false → IsPriced t
is_market-IsPriced OrderType.market h = cc
is_market-IsPriced OrderType.bestprice h = cc
is_market-IsPriced OrderType.unspecified h = tt
is_market-IsPriced OrderType.limit h = tt
is_market-IsPriced (OrderType.other n) h = tt

market_clear-lem :
    (p : Policy) (o : OrderIntent)
    → check_market p o ≡ none
    → p.present ≡ true
    → p.allow_market_orders ≡ false
    → IsPriced o.order_type
unfolding check_market
market_clear-lem p o h e m = elim (Bool-cases (is_market o.order_type)) [
  | inl bad ↦ cc (rw (e, m, bad) at h)
  | inr good ↦ is_market-IsPriced o.order_type good
]

lots_within-lem :
    (p : Policy) (o : OrderIntent)
    → check_lots p o ≡ none
    → is_pos p.max_lots_per_order ≡ true
    → o.lots ≤ℤ p.max_lots_per_order
unfolding check_lots
lots_within-lem p o h e = ground arith

any_match-IsEntry :
    (fold : Text → Text → Bool) (o : OrderIntent) (list : List Text)
    → any_match fold o list ≡ true
    → (a : Text) × IsEntry a list × (matches fold o (trim_space a) ≡ true)
unfolding any_match
any_match-IsEntry fold o [] h = cc
any_match-IsEntry fold o (x ∷ xs) h = elim (Bool-cases (matches fold o (trim_space x))) [
  | inl hit ↦ (x, inl refl, hit)
  | inr miss ↦
      let (a, among, hit) = any_match-IsEntry fold o xs (rw miss at h) in (a, inr among, hit)
]

either_true : (a b : Bool) → (a || b) ≡ true → (a ≡ true) ⊎ (b ≡ true)
either_true true b h = inl refl
either_true false b h = inr h

flip_false : (b : Bool) → not b ≡ true → b ≡ false
flip_false true h = cc
flip_false false h = refl

ticker_class-Names :
    (fold : Text → Text → Bool) (o : OrderIntent) (a : Text)
    → is_empty (ticker_class o) ≡ false
    → equal_fold fold a (ticker_class o) ≡ true
    → (is_empty o.ticker ≡ false)
      × (is_empty o.class_code ≡ false)
      × (equal_fold fold a (o.ticker ++ (codes "@" ++ o.class_code)) ≡ true)
unfolding ticker_class
ticker_class-Names fold o a given same =
    elim (Bool-cases (not (is_empty o.ticker) && not (is_empty o.class_code))) [
      | inr lacking ↦ cc (rw lacking at given)
      | inl both ↦
          let (ticker, class) =
            both_true (not (is_empty o.ticker)) (not (is_empty o.class_code)) both in
          (
            flip_false (is_empty o.ticker) ticker,
            flip_false (is_empty o.class_code) class,
            rw both at same,
          )
    ]

matches-Names :
    (fold : Text → Text → Bool) (o : OrderIntent) (a : Text)
    → matches fold o a ≡ true
    → Names fold o a
unfolding matches
matches-Names fold o a h =
    let by_class = not (is_empty (ticker_class o)) && equal_fold fold a (ticker_class o) in
    let by_uid_figi = equal_fold fold a o.uid || equal_fold fold a o.figi in
    let by_ids = by_uid_figi || equal_fold fold a o.raw_id in
    let (given, same) = both_true (not (is_empty a)) (by_ids || by_class) h in
    (
      flip_false (is_empty a) given,
      elim (either_true by_ids by_class same) [
        | inr class ↦
            let (some_class, named) =
              both_true (not (is_empty (ticker_class o))) (equal_fold fold a (ticker_class o))
                class in
            inr (
              inr (
                inr (
                  ticker_class-Names fold o a (flip_false (is_empty (ticker_class o)) some_class)
                    named)))
        | inl id ↦ elim (either_true by_uid_figi (equal_fold fold a o.raw_id) id) [
          | inr raw ↦ inr (inr (inl raw))
          | inl kept ↦
              elim (either_true (equal_fold fold a o.uid) (equal_fold fold a o.figi) kept) [
                | inl uid ↦ inl uid
                | inr figi ↦ inr (inl figi)
              ]
        ]
      ],
    )

listed-lem :
    (fold : Text → Text → Bool) (p : Policy) (o : OrderIntent)
    → check_allowlist fold p o ≡ none
    → (first : Text) (others : List Text) → p.allowed_instruments ≡ first ∷ others
    → (a : Text) × IsEntry a p.allowed_instruments × Names fold o (trim_space a)
unfolding check_allowlist
listed-lem fold p o h first others e =
    let some_left : no_entries p.allowed_instruments ≡ false = ap (λ xs. no_entries xs) e in
    let (a, among, hit) = any_match-IsEntry fold o p.allowed_instruments (ground arith) in
    (a, among, matches-Names fold o (trim_space a) hit)

not_above : (a b : ℤ) (v : Violation) → (if ltb_ℤ b a then some v else none) ≡ none → a ≤ℤ b
not_above a b v h = ground arith

limit-lem :
    (p : Policy) (o : OrderIntent) (price limit : Quotation)
    → parse_quotation p.max_notional_per_order ≡ ok limit
    → check_limit p o price ≡ none
    → notional o price ≤ℤ quotation_nanos limit
unfolding check_limit
limit-lem p o price limit l h =
    not_above (notional o price) (quotation_nanos limit)
      (notional_exceeded p.max_notional_per_order (notional o price)) (rw (l, check_limit) at h)

guarded :
    (a : Bool) (v : Violation) (rest : Option Violation)
    → (if a then some v else rest) ≡ none
    → (a ≡ false) × (rest ≡ none)
guarded true v rest h = cc
guarded false v rest h = (refl, h)

priced-lem :
    (fold : Text → Text → Bool) (p : Policy) (o : OrderIntent) (price : Quotation)
    → check_priced fold p o price ≡ none
    → (is_empty o.currency ≡ false)
      × (is_empty p.notional_currency ≡ false
          → equal_fold fold p.notional_currency o.currency ≡ true)
      × (is_pos o.lot_size ≡ true)
      × (check_limit p o price ≡ none)
unfolding check_priced
priced-lem fold p o price h =
    let (known, h1) = guarded _ _ _ h in
    let (same, h2) = guarded _ _ _ h1 in
    let (sized, h3) = guarded _ _ _ h2 in
    (
      known,
      same_currency (is_empty p.notional_currency) (equal_fold fold p.notional_currency o.currency)
          same,
      not_not (is_pos o.lot_size) sized,
      h3,
    )
  where
    same_currency : (a b : Bool) → (not a && not b) ≡ false → a ≡ false → b ≡ true
    same_currency a b e n = ground arith

    not_not : (b : Bool) → not b ≡ false → b ≡ true
    not_not true e = refl
    not_not false e = cc

notional-lem :
    (fold : Text → Text → Bool) (p : Policy) (o : OrderIntent)
    → check_notional fold p o ≡ none
    → (price limit : Quotation) → o.price ≡ some price
    → is_empty p.max_notional_per_order ≡ false
    → parse_quotation p.max_notional_per_order ≡ ok limit
    → (is_empty o.currency ≡ false)
      × (is_empty p.notional_currency ≡ false
          → equal_fold fold p.notional_currency o.currency ≡ true)
      × (is_pos o.lot_size ≡ true)
      × (notional o price ≤ℤ quotation_nanos limit)
unfolding check_notional
notional-lem fold p o h price limit e n l =
    let (known, same, sized, within) = priced-lem fold p o price (rw (n, e) at h) in
    (known, same, sized, limit-lem p o price limit l within)

room-lem :
    (p : Policy) (n : ℤ)
    → check_open_orders (some p) n ≡ none
    → is_pos p.max_open_orders ≡ true
    → n <ℤ p.max_open_orders
unfolding check_open_orders
room-lem p n h e = ground arith

-- An order that passes the local check, the check behind the instrument's resolution and the
-- open-orders check of a policy keeps these rules of it: the kill path is clean; where market orders
-- are not opted in, it is neither market nor bestprice; the lots and the open orders are under their
-- caps; some entry of a non-empty allowlist is, up to case, the instrument's uid, FIGI, given
-- identifier or TICKER@CLASS; and a priced order under a notional cap has a known currency, which is
-- the cap's if that names one, a positive lot size, and an exact notional of at most the cap.
pub checks-IsWithin :
    (fold : Text → Text → Bool) (p : Policy) (path : KillPath) (o : OrderIntent) (n : ℤ)
    → check_local (some p) path o ≡ none
    → check_resolved fold (some p) o ≡ none
    → check_open_orders (some p) n ≡ none
    → IsWithin fold p path o n
unfolding check_local check_resolved
checks-IsWithin fold p path o n local resolved room =
    let (kill, rest) =
      first_of-none (check_kill_switch p path) (first_of (check_market p o) (check_lots p o))
        local in
    let (market, lots) = first_of-none (check_market p o) (check_lots p o) rest in
    let (listed, priced) =
      first_of-none (check_allowlist fold p o) (check_notional fold p o) resolved in
    record {
      kill_clear = kill_clear-lem p path kill;
      market_clear = market_clear-lem p o market;
      lots_within = lots_within-lem p o lots;
      listed = listed-lem fold p o listed;
      notional_within = notional-lem fold p o priced;
      room = room-lem p n room;
    }
