-- ===== src/StopMatch/Agrees.antt =====
-- When a stop order of the broker is the one that a journaled request asked for.
use mathlib.Core.Path.{subst}
use tinvest.Prelude.{
  ℕ, ◌≡◌, ◌⊎◌, refl, ap, ◌∙◌, true, [], ◌∷◌, Option, none, some, Text, codes, text_eq, is_empty,
  ==_refl, arith, ◌==◌,
}
use tinvest.Prelude.Int.{eq_ℤ}
use tinvest.Decimal.{Quotation, Parsed, ok, err, parse_quotation}
use tinvest.StopOrders.{
  StopOrderType, TakeProfitType, ExchangeOrderType, is_unset_profit, is_unset_exchange, is_none,
}
use tinvest.StopOrders.Names.{
  direction_string, type_string, expiration_string, exchange_string, profit_string, value_string,
}
use tinvest.StopMatch.Reflects.{
  Reflects, both-Reflects, text_eq-Reflects, eq_ℤ-Reflects, is_none-Reflects, is_empty-Reflects,
  unless-Reflects, case-Reflects, when-Reflects, reject-Reflects,
}
use tinvest.StopMatch.{
  TrailingData, StopOrder, StopOrderPayload, Stamps, units_of, nano_of, equals_parsed,
  money_equals_decimal, quotation_equals_decimal, same_moment, stop_expiration_matches,
  trailing_matches, stop_take_profit_matches, is_match,
}

-- The amount of a message that the broker left out reads as zero, and an empty text asks for none.
abbrev pub IsMoney : Option Quotation → Text → Type 0
IsMoney m [] = m ≡ none
IsMoney m (c ∷ s) =
    (q : Quotation) × (parse_quotation (c ∷ s) ≡ ok q)
    × (units_of m ≡ q.units)
    × (nano_of m ≡ q.nano)

abbrev pub IsQuotation : Option Quotation → Text → Type 0
IsQuotation m [] = m ≡ none
IsQuotation none (c ∷ s) = ⊥
IsQuotation (some p) (c ∷ s) =
    (q : Quotation) × (parse_quotation (c ∷ s) ≡ ok q) × (p.units ≡ q.units) × (p.nano ≡ q.nano)

equals_parsed-Reflects :
    (m : Option Quotation) (r : Parsed)
    → Reflects
        (equals_parsed m r)
        ((q : Quotation) × (r ≡ ok q) × (units_of m ≡ q.units) × (nano_of m ≡ q.nano))
equals_parsed-Reflects m (err e) = (λ h. cc, λ h. cc (h.1))
equals_parsed-Reflects m (ok q) =
    let f =
      both-Reflects (eq_ℤ (units_of m) q.units) (eq_ℤ (nano_of m) q.nano)
        (eq_ℤ-Reflects (units_of m) q.units) (eq_ℤ-Reflects (nano_of m) q.nano) in
    (
      λ h. let (u, n) = f.0 h in (q, refl, u, n),
      λ h.
          f.1
            (subst (λ x. (units_of m ≡ x.units) × (nano_of m ≡ x.nano)) (same h.0 h.1) (h.2, h.3)),
    )
  where
    same : (x : Quotation) → ok q ≡ ok x → x ≡ q
    same x e = cc

money_equals_decimal-Reflects :
    (m : Option Quotation) (s : Text) → Reflects (money_equals_decimal m s) (IsMoney m s)
unfolding money_equals_decimal
money_equals_decimal-Reflects m [] = is_none-Reflects m
money_equals_decimal-Reflects m (c ∷ s) = equals_parsed-Reflects m (parse_quotation (c ∷ s))

quotation_equals_decimal-Reflects :
    (m : Option Quotation) (s : Text) → Reflects (quotation_equals_decimal m s) (IsQuotation m s)
unfolding quotation_equals_decimal
quotation_equals_decimal-Reflects m [] = is_none-Reflects m
quotation_equals_decimal-Reflects none (c ∷ s) = (λ h. cc, λ h. absurd h)
quotation_equals_decimal-Reflects (some q) (c ∷ s) =
    equals_parsed-Reflects (some q) (parse_quotation (c ∷ s))

-- The names of the contract that the match turns on.
abbrev pub till_cancel : Text
till_cancel = codes "STOP_ORDER_EXPIRATION_TYPE_GOOD_TILL_CANCEL"

abbrev pub till_date : Text
till_date = codes "STOP_ORDER_EXPIRATION_TYPE_GOOD_TILL_DATE"

abbrev pub take_profit_name : Text
take_profit_name = codes "STOP_ORDER_TYPE_TAKE_PROFIT"

abbrev pub trailing_name : Text
trailing_name = codes "TAKE_PROFIT_TYPE_TRAILING"

-- The end of a stop order: none till cancelled, and else the requested moment.
abbrev pub IsEnd : Stamps → StopOrder → StopOrderPayload → Type 0
IsEnd at s p =
    ((p.expiration_type ≡ till_cancel) × ((p.expire_date ≡ []) × (s.expiration_time ≡ none)))
    ⊎ ((¬ (p.expiration_type ≡ till_cancel))
        × ((p.expiration_type ≡ till_date)
            × ((m : ℕ) × (at.moment p.expire_date ≡ some m) × (s.expiration_time ≡ some m))))

same_moment-Reflects :
    (a b : Option ℕ) → Reflects (same_moment a b) ((m : ℕ) × (a ≡ some m) × (b ≡ some m))
same_moment-Reflects none b = (λ h. cc, λ h. cc (h.1))
same_moment-Reflects (some m) none = (λ h. cc, λ h. cc (h.2))
same_moment-Reflects (some m) (some n) =
    (λ h. (n, ap some (ground arith), refl), λ h. equal h.0 h.1 h.2)
  where
    equal : (k : ℕ) → some m ≡ some k → some n ≡ some k → (m == n) ≡ true
    equal k e f = ap (λ x. m == x) (n_is_m e f) ∙ ==_refl m
      where
        n_is_m : some m ≡ some k → some n ≡ some k → n ≡ m
        n_is_m e f = cc

stop_expiration_matches-Reflects :
    (at : Stamps) (s : StopOrder) (p : StopOrderPayload)
    → Reflects (stop_expiration_matches at s p) (IsEnd at s p)
unfolding stop_expiration_matches expiration_string
stop_expiration_matches-Reflects at s p =
    case-Reflects (text_eq p.expiration_type till_cancel) _ _
      (text_eq-Reflects p.expiration_type till_cancel)
      (both-Reflects (is_empty p.expire_date) (is_none s.expiration_time)
        (is_empty-Reflects p.expire_date) (is_none-Reflects s.expiration_time))
      (when-Reflects (text_eq p.expiration_type till_date) _
        (text_eq-Reflects p.expiration_type till_date)
        (same_moment-Reflects (at.moment p.expire_date) s.expiration_time))

abbrev pub IsTrail : TrailingData → StopOrderPayload → Type 0
IsTrail t p =
    ((IsQuotation t.indent p.trailing_indent
        × (value_string t.indent_type ≡ p.trailing_indent_type))
      × IsQuotation t.spread p.trailing_spread)
    × (value_string t.spread_type ≡ p.trailing_spread_type)

trailing-Reflects :
    (data' : Option TrailingData) (p : StopOrderPayload)
    → Reflects (trailing_matches data' p) ((t : TrailingData) × (data' ≡ some t) × IsTrail t p)
trailing-Reflects none p = (λ h. cc, λ h. cc (h.1))
trailing-Reflects (some t) p =
    let f =
      both-Reflects _ (text_eq (value_string t.spread_type) p.trailing_spread_type)
        (both-Reflects _ (quotation_equals_decimal t.spread p.trailing_spread)
          (both-Reflects (quotation_equals_decimal t.indent p.trailing_indent)
            (text_eq (value_string t.indent_type) p.trailing_indent_type)
            (quotation_equals_decimal-Reflects t.indent p.trailing_indent)
            (text_eq-Reflects (value_string t.indent_type) p.trailing_indent_type))
          (quotation_equals_decimal-Reflects t.spread p.trailing_spread))
        (text_eq-Reflects (value_string t.spread_type) p.trailing_spread_type) in
    (λ h. (t, refl, f.0 h), λ h. f.1 (subst (λ x. IsTrail x p) (same h.0 h.1) h.2))
  where
    same : (x : TrailingData) → some t ≡ some x → x ≡ t
    same x e = cc

-- A stop order without the fields of a take-profit, on both sides.
abbrev pub IsPlain : StopOrder → StopOrderPayload → Type 0
IsPlain s p =
    ((((p.exchange_order_type ≡ []) × (p.take_profit_type ≡ []))
        × (s.exchange_order_type ≡ ExchangeOrderType.unspecified))
      × (s.take_profit_type ≡ TakeProfitType.unspecified))
    × (s.trailing_data ≡ none)

-- The fields of a take-profit.
abbrev pub IsProfit : StopOrder → StopOrderPayload → Type 0
IsProfit s p =
    ((¬ (p.stop_order_type ≡ take_profit_name)) × IsPlain s p)
    ⊎ ((p.stop_order_type ≡ take_profit_name)
        × ((exchange_string s.exchange_order_type ≡ p.exchange_order_type)
            × ((profit_string s.take_profit_type ≡ p.take_profit_type)
                × (((¬ (p.take_profit_type ≡ trailing_name)) × (s.trailing_data ≡ none))
                    ⊎ ((p.take_profit_type ≡ trailing_name)
                        × ((t : TrailingData) × (s.trailing_data ≡ some t) × IsTrail t p))))))

unset_exchange-Reflects :
    (e : ExchangeOrderType) → Reflects (is_unset_exchange e) (e ≡ ExchangeOrderType.unspecified)
unset_exchange-Reflects ExchangeOrderType.unspecified = (λ h. refl, λ h. refl)
unset_exchange-Reflects ExchangeOrderType.market = (λ h. cc, λ h. cc)
unset_exchange-Reflects ExchangeOrderType.limit = (λ h. cc, λ h. cc)
unset_exchange-Reflects (ExchangeOrderType.other n) = (λ h. cc, λ h. cc)

unset_profit-Reflects :
    (t : TakeProfitType) → Reflects (is_unset_profit t) (t ≡ TakeProfitType.unspecified)
unset_profit-Reflects TakeProfitType.unspecified = (λ h. refl, λ h. refl)
unset_profit-Reflects TakeProfitType.regular = (λ h. cc, λ h. cc)
unset_profit-Reflects TakeProfitType.trailing = (λ h. cc, λ h. cc)
unset_profit-Reflects (TakeProfitType.other n) = (λ h. cc, λ h. cc)

stop_take_profit_matches-Reflects :
    (s : StopOrder) (p : StopOrderPayload) → Reflects (stop_take_profit_matches s p) (IsProfit s p)
unfolding stop_take_profit_matches
stop_take_profit_matches-Reflects s p =
    unless-Reflects (text_eq p.stop_order_type (type_string StopOrderType.take_profit)) _ _
      (unfold type_string in text_eq-Reflects p.stop_order_type take_profit_name)
      (both-Reflects _ (is_none s.trailing_data)
        (both-Reflects _ (is_unset_profit s.take_profit_type)
          (both-Reflects _ (is_unset_exchange s.exchange_order_type)
            (both-Reflects (is_empty p.exchange_order_type) (is_empty p.take_profit_type)
              (is_empty-Reflects p.exchange_order_type) (is_empty-Reflects p.take_profit_type))
            (unset_exchange-Reflects s.exchange_order_type))
          (unset_profit-Reflects s.take_profit_type))
        (is_none-Reflects s.trailing_data))
      (reject-Reflects (text_eq (exchange_string s.exchange_order_type) p.exchange_order_type) _
        (text_eq-Reflects (exchange_string s.exchange_order_type) p.exchange_order_type)
        (reject-Reflects (text_eq (profit_string s.take_profit_type) p.take_profit_type) _
          (text_eq-Reflects (profit_string s.take_profit_type) p.take_profit_type)
          (unless-Reflects (text_eq p.take_profit_type (profit_string TakeProfitType.trailing)) _ _
            (unfold profit_string in text_eq-Reflects p.take_profit_type trailing_name)
            (is_none-Reflects s.trailing_data) (trailing-Reflects s.trailing_data p))))

-- A stop order that agrees with a request in every field.
abbrev pub Agrees : Stamps → StopOrderPayload → StopOrder → Type 0
Agrees at p s =
    (((((((s.instrument_uid ≡ p.instrument_id) × (direction_string s.direction ≡ p.direction))
              × (type_string s.order_type ≡ p.stop_order_type))
            × (s.lots_requested ≡ p.quantity))
          × IsMoney s.stop_price p.stop_price)
        × IsMoney s.price p.price)
      × IsEnd at s p)
    × IsProfit s p

pub is_match-Reflects :
    (at : Stamps) (p : StopOrderPayload) (s : StopOrder)
    → Reflects (is_match at p s) (Agrees at p s)
unfolding is_match
is_match-Reflects at p s =
    both-Reflects _ (stop_take_profit_matches s p)
      (both-Reflects _ (stop_expiration_matches at s p)
        (both-Reflects _ (money_equals_decimal s.price p.price)
          (both-Reflects _ (money_equals_decimal s.stop_price p.stop_price)
            (both-Reflects _ (eq_ℤ s.lots_requested p.quantity)
              (both-Reflects _ (text_eq (type_string s.order_type) p.stop_order_type)
                (both-Reflects (text_eq s.instrument_uid p.instrument_id)
                  (text_eq (direction_string s.direction) p.direction)
                  (text_eq-Reflects s.instrument_uid p.instrument_id)
                  (text_eq-Reflects (direction_string s.direction) p.direction))
                (text_eq-Reflects (type_string s.order_type) p.stop_order_type))
              (eq_ℤ-Reflects s.lots_requested p.quantity))
            (money_equals_decimal-Reflects s.stop_price p.stop_price))
          (money_equals_decimal-Reflects s.price p.price))
        (stop_expiration_matches-Reflects at s p))
      (stop_take_profit_matches-Reflects s p)
