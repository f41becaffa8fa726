-- ===== src/StopMatch/Complete.antt =====
-- What a journaled request of a stop order has that passes validateStopMatchPayload.
use tinvest.Prelude.{
  ℕ, ◌≡◌, refl, sym, ap, ◌∙◌, Bool, true, false, not, ◌&&◌, ◌||◌, Option, none, some, Text, text_eq,
  text_eq_refl, is_empty, arith, if◌then◌else◌,
}
use tinvest.Prelude.Int.{is_pos}
use tinvest.StopOrders.{is_none}
use tinvest.StopOrders.Names.{type_string, expiration_string, profit_string}
use tinvest.StopMatch.{
  StopOrderPayload, Stamps, MatchError, misses_trailing, check_match_profit,
  validate_stop_match_payload,
}
use tinvest.StopMatch.Agrees.{till_date, take_profit_name, trailing_name}

abbrev pub IsTrailGiven : StopOrderPayload → Type 0
IsTrailGiven p =
    (is_empty p.trailing_indent ≡ false)
    × (is_empty p.trailing_indent_type ≡ false)
    × (is_empty p.trailing_spread ≡ false)
    × (is_empty p.trailing_spread_type ≡ false)

-- A request that can be matched: every field that its type needs is given, and its dates can be read.
pub record IsComplete (at : Stamps) (p : StopOrderPayload) : Type 0 where
  pub instrument_given : is_empty p.instrument_id ≡ false
  pub direction_given : is_empty p.direction ≡ false
  pub type_given : is_empty p.stop_order_type ≡ false
  pub positive : is_pos p.quantity ≡ true
  pub stop_price_given : is_empty p.stop_price ≡ false
  pub expiration_given : is_empty p.expiration_type ≡ false
  pub created : ℕ
  pub created_read : at.nano_moment p.created_at ≡ some created
  pub end_read : p.expiration_type ≡ till_date → (m : ℕ) × (at.moment p.expire_date ≡ some m)
  pub profit_given :
      p.stop_order_type ≡ take_profit_name
      → (is_empty p.exchange_order_type ≡ false)
        × (is_empty p.take_profit_type ≡ false)
        × (p.take_profit_type ≡ trailing_name → IsTrailGiven p)

pub either_false : (a b : Bool) → (a || b) ≡ false → (a ≡ false) × (b ≡ false)
either_false true b h = cc
either_false false b h = (refl, h)

test_passed :
    (b : Bool) (e : MatchError) (rest : Option MatchError)
    → (if b then some e else rest) ≡ none
    → (b ≡ false) × (rest ≡ none)
test_passed true e rest h = cc
test_passed false e rest h = (refl, h)

is_none-given : {A : Type 0} (o : Option A) → is_none o ≡ false → (a : A) × (o ≡ some a)
is_none-given none h = cc
is_none-given (some a) h = (a, refl)

pub text_eq-true : (s t : Text) → s ≡ t → text_eq s t ≡ true
text_eq-true s t h = ap (λ u. text_eq s u) (sym h) ∙ text_eq_refl s

misses_trailing-IsTrailGiven :
    (p : StopOrderPayload)
    → (text_eq p.take_profit_type trailing_name && misses_trailing p) ≡ false
    → p.take_profit_type ≡ trailing_name
    → IsTrailGiven p
misses_trailing-IsTrailGiven p h named =
    let (rest3, spread_type) = either_false _ (is_empty p.trailing_spread_type) (given h) in
    let (rest2, spread) = either_false _ (is_empty p.trailing_spread) rest3 in
    let (indent, indent_type) =
      either_false (is_empty p.trailing_indent) (is_empty p.trailing_indent_type) rest2 in
    (indent, indent_type, spread, spread_type)
  where
    given :
        (text_eq p.take_profit_type trailing_name && misses_trailing p) ≡ false
        → misses_trailing p ≡ false
    given e = rw (text_eq-true p.take_profit_type trailing_name named) at e

check_match_profit-lem :
    (p : StopOrderPayload)
    → check_match_profit p ≡ none
    → p.stop_order_type ≡ take_profit_name
    → (is_empty p.exchange_order_type ≡ false)
      × (is_empty p.take_profit_type ≡ false)
      × (p.take_profit_type ≡ trailing_name → IsTrailGiven p)
unfolding check_match_profit type_string profit_string
check_match_profit-lem p h named =
    let own = text_eq-true p.stop_order_type take_profit_name named in
    let (given, rest) = test_passed _ _ _ (rw own at h) in
    let (exchange, profit) =
      either_false (is_empty p.exchange_order_type) (is_empty p.take_profit_type) given in
    (exchange, profit, misses_trailing-IsTrailGiven p (test_passed _ _ _ rest).0)

pub validate_stop_match_payload-IsComplete :
    (at : Stamps) (p : StopOrderPayload) → validate_stop_match_payload at p ≡ none → IsComplete at p
unfolding validate_stop_match_payload expiration_string
validate_stop_match_payload-IsComplete at p h =
    let (fields, h1) = test_passed _ _ _ h in
    let (dated, h2) = test_passed _ _ _ h1 in
    let (ended, h3) = test_passed _ _ _ h2 in
    let (rest6, created_given) = either_false _ (is_empty p.created_at) fields in
    let (rest5, expiration) = either_false _ (is_empty p.expiration_type) rest6 in
    let (rest4, stop_price) = either_false _ (is_empty p.stop_price) rest5 in
    let (rest3, positive) = either_false _ (not (is_pos p.quantity)) rest4 in
    let (rest2, type) = either_false _ (is_empty p.stop_order_type) rest3 in
    let (instrument, direction) =
      either_false (is_empty p.instrument_id) (is_empty p.direction) rest2 in
    let (created, read) = is_none-given (at.nano_moment p.created_at) dated in
    record {
      instrument_given = instrument;
      direction_given = direction;
      type_given = type;
      positive = ground arith;
      stop_price_given = stop_price;
      expiration_given = expiration;
      created = created;
      created_read = read;
      end_read = λ till. is_none-given (at.moment p.expire_date) (
          ended_read (text_eq p.expiration_type till_date) (is_none (at.moment p.expire_date)) ended
            (text_eq-true p.expiration_type till_date till));
      profit_given = check_match_profit-lem p h3;
    }
  where
    ended_read : (a b : Bool) → (a && b) ≡ false → a ≡ true → b ≡ false
    ended_read a b e k = ground arith
