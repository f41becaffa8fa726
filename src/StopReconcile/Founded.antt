-- ===== src/StopReconcile/Founded.antt =====
-- What `stop-orders reconcile` closes an intent on, in terms of the request and the broker's list.
use mathlib.Core.Path.{subst}
use mathlib.Core.Option.{some-injective}
use tinvest.Prelude.{
  ℕ, ◌+◌, ◌≤◌, ◌≡◌, ◌⊎◌, inl, inr, refl, sym, ap, ◌∙◌, Bool, true, false, ◌&&◌, List, [], ◌∷◌,
  Option, none, some, Text, text_eq, text_eq_sound, Bool-cases, Option-cases, both_true, leb→le,
  if◌then◌else◌,
}
use tinvest.Ledger.{intent_created, Entry}
use tinvest.StopMatch.{
  StopOrder, StopOrderPayload, Stamps, is_match, match_stop_orders, in_window,
  stop_creation_matches,
}
use tinvest.StopMatch.Agrees.{Agrees, is_match-Reflects}
use tinvest.StopMatch.Complete.{either_false, text_eq-true}
use tinvest.Reconcile.{Payloads, Target}
use tinvest.Reconcile.Evidence.{is_closed, is_created-lem}
use tinvest.StopReconcile.Asking.{IsAsking, stop_request-IsAsking}
use tinvest.StopReconcile.{
  StopListed, StopPayloads, StopState, is_consumed, StopDecision, stop_leave, stop_not_placed,
  stop_placed, StopRequest, stop_request, resolve_stop, stop_listed, stop_list_failed, find_list,
  fetched, list_for,
}
use tinvest.StopReconcile.Evidence.{IsListFor, IsStopSupported, resolve_stop-IsSupported}

-- A member of the account's list.
abbrev pub IsStopIn : StopOrder → List StopOrder → Type 0
IsStopIn s [] = ⊥
IsStopIn s (x ∷ list) = (x ≡ s) ⊎ IsStopIn s list

match_stop_orders_sound :
    (at : Stamps) (p : StopOrderPayload) (list : List StopOrder) (s : StopOrder)
    → IsStopIn s (match_stop_orders at p list)
    → IsStopIn s list × Agrees at p s
unfolding match_stop_orders
match_stop_orders_sound at p [] s h = absurd h
match_stop_orders_sound at p (x ∷ list) s h =
    by_test (is_match at p x) (match_stop_orders at p list) refl
      (match_stop_orders_sound at p list s) h
  where
    by_test :
        (b : Bool) (rest : List StopOrder)
        → is_match at p x ≡ b
        → (IsStopIn s rest → IsStopIn s list × Agrees at p s)
        → IsStopIn s (if b then x ∷ rest else rest)
        → IsStopIn s (x ∷ list) × Agrees at p s
    by_test true rest e k (inl here) =
        (inl here, subst (Agrees at p) here ((is_match-Reflects at p x).0 e))
    by_test true rest e k (inr later) = (inr (k later).0, (k later).1)
    by_test false rest e k later = (inr (k later).0, (k later).1)

match_stop_orders_complete :
    (at : Stamps) (p : StopOrderPayload) (list : List StopOrder) (s : StopOrder)
    → IsStopIn s list
    → Agrees at p s
    → IsStopIn s (match_stop_orders at p list)
unfolding match_stop_orders
match_stop_orders_complete at p [] s h agrees = absurd h
match_stop_orders_complete at p (x ∷ list) s h agrees =
    by_test (is_match at p x) (match_stop_orders at p list) refl
      (λ later. match_stop_orders_complete at p list s later agrees) h
  where
    by_test :
        (b : Bool) (rest : List StopOrder)
        → is_match at p x ≡ b
        → (IsStopIn s list → IsStopIn s rest)
        → IsStopIn s (x ∷ list)
        → IsStopIn s (if b then x ∷ rest else rest)
    by_test true rest e k (inl here) = inl here
    by_test true rest e k (inr later) = inr (k later)
    by_test false rest e k (inr later) = k later
    by_test false rest e k (inl here) =
        let hit : is_match at p x ≡ true =
          (is_match-Reflects at p x).1 (subst (Agrees at p) (sym here) agrees) in
        cc (hit, e)

-- A list that an earlier call of the run got for the account.
abbrev pub IsHeld : Text → List StopOrder → List (Text × List StopOrder) → Type 0
IsHeld account list [] = ⊥
IsHeld account list (pair ∷ pairs) =
    ((pair.0 ≡ account) × (pair.1 ≡ list)) ⊎ IsHeld account list pairs

-- The account's list: from an earlier call of the run, or from the entry's own.
abbrev pub IsAccountList : Entry → StopListed → StopState → List StopOrder → Type 0
IsAccountList e answer st list =
    IsHeld e.intent.account_id list st.lists ⊎ (answer ≡ stop_listed list)

find_list-IsHeld :
    (account : Text) (pairs : List (Text × List StopOrder)) (list : List StopOrder)
    → find_list account pairs ≡ some list
    → IsHeld account list pairs
find_list-IsHeld account [] list h = cc
find_list-IsHeld account ((a, l) ∷ pairs) list h = elim (Bool-cases (text_eq a account)) [
  | inl own ↦ inl (text_eq_sound a account own, some-injective l list (rw own at h))
  | inr other ↦ inr (find_list-IsHeld account pairs list (rw other at h))
]

list_for-IsAccountList :
    (e : Entry) (answer : StopListed) (st : StopState) (list : List StopOrder)
    → IsListFor e answer st list
    → IsAccountList e answer st list
unfolding list_for
list_for-IsAccountList e answer st list h =
    elim (Option-cases (find_list e.intent.account_id st.lists)) [
      | inl new ↦ inr (by_answer answer (rw (new, list_for) at h))
      | inr (found, held) ↦
          inl
            (find_list-IsHeld e.intent.account_id st.lists list (held ∙ (rw (held, list_for) at h)))
    ]
  where
    by_answer :
        (l : StopListed)
        → (fetched e.intent.account_id l st.lists).0 ≡ some list
        → l ≡ stop_listed list
    by_answer (stop_list_failed err) k = cc k
    by_answer (stop_listed found) k = ap stop_listed (some-injective found list k)

-- A stop order that is not assigned to an intent of the account.
abbrev pub IsTaken : Text → Text → List (Text × Text) → Type 0
IsTaken account id [] = ⊥
IsTaken account id (pair ∷ pairs) = ((pair.0 ≡ account) × (pair.1 ≡ id)) ⊎ IsTaken account id pairs

is_consumed-IsTaken :
    (account id : Text) (pairs : List (Text × Text))
    → is_consumed account id pairs ≡ false
    → ¬ IsTaken account id pairs
is_consumed-IsTaken account id [] h taken = taken
is_consumed-IsTaken account id ((a, i) ∷ pairs) h (inl here) =
    let equal_a = text_eq-true a account here.0 in
    let equal_i = text_eq-true i id here.1 in cc (rw (equal_a, equal_i) at h)
is_consumed-IsTaken account id ((a, i) ∷ pairs) h (inr later) =
    is_consumed-IsTaken account id pairs (either_false (text_eq a account && text_eq i id) _ h).1
      later

-- The stop order of an intent: in the account's list, in agreement with the request, the only one, not
-- yet assigned, and created from 5 s before the intent's line to 120 s behind it.
pub record IsItsStop (stops : StopPayloads) (at : Stamps) (e : Entry) (answer : StopListed)
    (st : StopState) (s : StopOrder) : Type 0 where
  pub payload : StopOrderPayload
  pub asking : IsAsking stops at e payload
  pub list : List StopOrder
  pub is_listed : IsAccountList e answer st list
  pub among : IsStopIn s list
  pub agrees : Agrees at payload s
  pub only : (t : StopOrder) → IsStopIn t list → Agrees at payload t → s ≡ t
  pub free : ¬ IsTaken e.intent.account_id s.stop_order_id st.consumed
  pub created : ℕ
  pub is_created_at : s.create_date ≡ some created
  pub asked : ℕ
  pub is_asked_at : at.nano_moment payload.created_at ≡ some asked
  pub early : asked ≤ created + 5_000_000_000
  pub late : created ≤ asked + 120_000_000_000

-- An intent that was never sent, with no stop order that its request could stand for.
pub record HasNoStop (stops : StopPayloads) (at : Stamps) (e : Entry) (answer : StopListed)
    (st : StopState) : Type 0 where
  pub payload : StopOrderPayload
  pub asking : IsAsking stops at e payload
  pub list : List StopOrder
  pub is_listed : IsAccountList e answer st list
  pub nothing : (t : StopOrder) → IsStopIn t list → ¬ Agrees at payload t
  pub unsent : e.stage ≡ intent_created

abbrev pub IsFounded :
    StopPayloads → Stamps → Entry → StopListed → StopState → StopDecision → Type 0
IsFounded stops at e answer st (stop_leave r) = is_closed r ≡ false
IsFounded stops at e answer st stop_not_placed = HasNoStop stops at e answer st
IsFounded stops at e answer st (stop_placed s) = IsItsStop stops at e answer st s

in_window-lem :
    (a b : Option ℕ)
    → in_window a b ≡ true
    → (asked created : ℕ) × (a ≡ some asked)
      × (b ≡ some created)
      × (asked ≤ created + 5_000_000_000)
      × (created ≤ asked + 120_000_000_000)
in_window-lem none b h = cc
in_window-lem (some a) none h = cc
in_window-lem (some a) (some b) h =
    let (early, late) = both_true _ _ h in
    (a, b, refl, refl, leb→le a (b + 5_000_000_000) early, leb→le b (a + 120_000_000_000) late)

-- Whatever the broker lists, a stop-order intent is closed as placed only as a stop order of its
-- account's list that agrees with its journaled request in every field, is the only one of the list
-- that does, is not assigned yet, and was created from 5 s before the request to 120 s behind it; and
-- as not placed only if nothing in the list agrees with the request and the intent's reported line is
-- the created one. The request is then readable and complete, and that of a stop-order placement with
-- an account and an order id. An intent that is left open has neither of the two names.
pub resolve_stop-IsFounded :
    (read : Payloads) (stops : StopPayloads) (at : Stamps) (target : Target) (e : Entry)
    (answer : StopListed) (st : StopState)
    → IsFounded stops at e answer st (resolve_stop read stops at target e answer st).0
unfolding stop_creation_matches
resolve_stop-IsFounded read stops at target e answer st =
    founded (resolve_stop read stops at target e answer st).0
      (resolve_stop-IsSupported read stops at target e answer st)
  where
    request : StopRequest
    request = stop_request read stops at target e

    founded :
        (d : StopDecision)
        → IsStopSupported at request e answer st d
        → IsFounded stops at e answer st d
    founded (stop_leave r) h = h
    founded stop_not_placed ev = record {
      payload = ev.payload;
      asking = stop_request-IsAsking read stops at target e ev.payload ev.is_asked;
      list = ev.list;
      is_listed = list_for-IsAccountList e answer st ev.list ev.is_listed;
      nothing = λ t among agrees.
          subst (IsStopIn t) ev.holds.0
            (match_stop_orders_complete at ev.payload ev.list t among agrees);
      unsent = is_created-lem e.stage ev.holds.1;
    }
    founded (stop_placed s) ev =
        let (only, window, free) = ev.holds in
        let (among, agrees) =
          match_stop_orders_sound at ev.payload ev.list s
            (subst (IsStopIn s) (sym only) (inl refl)) in
        let (asked, created, a, c, early, late) =
          in_window-lem (at.nano_moment ev.payload.created_at) s.create_date window in
        record {
          payload = ev.payload;
          asking = stop_request-IsAsking read stops at target e ev.payload ev.is_asked;
          list = ev.list;
          is_listed = list_for-IsAccountList e answer st ev.list ev.is_listed;
          among = among;
          agrees = agrees;
          only = λ t there same. single t (
              subst (IsStopIn t) only
                (match_stop_orders_complete at ev.payload ev.list t there same));
          free = is_consumed-IsTaken e.intent.account_id s.stop_order_id st.consumed free;
          created = created;
          is_created_at = c;
          asked = asked;
          is_asked_at = a;
          early = early;
          late = late;
        }
      where
        single : (t : StopOrder) → IsStopIn t (s ∷ []) → s ≡ t
        single t (inl here) = here
        single t (inr there) = absurd there
