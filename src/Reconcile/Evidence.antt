-- ===== src/Reconcile/Evidence.antt =====
-- On what evidence the reconcile command closes an intent.
use mathlib.Core.Option.{some-injective}
use mathlib.Core.Path.{subst}
use tinvest.Prelude.{
  ℕ, Bool, true, false, not, ◌&&◌, ◌==◌, ap, sym, ◌∙◌, both_true, text_eq_refl, ◌||◌, ◌≡◌, ◌⊎◌, inl,
  inr, refl, List, [], ◌∷◌, Option, none, some, Text, codes, text_eq, text_eq_sound, is_empty,
  Bool-cases, if_intro, arith, if◌then◌else◌,
}
use tinvest.Errors.{CallError, status_code, grpc_number, is_not_found}
use tinvest.Ledger.{
  Stage, intent_created, send_started, broker_confirmed, broker_rejected, reconciled, other_stage,
  Entry,
}
use tinvest.Ledger.Aggregate.{is_created}
use tinvest.Reconcile.{
  OrderState, Got, got, get_failed, Listed, listed, list_failed, Answers, OrderPayload, Payloads,
  Clock, Target, Resolution, Decision, leave, close_placed, close_not_placed, is_order_kind,
  target_mismatch, placed_or, find_order_by_request_id, intent_created_today,
  resolve_sync_not_found, resolve_async_not_found, resolve_recheck, resolve_lookup, resolve_payload,
  resolve_sent, resolve_checked, resolve_entry, foreign, profile_mismatch, indeterminate,
  unresolved, not_placed, placed,
}

-- The number of the status NOT_FOUND.
abbrev pub not_found_number : ℕ
not_found_number = 5

abbrev pub is_closed : Resolution → Bool
is_closed placed = true
is_closed not_placed = true
is_closed _ = false

-- A member of the day's list.
abbrev pub IsIn : OrderState → List OrderState → Type 0
IsIn s [] = ⊥
IsIn s (x ∷ list) = (x ≡ s) ⊎ IsIn s list

-- The broker showed an order: to either lookup by the client's id, or in the day's list under it.
abbrev pub IsShown : Answers → Entry → OrderState → Type 0
IsShown ans e s =
    (ans.first ≡ got s)
    ⊎ ((ans.second ≡ got s)
        ⊎ ((list : List OrderState) × (ans.today ≡ listed list)
            × IsIn s list
            × (is_empty s.order_request_id ≡ false)
            × (s.order_request_id ≡ e.order_id)))

-- The broker was asked three times for a synchronous order of today, and has it nowhere.
pub record IsAbsent (read : Payloads) (clock : Clock) (ans : Answers) (e : Entry) : Type 0 where
  pub payload : OrderPayload
  pub is_read : read.order e.payload ≡ some payload
  pub synchronous : payload.async ≡ false
  pub is_dated : is_empty payload.created_at ≡ false
  pub created_today : clock.day_of payload.created_at ≡ some ans.now_day
  pub first_error : CallError
  pub first_failed : ans.first ≡ get_failed first_error
  pub first_not_found : grpc_number (status_code first_error) ≡ not_found_number
  pub second_error : CallError
  pub second_failed : ans.second ≡ get_failed second_error
  pub second_not_found : grpc_number (status_code second_error) ≡ not_found_number
  pub list : List OrderState
  pub is_listed : ans.today ≡ listed list
  pub not_listed :
      (s : OrderState)
      → IsIn s list
      → is_empty s.order_request_id ≡ false
      → ¬ (s.order_request_id ≡ e.order_id)

-- What stands behind a decision.
abbrev pub IsSupported : Payloads → Clock → Answers → Entry → Decision → Type 0
IsSupported read clock ans e (leave r) = is_closed r ≡ false
IsSupported read clock ans e (close_placed s tracking) = IsShown ans e s
IsSupported read clock ans e (close_not_placed text) =
    (e.stage ≡ intent_created) ⊎ IsAbsent read clock ans e

find_order-lem :
    (list : List OrderState) (id : Text) (s : OrderState)
    → find_order_by_request_id list id ≡ some s
    → IsIn s list × (is_empty s.order_request_id ≡ false) × (s.order_request_id ≡ id)
unfolding find_order_by_request_id
find_order-lem [] id s h = cc
find_order-lem (x ∷ list) id s h =
    elim (Bool-cases (not (is_empty x.order_request_id) && text_eq x.order_request_id id)) [
      | inl hit ↦ found (rw hit at h) hit
      | inr miss ↦
          let (among, named, same) = find_order-lem list id s (rw miss at h) in
          (inr among, named, same)
    ]
  where
    found :
        some x ≡ some s
        → (not (is_empty x.order_request_id) && text_eq x.order_request_id id) ≡ true
        → IsIn s (x ∷ list) × (is_empty s.order_request_id ≡ false) × (s.order_request_id ≡ id)
    found e hit =
        let same : x ≡ s = some-injective x s e in
        let (named, eq) =
          both_true (not (is_empty x.order_request_id)) (text_eq x.order_request_id id) hit in
        (
          inl same,
          subst (λ y. is_empty y.order_request_id ≡ false) same (ground arith),
          subst (λ y. y.order_request_id ≡ id) same (text_eq_sound x.order_request_id id eq),
        )

find_order-missing :
    (list : List OrderState) (id : Text)
    → find_order_by_request_id list id ≡ none
    → (s : OrderState) → IsIn s list
    → is_empty s.order_request_id ≡ false
    → ¬ (s.order_request_id ≡ id)
unfolding find_order_by_request_id
find_order-missing [] id h s among named same = among
find_order-missing (x ∷ list) id h s among named same =
    elim (Bool-cases (not (is_empty x.order_request_id) && text_eq x.order_request_id id)) [
      | inl hit ↦ cc (rw hit at h)
      | inr miss ↦ elim among [
        | inl here ↦
            let own : x.order_request_id ≡ id = ap (λ y. y.order_request_id) here ∙ same in
            let given : is_empty x.order_request_id ≡ false =
              ap (λ y. is_empty y.order_request_id) here ∙ named in
            let equal : text_eq x.order_request_id id ≡ true =
              ap (λ t. text_eq x.order_request_id t) (sym own) ∙ text_eq_refl x.order_request_id in
            cc (given, equal, miss)
        | inr later ↦ find_order-missing list id (rw miss at h) s later named same
      ]
    ]

dated_today :
    (clock : Clock) (now_day : ℕ) (created_at : Text)
    → intent_created_today clock now_day created_at ≡ true
    → (is_empty created_at ≡ false) × (clock.day_of created_at ≡ some now_day)
unfolding intent_created_today
dated_today clock now_day created_at h = elim (Bool-cases (is_empty created_at)) [
  | inl empty ↦ cc (rw empty at h)
  | inr given ↦ (given, by_day (clock.day_of created_at) (rw given at h))
]
  where
    by_day :
        (o : Option ℕ)
        → elim o [ none ↦ false | some day ↦ day == now_day ] ≡ true
        → o ≡ some now_day
    by_day none e = cc
    by_day (some day) e = ap (λ n. some n) (ground arith)

is_not_found-lem : (err : CallError) → is_not_found err ≡ true → grpc_number (status_code err) ≡ 5
is_not_found-lem err h = ground arith

pub is_created-lem : (s : Stage) → is_created s ≡ true → s ≡ intent_created
is_created-lem intent_created h = refl
is_created-lem send_started h = cc
is_created-lem broker_confirmed h = cc
is_created-lem broker_rejected h = cc
is_created-lem reconciled h = cc
is_created-lem (other_stage t) h = cc

abbrev AreOpen : Option Resolution → Type 0
AreOpen none = Unit
AreOpen (some r) = is_closed r ≡ false

module _ (read : Payloads) (clock : Clock) (ans : Answers) (e : Entry) where
  -- A day's list that has the order, or not.
  from_list :
      (list : List OrderState) (tracking : Text) (otherwise : Decision)
      → ans.today ≡ listed list
      → (find_order_by_request_id list e.order_id ≡ none → IsSupported read clock ans e otherwise)
      → (o : Option OrderState) → find_order_by_request_id list e.order_id ≡ o
      → IsSupported read clock ans e (placed_or tracking otherwise o)
  from_list list tracking otherwise t rest none h = rest h
  from_list list tracking otherwise t rest (some s) h =
      let (among, named, same) = find_order-lem list e.order_id s h in
      inr (inr (list, t, among, named, same))

  async-IsSupported :
      (l : Listed) → ans.today ≡ l → IsSupported read clock ans e (resolve_async_not_found ans e l)
  unfolding resolve_async_not_found
  async-IsSupported (list_failed err) h = refl
  async-IsSupported (listed list) h =
      from_list list ans.today_info.tracking_id (leave unresolved) h (λ n. refl)
        (find_order_by_request_id list e.order_id) refl

  module _ (payload : OrderPayload) (reads : read.order e.payload ≡ some payload)
      (synchronous : payload.async ≡ false) (err1 : CallError) (first : ans.first ≡ get_failed err1)
      (missing1 : is_not_found err1 ≡ true) where
    module _ (err2 : CallError) (second : ans.second ≡ get_failed err2)
        (missing2 : is_not_found err2 ≡ true) where
      dated :
          (list : List OrderState)
          → ans.today ≡ listed list
          → find_order_by_request_id list e.order_id ≡ none
          → (b : Bool) → intent_created_today clock ans.now_day payload.created_at ≡ b
          → IsSupported read clock ans e
              (if b then close_not_placed (codes "not-placed") else leave unresolved)
      dated list t missing false h = refl
      dated list t missing true h = inr (record {
        payload = payload;
        is_read = reads;
        synchronous = synchronous;
        is_dated = (dated_today clock ans.now_day payload.created_at h).0;
        created_today = (dated_today clock ans.now_day payload.created_at h).1;
        first_error = err1;
        first_failed = first;
        first_not_found = is_not_found-lem err1 missing1;
        second_error = err2;
        second_failed = second;
        second_not_found = is_not_found-lem err2 missing2;
        list = list;
        is_listed = t;
        not_listed = find_order-missing list e.order_id missing;
      })

      sync-IsSupported :
          (l : Listed)
          → ans.today ≡ l
          → IsSupported read clock ans e (resolve_sync_not_found clock payload ans e l)
      unfolding resolve_sync_not_found
      sync-IsSupported (list_failed err) h = refl
      sync-IsSupported (listed list) h =
          from_list list ans.today_info.tracking_id
            (if intent_created_today clock ans.now_day payload.created_at
              then close_not_placed (codes "not-placed")
              else leave unresolved)
            h (λ n. dated list h n (intent_created_today clock ans.now_day payload.created_at) refl)
            (find_order_by_request_id list e.order_id) refl

    recheck-IsSupported :
        (g : Got)
        → ans.second ≡ g
        → IsSupported read clock ans e (resolve_recheck clock payload ans e g)
    unfolding resolve_recheck
    recheck-IsSupported (got s) h = inr (inl h)
    recheck-IsSupported (get_failed err2) h = elim (Bool-cases (is_not_found err2)) [
      | inl missing2 ↦ rw missing2 (sync-IsSupported err2 h missing2 ans.today refl)
      | inr other ↦ rw other refl
    ]

  lookup-IsSupported :
      (payload : OrderPayload)
      → read.order e.payload ≡ some payload
      → (g : Got) → ans.first ≡ g
      → IsSupported read clock ans e (resolve_lookup clock payload ans e g)
  unfolding resolve_lookup
  lookup-IsSupported payload reads (got s) h = inl h
  lookup-IsSupported payload reads (get_failed err1) h = elim (Bool-cases (is_not_found err1)) [
    | inr other ↦ rw other refl
    | inl missing ↦ rw missing (
        if_intro (IsSupported read clock ans e) payload.async
          (resolve_async_not_found ans e ans.today) (resolve_recheck clock payload ans e ans.second)
          (λ async. async-IsSupported ans.today refl)
          (λ sync. recheck-IsSupported payload reads sync err1 h missing ans.second refl))
  ]

  sent-IsSupported :
      (o : Option OrderPayload)
      → read.order e.payload ≡ o
      → IsSupported read clock ans e (resolve_payload clock ans e o)
  unfolding resolve_payload
  sent-IsSupported none h = refl
  sent-IsSupported (some payload) h = lookup-IsSupported payload h ans.first refl

  checked-IsSupported :
      (o : Option Resolution)
      → AreOpen o
      → IsSupported read clock ans e (resolve_checked read clock ans e o)
  unfolding resolve_checked resolve_sent
  checked-IsSupported (some r) h = h
  checked-IsSupported none h =
      if_intro (IsSupported read clock ans e) (is_created e.stage)
        (close_not_placed (codes "not-placed-before-send")) (resolve_sent read clock ans e)
        (λ early. inl (is_created-lem e.stage early))
        (λ sent.
          if_intro (IsSupported read clock ans e)
            (is_empty e.order_id || is_empty e.intent.account_id) (leave indeterminate)
            (resolve_payload clock ans e (read.order e.payload)) (λ blank. refl)
            (λ named. sent-IsSupported (read.order e.payload) refl))

target_mismatch-AreOpen :
    (read : Payloads) (target : Target) (e : Entry) → AreOpen (target_mismatch read target e)
unfolding target_mismatch
target_mismatch-AreOpen read target e =
    if_intro AreOpen (not (text_eq e.intent.profile target.profile)) (some profile_mismatch) _
      (λ p. refl) (λ p. endpoint-AreOpen (read.endpoint e.payload))
  where
    endpoint-AreOpen :
        (o : Option Text)
        → AreOpen (elim o [
          | none ↦ some indeterminate
          | some endpoint ↦
              if is_empty endpoint
              then some indeterminate
              else if not (text_eq endpoint target.endpoint)
              then some profile_mismatch
              else none
        ])
    endpoint-AreOpen none = refl
    endpoint-AreOpen (some endpoint) =
        if_intro AreOpen (is_empty endpoint) (some indeterminate) _ (λ p. refl)
          (λ p.
            if_intro AreOpen (not (text_eq endpoint target.endpoint)) (some profile_mismatch) none
              (λ q. refl) (λ q. tt))

-- Whatever the broker answers, an intent is closed as placed only if the broker showed the order: to
-- one of the two lookups by the client's id, or in the day's list under that very id, which is not
-- empty. It is closed as not placed only if its reported line is the created one, before any send,
-- or if the order is a synchronous one of today that both lookups answered with NOT_FOUND and that
-- the day's list does not have. An intent that is left open has neither of the two names.
pub resolve_entry-IsSupported :
    (read : Payloads) (clock : Clock) (target : Target) (ans : Answers) (e : Entry)
    → IsSupported read clock ans e (resolve_entry read clock target ans e)
unfolding resolve_entry
resolve_entry-IsSupported read clock target ans e =
    if_intro (IsSupported read clock ans e) (not (is_order_kind e.intent.kind)) (leave foreign)
      (resolve_checked read clock ans e (target_mismatch read target e)) (λ other. refl)
      (λ own.
        checked-IsSupported read clock ans e (target_mismatch read target e)
          (target_mismatch-AreOpen read target e))
