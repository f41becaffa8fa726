-- ===== src/PlaceCommand/Gates.antt =====
-- What a run of `orders place` has passed when it places an order.
use mathlib.Core.Path.{subst}
use tinvest.Prelude.{
  ℕ, ◌≡◌, inl, inr, refl, sym, ap, ◌∙◌, Bool, true, false, not, ◌&&◌, Option, none, some, is_empty,
  Bool-cases, both_true, Text, ◌%◌, ◌==◌, arith, if◌then◌else◌,
}
use tinvest.Prelude.Int.{ℤ, pos, is_pos}
use tinvest.Ledger.{Journal}
use tinvest.Decimal.{Quotation}
use tinvest.Orders.{order_type, validate_basics, validate_price_increment}
use tinvest.Orders.Shape.{is_none, is_limit, validate_basics-order_type}
use tinvest.Orders.Increment.{nanos, IsModest, validate_price_increment-lem}
use tinvest.Policy.{
  Policy, OrderIntent, KillPath, absent, check_kill_switch, check_local, check_resolved,
  check_open_orders, check_market, check_lots,
}
use tinvest.Policy.Rules.{IsWithin, kill_clear-lem, checks-IsWithin}
use tinvest.Placement.{Placed, place_exec}
use tinvest.PlaceRequest.{
  PlaceInput, ResolvedPlace, Built, built, refused, build_place, Instrument, Settings, local_intent,
  resolved_intent, place_intent,
}
use tinvest.PlaceRequest.Accepted.{IsAccepted, build_place-IsAccepted}
use tinvest.PlaceCommand.{
  Stop, Found, found, not_found, Opened, opened, open_failed, World, Library, PlaceRun, previewed,
  executed, stop_on, stop_if, check_kill, counts_orders, run_send, run_counted, run_open_orders,
  run_resolved, run_policy, run_built, run_place,
}

stop_on-passed :
    {A : Type 0} (why : A → Stop) (o : Option A) (rest : PlaceRun) (p : Placed)
    → stop_on why o rest ≡ executed p
    → (o ≡ none) × (rest ≡ executed p)
stop_on-passed why none rest p h = (refl, h)
stop_on-passed why (some a) rest p h = cc h

stop_if-passed :
    (b : Bool) (why : Stop) (rest : PlaceRun) (p : Placed)
    → stop_if b why rest ≡ executed p
    → (b ≡ false) × (rest ≡ executed p)
stop_if-passed false why rest p h = (refl, h)
stop_if-passed true why rest p h = cc h

-- The open orders that the cap was checked against, where there is a cap.
abbrev IsCounted : World → Option Policy → ℤ → Type 0
IsCounted w pol n =
    (check_open_orders pol n ≡ none)
    × (counts_orders pol ≡ true → (k : ℕ) × (n ≡ pos k) × (w.open_orders ≡ opened k))

-- A placement that ran, from behind its gates.
pub record IsPassed (lib : Library) (w : World) (s : Settings) (i : PlaceInput) (j : Journal)
    (p : Placed) : Type 0 where
  pub rp : ResolvedPlace
  pub accepted : IsAccepted w.random i rp
  pub positive : is_pos i.quantity ≡ true
  pub shaped : (if is_limit rp.order_type then not (is_none rp.price) else is_none rp.price) ≡ true
  pub real : i.dry_run ≡ false
  pub has_account : is_empty s.account_id ≡ false
  pub policy : Option Policy
  pub is_loaded : w.loaded ≡ some policy
  pub inst : Instrument
  pub is_found : w.instrument ≡ found inst
  pub stepped :
      (price step : Quotation)
      → rp.price ≡ some price
      → inst.min_price_increment ≡ some step
      → IsModest price
      → IsModest step
      → (nanos step == 0) ≡ false
      → nanos price % nanos step ≡ 0
  pub open_orders : ℤ
  pub counted :
      (q : Policy)
      → policy ≡ some q
      → is_pos q.max_open_orders ≡ true
      → (k : ℕ) × (open_orders ≡ pos k) × (w.open_orders ≡ opened k)
  pub within :
      (q : Policy)
      → policy ≡ some q
      → IsWithin lib.fold q w.kill_first (resolved_intent (local_intent rp) inst) open_orders
        × (is_empty q.kill_switch_file ≡ false → w.kill_last ≡ absent)
  pub placed_as :
      p
      ≡ place_exec lib.sum lib.describe w.disk
          (place_intent lib.write s inst.uid w.start rp)
          rp.order_id
          w.events
          w.reply
          j

uncounted : (pol : Option Policy) → counts_orders pol ≡ false → check_open_orders pol (pos 0) ≡ none
unfolding check_open_orders
uncounted none f = refl
uncounted (some q) f = rw f refl

open_cap-lem :
    (w : World) (pol : Option Policy) (rest : PlaceRun) (p : Placed)
    → run_open_orders w pol rest ≡ executed p
    → (n : ℤ) × IsCounted w pol n × (rest ≡ executed p)
unfolding run_open_orders
open_cap-lem w pol rest p h = elim (Bool-cases (counts_orders pol)) [
  | inr free ↦ (pos 0, (uncounted pol free, λ k. cc (free, k)), rw free at h)
  | inl capped ↦
      let (held, after) = stop_if-passed _ _ _ _ (rw capped at h) in
      let (n, o, c, done) = listed w.open_orders after in (pos n, (c, λ k. (n, refl, o)), done)
]
  where
    listed :
        (o : Opened)
        → run_counted pol o rest ≡ executed p
        → (n : ℕ) × (o ≡ opened n) × (check_open_orders pol (pos n) ≡ none) × (rest ≡ executed p)
    listed (open_failed err info) e = cc e
    listed (opened n) e = let (c, done) = stop_on-passed _ _ _ _ e in (n, refl, c, done)

check_local-resolved_intent :
    (pol : Option Policy) (path : KillPath) (o : OrderIntent) (inst : Instrument)
    → check_local pol path (resolved_intent o inst) ≡ check_local pol path o
unfolding check_local check_market check_lots resolved_intent
check_local-resolved_intent none path o inst = refl
check_local-resolved_intent (some p) path o inst = refl

send-lem :
    (lib : Library) (w : World) (s : Settings) (pol : Option Policy) (rp : ResolvedPlace)
    (inst : Instrument) (j : Journal) (p : Placed)
    → run_send lib w s pol rp inst j ≡ executed p
    → (check_kill pol w.kill_last ≡ none)
      × (p
          ≡ place_exec lib.sum lib.describe w.disk
              (place_intent lib.write s inst.uid w.start rp)
              rp.order_id
              w.events
              w.reply
              j)
unfolding run_send
send-lem lib w s pol rp inst j p h =
    let (ready, h1) = stop_if-passed _ _ _ _ h in
    let (clean, h2) = stop_on-passed _ _ _ _ h1 in (clean, same h2)
  where
    run_of : PlaceRun → Placed
    run_of (executed q) = q
    run_of _ = p

    same : {q : Placed} → executed q ≡ executed p → p ≡ q
    same e = sym (ap run_of e)

kill-lem :
    (pol : Option Policy) (q : Policy) (path : KillPath)
    → check_kill pol path ≡ none
    → pol ≡ some q
    → check_kill_switch q path ≡ none
unfolding check_kill
kill-lem none q path h e = cc e
kill-lem (some p) q path h e = subst (λ o. check_kill o path ≡ none) e h

shaped-lem :
    (flag : Text) (rp : ResolvedPlace) (quantity : ℤ)
    → order_type flag ≡ some rp.order_type
    → rp.lots ≡ quantity
    → validate_basics rp.order_type rp.lots rp.price ≡ none
    → (is_pos quantity ≡ true)
      × ((if is_limit rp.order_type then not (is_none rp.price) else is_none rp.price) ≡ true)
shaped-lem flag rp quantity typed lots h =
    let exact =
      sym (validate_basics-order_type flag rp.order_type rp.lots rp.price typed)
      ∙ ap (λ o. is_none o) h in
    let (positive, shaped) =
      both_true (is_pos rp.lots)
        (if is_limit rp.order_type then not (is_none rp.price) else is_none rp.price) exact in
    (ap (λ z. is_pos z) (sym lots) ∙ positive, shaped)

stepped-lem :
    (p s : Option Quotation)
    → validate_price_increment p s ≡ none
    → (price step : Quotation) → p ≡ some price
    → s ≡ some step
    → IsModest price
    → IsModest step
    → (nanos step == 0) ≡ false
    → nanos price % nanos step ≡ 0
stepped-lem p s h price step is_price is_step small_price small_step given =
    let same : validate_price_increment (some price) (some step) ≡ none =
      subst (λ x. validate_price_increment x (some step) ≡ none) is_price
        (subst (λ x. validate_price_increment p x ≡ none) is_step h) in
    let exact = sym (validate_price_increment-lem price step small_price small_step) ∙ same in
    ground arith

module _ (lib : Library) (w : World) (s : Settings) (i : PlaceInput) (j : Journal) (p : Placed)
    (rp : ResolvedPlace) (accepted : IsAccepted w.random i rp)
    (shaped : validate_basics rp.order_type rp.lots rp.price ≡ none)
    (has_account : (not rp.dry_run && is_empty s.account_id) ≡ false) where
  resolved-lem :
      (pol : Option Policy)
      → w.loaded ≡ some pol
      → check_local pol w.kill_first (local_intent rp) ≡ none
      → (f : Found) → w.instrument ≡ f
      → run_resolved lib w s pol rp j f ≡ executed p
      → IsPassed lib w s i j p
  unfolding run_resolved
  resolved-lem pol loaded local (not_found c) is h = cc h
  resolved-lem pol loaded local (found inst) is h =
      let o = local_intent rp in
      let (resolved, h1) = stop_on-passed _ _ _ _ h in
      let (stepped, h2) = stop_on-passed _ _ _ _ h1 in
      let (real, h3) = not_dry rp.dry_run h2 in
      let (n, counted, h4) = open_cap-lem w pol _ p h3 in
      let (clean, run) = send-lem lib w s pol rp inst j p h4 in
      let shape = shaped-lem i.type_name rp i.quantity accepted.typed accepted.same_lots shaped in
      record {
        rp = rp;
        accepted = accepted;
        positive = shape.0;
        shaped = shape.1;
        real = sym accepted.same_dry_run ∙ real;
        has_account = ground arith;
        policy = pol;
        is_loaded = loaded;
        inst = inst;
        is_found = is;
        stepped = stepped-lem rp.price inst.min_price_increment stepped;
        open_orders = n;
        counted = λ q e. counted_for q pol e counted.1;
        within = λ q e. (
          checks-IsWithin lib.fold q w.kill_first (resolved_intent o inst) n
              (subst (λ x. check_local x w.kill_first (resolved_intent o inst) ≡ none) e
                (check_local-resolved_intent pol w.kill_first o inst ∙ local))
              (subst (λ x. check_resolved lib.fold x (resolved_intent o inst) ≡ none) e resolved)
              (subst (λ x. check_open_orders x n ≡ none) e counted.0),
          kill_clear-lem q w.kill_last (kill-lem pol q w.kill_last clean e),
        );
        placed_as = run;
      }
    where
      counted_for :
          {n : ℤ} (q : Policy) (o : Option Policy)
          → o ≡ some q
          → (counts_orders o ≡ true → (k : ℕ) × (n ≡ pos k) × (w.open_orders ≡ opened k))
          → is_pos q.max_open_orders ≡ true
          → (k : ℕ) × (n ≡ pos k) × (w.open_orders ≡ opened k)
      counted_for q o e k capped = k (ap (λ x. counts_orders x) e ∙ capped)

      not_dry :
          {rest : PlaceRun} (b : Bool)
          → (if b then previewed else rest) ≡ executed p
          → (b ≡ false) × (rest ≡ executed p)
      not_dry true e = cc e
      not_dry false e = (refl, e)

  policy-lem :
      (o : Option (Option Policy))
      → w.loaded ≡ o
      → run_policy lib w s rp j o ≡ executed p
      → IsPassed lib w s i j p
  unfolding run_policy
  policy-lem none is h = cc h
  policy-lem (some pol) is h =
      let (local, h1) = stop_on-passed _ _ _ _ h in
      let (online, h2) = stop_on-passed _ _ _ _ h1 in resolved-lem pol is local w.instrument refl h2

built-lem :
    (lib : Library) (w : World) (s : Settings) (i : PlaceInput) (j : Journal) (p : Placed)
    (b : Built)
    → build_place w.random i ≡ b
    → run_built lib w s j b ≡ executed p
    → IsPassed lib w s i j p
unfolding run_built
built-lem lib w s i j p (refused e) is h = cc h
built-lem lib w s i j p (built rp) is h =
    let (shaped, h1) = stop_on-passed _ _ _ _ h in
    let (account, h2) = stop_if-passed _ _ _ _ h1 in
    policy-lem lib w s i j p rp (build_place-IsAccepted w.random i rp is) shaped account w.loaded
      refl h2

-- A run of `orders place` that reaches the placement has passed its gates: its request stands for the
-- input, whose quantity is positive, and has a price just if its type is limit; the input asks for no
-- dry run and an account is named; the policy file was read, and if there is a policy the order on the
-- resolved instrument is within its rules (kill path, market orders, caps, allowlist and notional in
-- the cap's currency), with the open orders that were listed under the cap, and the kill path was
-- clean at both checks; where the price and the instrument's step are below 9.2 * 10^9 in magnitude, of
-- the contract's shape, and the step is not zero, the price is an exact multiple of it; and the
-- placement is that of the request's intent.
pub run_place-IsPassed :
    (lib : Library) (w : World) (s : Settings) (i : PlaceInput) (j : Journal) (p : Placed)
    → run_place lib w s i j ≡ executed p
    → IsPassed lib w s i j p
unfolding run_place
run_place-IsPassed lib w s i j p h = built-lem lib w s i j p (build_place w.random i) refl h
