-- ===== src/PlaceCommand/Runs.antt =====
-- The runs of `orders place` that pass every gate, and what their placement leaves.
use tinvest.Prelude.{
  ℕ, ◌≡◌, refl, ap, ◌∙◌, Bool, true, false, not, [], ◌∷◌, Option, none, some, Text, is_empty, arith,
  if◌then◌else◌,
}
use tinvest.Prelude.Int.{pos}
use tinvest.Ledger.{Journal}
use tinvest.Orders.{validate_basics, validate_price_increment}
use tinvest.Policy.{Policy, check_local, check_resolved, check_open_orders}
use tinvest.Placement.{Placed, place_exec}
use tinvest.Identifiers.{validate_order_id}
use tinvest.PlaceRequest.{
  PlaceInput, ResolvedPlace, built, build_place, Instrument, Settings, local_intent,
  resolved_intent, place_intent,
}
use tinvest.PlaceCommand.{
  Stop, not_locked, previewed, found, opened, World, Library, PlaceRun, executed, stop_on, stop_if,
  check_kill, counts_orders, run_send, run_counted, run_open_orders, run_resolved, run_policy,
  run_built, run_place,
}

stop_on-none :
    {A : Type 0} (why : A → Stop) (o : Option A) (rest : PlaceRun)
    → o ≡ none
    → stop_on why o rest ≡ rest
stop_on-none why o rest h = ap (λ x. stop_on why x rest) h

stop_if-false : (b : Bool) (why : Stop) (rest : PlaceRun) → b ≡ false → stop_if b why rest ≡ rest
stop_if-false b why rest h = ap (λ x. stop_if x why rest) h

-- The gates of a run, open.
pub record IsOpen (lib : Library) (w : World) (s : Settings) (rp : ResolvedPlace)
    (inst : Instrument) (pol : Option Policy) (n : ℕ) : Type 0 where
  pub shaped : validate_basics rp.order_type rp.lots rp.price ≡ none
  pub real : rp.dry_run ≡ false
  pub has_account : is_empty s.account_id ≡ false
  pub is_loaded : w.loaded ≡ some pol
  pub local : check_local pol w.kill_first (local_intent rp) ≡ none
  pub online : w.connected ≡ none
  pub is_found : w.instrument ≡ found inst
  pub resolved : check_resolved lib.fold pol (resolved_intent (local_intent rp) inst) ≡ none
  pub stepped : validate_price_increment rp.price inst.min_price_increment ≡ none
  pub locked : w.locked ≡ true
  pub listed : w.open_orders ≡ opened n
  pub room : check_open_orders pol (pos n) ≡ none
  pub has_ledger : w.ledger_opened ≡ true
  pub clean : check_kill pol w.kill_last ≡ none

module _ (lib : Library) (w : World) (s : Settings) (i : PlaceInput) (j : Journal)
    (rp : ResolvedPlace) (inst : Instrument) (pol : Option Policy) (n : ℕ)
    (g : IsOpen lib w s rp inst pol n) where
  abbrev placement : Placed
  placement =
      place_exec lib.sum lib.describe w.disk (place_intent lib.write s inst.uid w.start rp)
        rp.order_id w.events w.reply j

  send-executes : run_send lib w s pol rp inst j ≡ executed placement
  unfolding run_send
  send-executes = stop_if-false _ _ _ (ap not g.has_ledger) ∙ stop_on-none _ _ _ g.clean

  open_orders-executes : (rest : PlaceRun) → run_open_orders w pol rest ≡ rest
  unfolding run_open_orders
  open_orders-executes rest = either (counts_orders pol)
    where
      counted : run_counted pol w.open_orders rest ≡ rest
      counted = ap (λ o. run_counted pol o rest) g.listed ∙ stop_on-none _ _ _ g.room

      either :
          (b : Bool)
          → (if b
              then stop_if (not w.locked) not_locked (run_counted pol w.open_orders rest)
              else rest)
            ≡ rest
      either true = stop_if-false _ _ _ (ap not g.locked) ∙ counted
      either false = refl

  resolved-executes : run_resolved lib w s pol rp j w.instrument ≡ executed placement
  unfolding run_resolved
  resolved-executes =
      ap (run_resolved lib w s pol rp j) g.is_found
      ∙ stop_on-none _ _ _ g.resolved
      ∙ stop_on-none _ _ _ g.stepped
      ∙ ap (λ b. if b then previewed else run_open_orders w pol (run_send lib w s pol rp inst j))
          g.real
      ∙ open_orders-executes _
      ∙ send-executes

-- A request that is built and whose gates are all open is placed, under its intent.
pub run_place-executes :
    (lib : Library) (w : World) (s : Settings) (i : PlaceInput) (j : Journal) (rp : ResolvedPlace)
    (inst : Instrument) (pol : Option Policy) (n : ℕ)
    → build_place w.random i ≡ built rp
    → IsOpen lib w s rp inst pol n
    → run_place lib w s i j
      ≡ executed (
          place_exec lib.sum lib.describe w.disk
            (place_intent lib.write s inst.uid w.start rp)
            rp.order_id
            w.events
            w.reply
            j)
unfolding run_place run_built run_policy
run_place-executes lib w s i j rp inst pol n is g =
    ap (run_built lib w s j) is
    ∙ stop_on-none _ _ _ g.shaped
    ∙ stop_if-false _ _ _ (ground (arith, g.real, g.has_account))
    ∙ ap (run_policy lib w s rp j) g.is_loaded
    ∙ stop_on-none _ _ _ g.local
    ∙ stop_on-none _ _ _ g.online
    ∙ resolved-executes lib w s i j rp inst pol n g

order_id-given : (id : Text) → validate_order_id id ≡ true → is_empty id ≡ false
unfolding validate_order_id
order_id-given [] h = cc h
order_id-given (c ∷ id) h = refl
