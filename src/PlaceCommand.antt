-- ===== src/PlaceCommand.antt =====
-- cmd/tinvest/orders.go, runPlace: the gates of `orders place`, in their order, in front of placeExec.
-- What the environment answers in a run is its `World`: the policy file, the file system at the kill
-- path at both checks, the connection, the instrument service, the open orders, the ledger's opening
-- and what placeExec sees.
pub mod Gates
pub mod Runs
mod Tests
use tinvest.Prelude.{
  ℕ, Bool, true, false, not, ◌&&◌, List, [], ◌∷◌, Option, none, some, Text, codes, is_empty, length,
  if◌then◌else◌,
}
use tinvest.Prelude.Int.{ℤ, pos, is_pos}
use tinvest.Phase.{CallInfo, RpcStats}
use tinvest.Errors.{Code, CliError, CallError, classify}
use tinvest.Decimal.{Quotation}
use tinvest.Ledger.{Journal}
use tinvest.Orders.{ValidationError, validate_basics, validate_price_increment}
use tinvest.Policy.{
  Policy, OrderIntent, Violation, KillPath, check_kill_switch, check_local, check_resolved,
  check_open_orders,
}
use tinvest.Placement.{Disk, Reply, Placed, call_context, place_exec}
use tinvest.PlaceRequest.{
  PlaceInput, ResolvedPlace, RequestError, Built, built, refused, build_place, Instrument, Settings,
  OrderDocument, local_intent, resolved_intent, place_intent,
}

-- Why a run ends before the placement, each with what stands behind it.
pub data Stop : Type 0 where
  bad_request : RequestError → Stop
  bad_shape : ValidationError → Stop
  no_account bad_policy : Stop
  violated : Violation → Stop
  no_connection : Code → Stop
  no_instrument : Code → Stop
  bad_increment : ValidationError → Stop
  not_locked : Stop
  not_listed : CliError → Stop
  no_ledger : Stop

-- The class of its CLIError.
unfoldable pub stop_code : Stop → Code
stop_code (bad_request RequestError.no_random) = Code.internal
stop_code (bad_request _) = Code.usage
stop_code (bad_shape e) = Code.usage
stop_code no_account = Code.usage
stop_code bad_policy = Code.usage
stop_code (violated v) = Code.policy
stop_code (no_connection c) = c
stop_code (no_instrument c) = c
stop_code (bad_increment e) = Code.usage
stop_code not_locked = Code.internal
stop_code (not_listed e) = e.code
stop_code no_ledger = Code.internal

-- `a.resolveOne`
pub data Found : Type 0 where
  found : Instrument → Found
  not_found : Code → Found

-- `cl.List`: the active orders by number.
pub data Opened : Type 0 where
  opened : ℕ → Opened
  open_failed : CallError → CallInfo → Opened

pub record World : Type 0 where
  pub random : Option (List ℕ)
  pub loaded : Option (Option Policy)
  pub kill_first : KillPath
  pub kill_last : KillPath
  pub connected : Option Code
  pub instrument : Found
  pub locked : Bool
  pub open_orders : Opened
  pub ledger_opened : Bool
  pub start : Text
  pub disk : Disk
  pub events : List RpcStats
  pub reply : Reply

-- The functions that are not the repository's: case folding, checksums, the text of an error, and
-- json.Marshal of the journaled document.
pub record Library : Type 0 where
  pub fold : Text → Text → Bool
  pub sum : Text → Text
  pub describe : CallError → Text
  pub write : OrderDocument → Text

-- A run stops with the journal as it was, previews, or places.
pub data PlaceRun : Type 0 where
  stopped : Stop → PlaceRun
  previewed : PlaceRun
  executed : Placed → PlaceRun

abbrev pub stop_on : {A : Type 0} → (A → Stop) → Option A → PlaceRun → PlaceRun
stop_on why (some a) rest = stopped (why a)
stop_on why none rest = rest

abbrev pub stop_if : Bool → Stop → PlaceRun → PlaceRun
stop_if true why rest = stopped why
stop_if false why rest = rest

unfoldable pub check_kill : Option Policy → KillPath → Option Violation
check_kill none path = none
check_kill (some p) path = check_kill_switch p path

-- `pol != nil && pol.MaxOpenOrders > 0`
abbrev pub counts_orders : Option Policy → Bool
counts_orders none = false
counts_orders (some p) = is_pos p.max_open_orders

-- Behind the open-orders check: the ledger, the second check of the kill switch, and placeExec.
unfoldable pub run_send :
    Library → World → Settings → Option Policy → ResolvedPlace → Instrument → Journal → PlaceRun
run_send lib w s pol rp inst j = stop_if (not w.ledger_opened) no_ledger (
    stop_on violated (check_kill pol w.kill_last) (
      executed (
        place_exec lib.sum lib.describe w.disk (place_intent lib.write s inst.uid w.start rp)
          rp.order_id w.events w.reply j)))

abbrev pub run_counted : Option Policy → Opened → PlaceRun → PlaceRun
run_counted pol (open_failed err info) rest =
    stopped (not_listed (classify err (call_context info false)))
run_counted pol (opened n) rest = stop_on violated (check_open_orders pol (pos n)) rest

-- The open-orders check, where the policy has a cap.
unfoldable pub run_open_orders : World → Option Policy → PlaceRun → PlaceRun
run_open_orders w pol rest =
    if counts_orders pol
    then stop_if (not w.locked) not_locked (run_counted pol w.open_orders rest)
    else rest

-- Behind the instrument's resolution.
unfoldable pub run_resolved :
    Library → World → Settings → Option Policy → ResolvedPlace → Journal → Found → PlaceRun
run_resolved lib w s pol rp j (not_found c) = stopped (no_instrument c)
run_resolved lib w s pol rp j (found inst) =
    stop_on violated (check_resolved lib.fold pol (resolved_intent (local_intent rp) inst)) (
      stop_on bad_increment (validate_price_increment rp.price inst.min_price_increment)
        (if rp.dry_run then previewed else run_open_orders w pol (run_send lib w s pol rp inst j)))

-- Behind the policy's loading.
unfoldable pub run_policy :
    Library → World → Settings → ResolvedPlace → Journal → Option (Option Policy) → PlaceRun
run_policy lib w s rp j none = stopped bad_policy
run_policy lib w s rp j (some pol) =
    stop_on violated (check_local pol w.kill_first (local_intent rp))
      (stop_on no_connection w.connected (run_resolved lib w s pol rp j w.instrument))

-- Behind the request.
unfoldable pub run_built : Library → World → Settings → Journal → Built → PlaceRun
run_built lib w s j (refused e) = stopped (bad_request e)
run_built lib w s j (built rp) =
    stop_on bad_shape (validate_basics rp.order_type rp.lots rp.price) (
      stop_if (not rp.dry_run && is_empty s.account_id) no_account
        (run_policy lib w s rp j w.loaded))

-- `runPlace`, on a request from the flags or a decoded JSON input.
unfoldable pub run_place : Library → World → Settings → PlaceInput → Journal → PlaceRun
run_place lib w s i j = run_built lib w s j (build_place w.random i)
