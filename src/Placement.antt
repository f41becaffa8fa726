-- ===== src/Placement.antt =====
-- cmd/tinvest/orders.go, placeExec: the crash-safe placement of an order over the ledger, the
-- transport's observations and the classification of the outcome. The broker's client and the wire
-- are not the repository's: what they do is the `Reply` and the events that come with it.
pub mod WriteAhead
pub mod Settled
pub mod Safety
pub mod InDoubt
pub mod Called
pub mod Shell
mod Tests
use tinvest.Prelude.{
  ℕ, Bool, true, false, List, [], ◌∷◌, ◌++◌, Option, none, some, ◌&&◌, ◌||◌, not, Text, codes,
  is_empty, if◌then◌else◌, leb, ◌==◌,
}
use tinvest.Phase.{Phase, CallInfo, RpcStats, new_call_info, phase, phase_string, observe}
use tinvest.Errors.{
  Code, CliError, cli_error, ReconcileHint, CallContext, CallError, with_status, plain, classify,
}
use tinvest.Ledger.{
  Intent, Outcome, Entry, Env, Journal, begin_entry, send_started_entry, confirm_entry,
  reject_entry,
}
use tinvest.Orders.{ReportStatus, is_rejected}

-- The parts of PostOrderResponse and PostOrderAsyncResponse that the command reads.
pub record PostOrderResponse : Type 0 where
  pub execution_report_status : ReportStatus
  pub order_id : Text
  pub message : Text

pub record PostOrderAsyncResponse : Type 0 where
  pub execution_report_status : ReportStatus

-- What `cl.Place` or `cl.PlaceAsync` returns: a response, or an error without one.
pub data Reply : Type 0 where
  answered : PostOrderResponse → Reply
  answered_async : PostOrderAsyncResponse → Reply
  failed : CallError → Reply

pub record PlaceOutcome : Type 0 where
  pub sync : Option PostOrderResponse
  pub async : Option PostOrderAsyncResponse
  pub info : CallInfo

unfoldable pub place_outcome : CallInfo → Reply → PlaceOutcome
place_outcome info (answered r) = record { sync = some r; async = none; info = info }
place_outcome info (answered_async r) = record { sync = none; async = some r; info = info }
place_outcome info (failed e) = record { sync = none; async = none; info = info }

unfoldable pub execution_status : PlaceOutcome → ReportStatus
execution_status o = elim o.sync [
  | some r ↦ r.execution_report_status
  | none ↦ elim o.async [ some r ↦ r.execution_report_status | none ↦ ReportStatus.unspecified ]
]

unfoldable pub exchange_order_id : PlaceOutcome → Text
exchange_order_id o = elim o.sync [ some r ↦ r.order_id | none ↦ [] ]

abbrev or_default : Text → Text
or_default message = if is_empty message then codes "order rejected by broker" else message

unfoldable pub reject_message : PlaceOutcome → Text
reject_message o = elim o.sync [
  | some r ↦ or_default r.message
  | none ↦ codes "order rejected by broker"
]

unfoldable pub call_context : CallInfo → Bool → CallContext
call_context info mutation = record {
  phase = phase info;
  tracking_id = info.tracking_id;
  retry_after = info.retry_after;
  api_message = info.api_message;
  mutation = mutation;
}

-- The bytes that a shell reads as themselves.
abbrev pub is_safe : ℕ → Bool
is_safe c =
    (leb 97 c && leb c 122)
    || (leb 65 c && leb c 90)
    || (leb 46 c && leb c 58)
    || c == 95
    || c == 64
    || c == 43
    || c == 45

abbrev pub all_safe : Text → Bool
all_safe [] = true
all_safe (c ∷ s) = is_safe c && all_safe s

-- strings.ReplaceAll(arg, "'", "'\"'\"'")
unfoldable pub escape_quotes : Text → Text
escape_quotes [] = []
escape_quotes (c ∷ s) =
    let rest = escape_quotes s in if c == 39 then codes "'\"'\"'" ++ rest else c ∷ rest

-- On bytes: a rune outside ASCII is unsafe, and so are all its bytes.
unfoldable pub shell_command_arg : Text → Text
shell_command_arg arg =
    if not (is_empty arg) && all_safe arg
    then arg
    else codes "'" ++ (escape_quotes arg ++ codes "'")

-- strings.Join(parts, " ") behind a first part.
abbrev join_args : List Text → Text
join_args [] = []
join_args (a ∷ args) = codes " " ++ (shell_command_arg a ++ join_args args)

abbrev flag : Text → Text → Text
flag name value =
    if is_empty value then [] else codes " " ++ (name ++ (codes " " ++ shell_command_arg value))

unfoldable pub scoped_broker_command : Text → Text → List Text → Text
scoped_broker_command profile account_id args =
    codes "tinvest"
    ++ (flag (codes "--profile") profile ++ (flag (codes "--account") account_id ++ join_args args))

-- The environments of the three appends that a placement may make, and the texts of the errors that
-- the first two return if they fail.
pub record Disk : Type 0 where
  pub begun : Env
  pub sent : Env
  pub closed : Env
  pub begin_error : Text
  pub sent_error : Text

-- What a placement leaves: the journal, whether the broker was called, and the outcome or the error
-- (some error: the command fails with it). The warning of a failed closing write goes to stderr alone.
pub record Placed : Type 0 where
  pub journal : Journal
  pub called : Bool
  pub outcome : Option PlaceOutcome
  pub error : Option CliError

abbrev pub is_unconfirmed : Code → Bool
is_unconfirmed Code.unconfirmed = true
is_unconfirmed _ = false

-- The error of a call, with the hint that an unconfirmed one carries.
unfoldable pub hinted : Intent → Text → CliError → CliError
hinted intent order_id e = record e {
  reconcile_hint = some (record {
    order_id = order_id;
    command =
        scoped_broker_command intent.profile intent.account_id
          (codes "orders" ∷ codes "reconcile" ∷ []);
  });
}

-- Behind the call that returned an error, whose text (err.Error()) is `describe`.
unfoldable pub settle_error :
    (CallError → Text) → Disk → Intent → Text → Entry → PlaceOutcome → CallError → Journal → Placed
settle_error describe disk intent order_id entry out err j =
    let e = classify err (call_context out.info true) in
    if is_unconfirmed e.code
    then record {
      journal = j;
      called = true;
      outcome = some out;
      error = some (hinted intent order_id e);
    }
    else record {
      journal = (reject_entry disk.closed (describe err) entry j).1;
      called = true;
      outcome = some out;
      error = some e;
    }

-- Behind the call that returned a response.
unfoldable pub settle_response : Disk → Entry → PlaceOutcome → Journal → Placed
settle_response disk entry out j =
    if is_rejected (execution_status out)
    then record {
      journal = (reject_entry disk.closed (reject_message out) entry j).1;
      called = true;
      outcome = some out;
      error = some (record (cli_error Code.broker_rejected (reject_message out)) {
        phase = phase_string Phase.confirmed;
        tracking_id = out.info.tracking_id;
      });
    }
    else record {
      journal =
          (confirm_entry disk.closed
            (record {
              order_id = exchange_order_id out;
              stop_order_id = [];
              exchange_order_id = [];
              tracking_id = out.info.tracking_id;
              exit_code = none;
              error = [];
            })
            entry j).1;
      called = true;
      outcome = some out;
      error = none;
    }

unfoldable pub settle :
    (CallError → Text) → Disk → Intent → Text → Entry → CallInfo → Reply → Journal → Placed
settle describe disk intent order_id entry info (failed err) =
    settle_error describe disk intent order_id entry (place_outcome info (failed err)) err
settle describe disk intent order_id entry info (answered r) =
    settle_response disk entry (place_outcome info (answered r))
settle describe disk intent order_id entry info (answered_async r) =
    settle_response disk entry (place_outcome info (answered_async r))

abbrev not_placed : Journal → Text → Placed
not_placed j message = record {
  journal = j;
  called = false;
  outcome = none;
  error = some (cli_error Code.internal message);
}

-- Behind SendStarted: the call, or the failure of the ledger.
abbrev pub call_broker :
    (CallError → Text)
    → Disk
    → Intent
    → Text
    → List RpcStats
    → Reply
    → Entry × Journal × Bool
    → Placed
call_broker describe disk intent order_id events reply (entry, j, true) =
    settle describe disk intent order_id entry (observe new_call_info events) reply j
call_broker describe disk intent order_id events reply (entry, j, false) =
    not_placed j (codes "ledger send-started: " ++ disk.sent_error)

-- Behind Begin: SendStarted, or the failure of the ledger.
abbrev pub send_intent :
    (CallError → Text)
    → Disk
    → Intent
    → Text
    → List RpcStats
    → Reply
    → Option Entry × Journal
    → Placed
send_intent describe disk intent order_id events reply (none, j) =
    not_placed j (codes "ledger begin: " ++ disk.begin_error)
send_intent describe disk intent order_id events reply (some entry, j) =
    call_broker describe disk intent order_id events reply (send_started_entry disk.sent entry j)

-- `placeExec`. `order_id` is the client order id of the request, `events` what the transport sees of
-- the call, and `reply` what the client returns.
unfoldable pub place_exec :
    (Text → Text)
    → (CallError → Text)
    → Disk
    → Intent
    → Text
    → List RpcStats
    → Reply
    → Journal
    → Placed
place_exec sum describe disk intent order_id events reply j =
    send_intent describe disk intent order_id events reply (begin_entry sum disk.begun intent j)
