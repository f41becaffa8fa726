-- ===== src/StreamRunner.antt =====
-- internal/stream/runner.go, receive: the loop over one session of a stream, as a machine over what its
-- select reads. The callbacks are the `Handlers`; a callback's error ends the loop. Times are left
-- out, and so is the stream's closing.
pub mod Messages
pub mod Turns
pub mod Deliveries
pub mod Endings
pub mod Run
mod Tests
use tinvest.Prelude.{
  ℕ, zero, suc, ◌+◌, Bool, true, false, not, ◌&&◌, ◌||◌, List, [], ◌∷◌, ◌++◌, Option, none, some,
  length, leb, if◌then◌else◌,
}
use tinvest.Errors.{GrpcCode, CallError, status_code}

-- An error of the stream or of the reconciliation: its status, and whether errors.Is finds
-- context.Canceled or io.EOF in it.
pub record StreamError : Type 0 where
  pub call : CallError
  pub is_canceled : Bool
  pub is_eof : Bool

pub data EventType : Type 0 where
  connected disconnected resubscribed lagging : EventType

pub data LossReason : Type 0 where
  unstated connect_error resubscribe_error reconcile_error eof stream_error
        reconcile_buffer_overflow watchdog_timeout shutdown :
      LossReason

pub record LifecycleEvent : Type 0 where
  pub event_type : EventType
  pub attempt : ℕ
  pub subscriptions : ℕ
  pub reason : LossReason
  pub cause : Option StreamError
  pub final : Bool

unfoldable pub reconnectable : StreamError → Bool
reconnectable e = elim (status_code e.call) [
  | GrpcCode.unauthenticated ↦ false
  | GrpcCode.permission_denied ↦ false
  | GrpcCode.invalid_argument ↦ false
  | GrpcCode.failed_precondition ↦ false
  | GrpcCode.not_found ↦ false
  | GrpcCode.unimplemented ↦ false
  | _ ↦ true
]

unfoldable pub stream_error_reason : StreamError → LossReason
stream_error_reason e = if e.is_eof then eof else stream_error

-- The callbacks and the numbers of a session; a nil callback accepts, buffers or keeps everything. `F`
-- is the type of the callbacks' errors.
pub record Handlers (A F : Type 0) : Type 0 where
  pub on_lifecycle : LifecycleEvent → Option F
  pub on_message : A → Option F
  pub buffers : A → Bool
  pub keep_after : A → Bool
  pub keep_live : A → Bool
  pub max_buffer : ℕ
  pub connection : ℕ
  pub subscriptions : ℕ

-- What the consumer is told, in order.
pub data Told (A : Type 0) : Type 0 where
  event : LifecycleEvent → Told A
  message : A → Told A

pub record ReceiveState (A : Type 0) : Type 0 where
  pub reconciling : Bool
  pub buffered : List A
  pub failures : ℕ
  pub log : List (Told A)

-- The error that receive returns: a callback's, or the stream's.
pub data Fault (F : Type 0) : Type 0 where
  callback : F → Fault F
  stream_fault : StreamError → Fault F

-- The loop goes on, or returns whether to reconnect, and an error.
pub data Step (A F : Type 0) : Type 0 where
  going : ReceiveState A → Step A F
  finished : ReceiveState A → Bool → Option (Fault F) → Step A F

-- What the select reads. `ended` is whether the context is over by then, `ends n` whether it is behind
-- the n-th buffered message, and `long` whether the session has lasted as long as the watchdog.
pub data Input (A : Type 0) : Type 0 where
  context_done : Input A
  reconcile_failed : (ended : Bool) → StreamError → Input A
  reconcile_succeeded : (ended : Bool) → (ends : ℕ → Bool) → Input A
  receive_failed : (ended long : Bool) → StreamError → Input A
  received : A → Input A
  timed_out : Input A

abbrev pub lost :
    {A F : Type 0} → Handlers A F → EventType → LossReason → Option StreamError → LifecycleEvent
lost h t reason cause = record {
  event_type = t;
  attempt = h.connection;
  subscriptions = h.subscriptions;
  reason = reason;
  cause = cause;
  final = false;
}

abbrev pub tell : {A : Type 0} → Told A → ReceiveState A → ReceiveState A
tell t st = record st { log = st.log ++ t ∷ [] }

abbrev pub or_fault : {A F : Type 0} → Option F → ReceiveState A → Step A F → Step A F
or_fault (some f) st rest = finished st false (some (callback f))
or_fault none st rest = rest

abbrev pub fail_once : {A : Type 0} → ReceiveState A → ReceiveState A
fail_once st = record st { failures = suc st.failures }

-- The end of a session whose Disconnected event is sent: reconnect, or return the error.
unfoldable pub disconnect :
    {A F : Type 0} → Handlers A F → LossReason → Option StreamError → ReceiveState A → Step A F
disconnect h reason cause st =
    let ev = lost h disconnected reason cause in
    let st1 = tell (event ev) st in
    or_fault (h.on_lifecycle ev) st1 (elim cause [
      | none ↦ finished st1 true none
      | some e ↦
          if reconnectable e
          then finished st1 true none
          else finished st1 false (some (stream_fault e))
    ])

-- A Lagging event in front of it.
abbrev pub lag :
    {A F : Type 0}
    → Handlers A F
    → LossReason
    → ReceiveState A
    → (ReceiveState A → Step A F)
    → Step A F
lag h reason st rest =
    let ev = lost h lagging reason none in
    let st1 = tell (event ev) st in or_fault (h.on_lifecycle ev) st1 (rest st1)

-- `deliver`
abbrev pub hand_over :
    {A F : Type 0} → Handlers A F → A → ReceiveState A → (ReceiveState A → Step A F) → Step A F
hand_over h m st rest = let st1 = tell (message m) st in or_fault (h.on_message m) st1 (rest st1)

abbrev pub end_if : {A F : Type 0} → Bool → ReceiveState A → Step A F → Step A F
end_if ended st rest = if ended then finished st false none else rest

-- The loop over the buffered messages, from the n-th on.
unfoldable pub hand_over_all :
    {A F : Type 0} → Handlers A F → (ℕ → Bool) → ℕ → List A → ReceiveState A → Step A F
hand_over_all h ends n [] st = going (record st { reconciling = false; buffered = [] })
hand_over_all h ends n (m ∷ ms) st =
    let kept = tell (message m) st in
    let skip = hand_over_all h ends (suc n) ms st in
    let next = hand_over_all h ends (suc n) ms kept in
    if h.keep_after m
    then or_fault (h.on_message m) kept (end_if (ends n) kept next)
    else end_if (ends n) st skip

-- A message while the loop reconciles or not.
unfoldable pub receive_message : {A F : Type 0} → Handlers A F → A → ReceiveState A → Step A F
receive_message h m st =
    if st.reconciling && h.buffers m
    then (if leb h.max_buffer (length st.buffered)
        then lag h reconcile_buffer_overflow (fail_once st)
            (disconnect h reconcile_buffer_overflow none)
        else going (record st { buffered = st.buffered ++ m ∷ [] }))
    else if not st.reconciling && not (h.keep_live m)
    then going st
    else hand_over h m st going

-- One turn of the select. The channel of the reconciliation is nil once it is read, and never ready
-- then.
unfoldable pub receive_step : {A F : Type 0} → Handlers A F → Input A → ReceiveState A → Step A F
receive_step h context_done st = finished st false none
receive_step h (reconcile_failed ended e) st =
    if not st.reconciling
    then going st
    else if ended || e.is_canceled
    then finished st false none
    else disconnect h reconcile_error (some e) (fail_once st)
receive_step h (reconcile_succeeded ended ends) st =
    if not st.reconciling then going st else end_if ended st (hand_over_all h ends 0 st.buffered st)
receive_step h (receive_failed ended long e) st =
    if ended || e.is_canceled
    then finished st false none
    else disconnect h (stream_error_reason e) (some e)
        (fail_once (if long then record st { failures = 0 } else st))
receive_step h (received m) st = receive_message h m st
receive_step h timed_out st =
    lag h watchdog_timeout st (λ st1. disconnect h watchdog_timeout none (fail_once st1))

-- The state that receive starts in, with or without a reconciliation.
abbrev pub open_session : {A : Type 0} → Bool → ℕ → List (Told A) → ReceiveState A
open_session reconciling failures log = record {
  reconciling = reconciling;
  buffered = [];
  failures = failures;
  log = log;
}

-- The loop, over what its selects read.
unfoldable pub receive_loop :
    {A F : Type 0} → Handlers A F → List (Input A) → ReceiveState A → Step A F
receive_loop h [] st = going st
receive_loop h (i ∷ inputs) st = elim (receive_step h i st) [
  | going st1 ↦ receive_loop h inputs st1
  | finished st1 reconnect fault ↦ finished st1 reconnect fault
]
