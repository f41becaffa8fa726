-- ===== src/StreamRunner/Run.antt =====
-- internal/stream/runner.go, Run: the loop around the sessions, as a machine over what each turn meets.
-- The settings in front of the loop, the times and the streams' closing are left out.
pub mod Shutdown
pub mod Replays
mod Tests
use tinvest.Prelude.{
  ℕ, suc, Bool, true, false, not, ◌&&◌, List, [], ◌∷◌, ◌++◌, map, Option, none, some, ltb,
  if◌then◌else◌,
}
use tinvest.StreamRunner.{
  Handlers, EventType, connected, disconnected, resubscribed, LossReason, unstated, connect_error,
  resubscribe_error, LifecycleEvent, StreamError, Told, event, Fault, callback, stream_fault, Step,
  going, finished, Input, reconnectable, receive_loop, open_session,
}

-- What the loop does towards the server and the consumer, in order: the requests that Send took, and
-- what the consumer is told.
pub data Act (Q A : Type 0) : Type 0 where
  sent : Q → Act Q A
  told : Told A → Act Q A

-- A turn's replayed request: taken, not waited for (with whether the context is over), or refused.
pub data Sending : Type 0 where
  accepted : Sending
  held : Bool → Sending
  send_failed : StreamError → Sending

-- What one turn meets: whether the context is over at its start, the registry's snapshot, Open's
-- answer, the session's functions, the replay, whether the context is over behind the Connected event,
-- what receive reads, and whether the context ends the wait of the backoff.
pub record Turn (Q A : Type 0) : Type 0 where
  pub is_over : Bool
  pub requests : List Q
  pub subscriptions : ℕ
  pub refusal : Option StreamError
  pub has_recv : Bool
  pub has_send : Bool
  pub sending : ℕ → Sending
  pub is_over_connected : Bool
  pub inputs : List (Input A)
  pub is_cut_off : Bool

pub record Runner (A F : Type 0) : Type 0 where
  pub handlers : Handlers A F
  pub reconciles : Bool

pub record RunState (Q A : Type 0) : Type 0 where
  pub connections : ℕ
  pub failures : ℕ
  pub acts : List (Act Q A)

pub data RunFault (F : Type 0) : Type 0 where
  failed : Fault F → RunFault F
  no_recv no_send not_waited : RunFault F

-- The loop goes on, its session goes on, or Run returns, with an error or without.
pub data RunStep (Q A F : Type 0) : Type 0 where
  again : RunState Q A → RunStep Q A F
  receiving : RunState Q A → RunStep Q A F
  returned : RunState Q A → Option (RunFault F) → RunStep Q A F

abbrev pub acted : {Q A : Type 0} → Act Q A → RunState Q A → RunState Q A
acted a st = record st { acts = st.acts ++ a ∷ [] }

abbrev pub say : {Q A : Type 0} → LifecycleEvent → RunState Q A → RunState Q A
say ev st = acted (told (event ev)) st

abbrev pub or_returned : {Q A F : Type 0} → Option F → RunState Q A → RunStep Q A F → RunStep Q A F
or_returned (some f) st rest = returned st (some (failed (callback f)))
or_returned none st rest = rest

-- `emit`, and what follows it where the callback has no error.
abbrev pub emit :
    {Q A F : Type 0}
    → Runner A F
    → LifecycleEvent
    → RunState Q A
    → (RunState Q A → RunStep Q A F)
    → RunStep Q A F
emit r ev st rest = or_returned (r.handlers.on_lifecycle ev) (say ev st) (rest (say ev st))

abbrev pub occurrence : EventType → ℕ → ℕ → LifecycleEvent
occurrence t attempt subscriptions = record {
  event_type = t;
  attempt = attempt;
  subscriptions = subscriptions;
  reason = unstated;
  cause = none;
  final = false;
}

abbrev pub last_event : ℕ → LifecycleEvent
last_event connections = record (occurrence disconnected connections 0) {
  reason = LossReason.shutdown;
  final = true;
}

-- `shutdown`
unfoldable pub shut_down : {Q A F : Type 0} → Runner A F → RunState Q A → RunStep Q A F
shut_down r st = emit r (last_event st.connections) st (λ st1. returned st1 none)

-- The wait in front of the next turn.
unfoldable pub back_off : {Q A F : Type 0} → Runner A F → Turn Q A → RunState Q A → RunStep Q A F
back_off r t st = if t.is_cut_off then shut_down r st else again st

-- A failure of Open or Send: it is counted and announced, and then mended by a reconnect or returned.
unfoldable pub fail_turn :
    {Q A F : Type 0}
    → Runner A F
    → Turn Q A
    → ℕ
    → LossReason
    → StreamError
    → RunState Q A
    → RunStep Q A F
fail_turn r t subscriptions reason e st =
    let ev = record (occurrence disconnected (suc st.failures) subscriptions) {
      reason = reason;
      cause = some e;
    } in
    emit r ev (record st { failures = suc st.failures })
      (λ st1.
        if reconnectable e then back_off r t st1 else returned st1 (some (failed (stream_fault e))))

abbrev pub behind_session :
    {Q A F : Type 0} → Runner A F → Turn Q A → RunState Q A → Step A F → RunStep Q A F
behind_session r t st (going s) =
    receiving (record st { failures = s.failures; acts = st.acts ++ map told s.log })
behind_session r t st (finished s reconnect (some fault)) =
    returned (record st { failures = s.failures; acts = st.acts ++ map told s.log })
      (some (failed fault))
behind_session r t st (finished s true none) =
    back_off r t (record st { failures = s.failures; acts = st.acts ++ map told s.log })
behind_session r t st (finished s false none) =
    shut_down r (record st { failures = s.failures; acts = st.acts ++ map told s.log })

-- The session of a connection.
unfoldable pub run_session : {Q A F : Type 0} → Runner A F → Turn Q A → RunState Q A → RunStep Q A F
run_session r t st =
    let h = record r.handlers { connection = st.connections; subscriptions = t.subscriptions } in
    if t.is_over_connected
    then shut_down r st
    else behind_session r t st (receive_loop h t.inputs (open_session r.reconciles st.failures []))

-- The second event of a connection that is not the first.
abbrev pub connect_again : {Q A F : Type 0} → Runner A F → Turn Q A → RunState Q A → RunStep Q A F
connect_again r t st =
    if ltb 1 st.connections
    then emit r (occurrence resubscribed st.connections t.subscriptions) st (run_session r t)
    else run_session r t st

-- The events of a connection.
unfoldable pub connect : {Q A F : Type 0} → Runner A F → Turn Q A → RunState Q A → RunStep Q A F
connect r t st =
    emit r (occurrence connected (suc st.connections) t.subscriptions)
      (record st { connections = suc st.connections }) (connect_again r t)

-- One request of the snapshot, and what follows it.
abbrev pub replay_request :
    {Q A F : Type 0}
    → Runner A F
    → Turn Q A
    → RunState Q A
    → RunStep Q A F
    → Sending
    → RunStep Q A F
replay_request r t st rest accepted = rest
replay_request r t st rest (held over) =
    if over then shut_down r st else returned st (some not_waited)
replay_request r t st rest (send_failed e) = fail_turn r t t.subscriptions resubscribe_error e st

-- The loop over the snapshot, from the n-th request on.
unfoldable pub replay :
    {Q A F : Type 0} → Runner A F → Turn Q A → ℕ → List Q → RunState Q A → RunStep Q A F
replay r t n [] st = connect r t st
replay r t n (q ∷ qs) st =
    let rest = replay r t (suc n) qs (acted (sent q) st) in replay_request r t st rest (t.sending n)

abbrev pub is_none_left : {Q : Type 0} → List Q → Bool
is_none_left [] = true
is_none_left (q ∷ qs) = false

abbrev pub after_recv : {Q A F : Type 0} → Runner A F → Turn Q A → RunState Q A → RunStep Q A F
after_recv r t st =
    if not (is_none_left t.requests) && not t.has_send
    then returned st (some no_send)
    else replay r t 0 t.requests st

-- A session that Open has opened.
abbrev pub opened_turn : {Q A F : Type 0} → Runner A F → Turn Q A → RunState Q A → RunStep Q A F
opened_turn r t st = if not t.has_recv then returned st (some no_recv) else after_recv r t st

abbrev pub behind_open :
    {Q A F : Type 0} → Runner A F → Turn Q A → RunState Q A → Option StreamError → RunStep Q A F
behind_open r t st (some e) = fail_turn r t 0 connect_error e st
behind_open r t st none = opened_turn r t st

-- One turn.
unfoldable pub run_turn : {Q A F : Type 0} → Runner A F → Turn Q A → RunState Q A → RunStep Q A F
run_turn r t st = if t.is_over then shut_down r st else behind_open r t st t.refusal

-- The loop, over what its turns meet.
unfoldable pub run_loop :
    {Q A F : Type 0} → Runner A F → List (Turn Q A) → RunState Q A → RunStep Q A F
run_loop r [] st = again st
run_loop r (t ∷ ts) st = elim (run_turn r t st) [
  | again st1 ↦ run_loop r ts st1
  | receiving st1 ↦ receiving st1
  | returned st1 fault ↦ returned st1 fault
]
