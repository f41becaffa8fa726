-- ===== src/StreamRunner/Run/Shutdown.antt =====
-- How Run returns without an error.
use mathlib.Core.Path.{subst}
use tinvest.Prelude.{
  ℕ, suc, ◌≡◌, refl, true, false, not, ◌&&◌, List, [], ◌∷◌, ◌++◌, Option, none, some, if_intro, ltb,
  if◌then◌else◌,
}
use tinvest.StreamRunner.{
  connected, disconnected, resubscribed, LossReason, LifecycleEvent, StreamError, event,
  stream_fault, Step, going, finished, reconnectable, resubscribe_error, connect_error,
}
use tinvest.StreamRunner.Run.{
  Act, told, Turn, Runner, RunState, Sending, accepted, held, send_failed, failed, no_recv, no_send,
  not_waited, RunStep, again, receiving, returned, or_returned, emit, say, last_event, occurrence,
  shut_down, back_off, fail_turn, behind_session, run_session, connect_again, connect,
  replay_request, replay, after_recv, is_none_left, acted, sent, opened_turn, behind_open, run_turn,
  run_loop,
}

module _ {Q A F : Type 0} (r : Runner A F) where
  -- The last act is the final event, which the consumer took.
  pub record IsShutDown (st : RunState Q A) : Type 0 where
    pub before : List (Act Q A)
    pub connected_times : ℕ
    pub ends_so : st.acts ≡ before ++ told (event (last_event connected_times)) ∷ []
    pub counted : st.connections ≡ connected_times
    pub taken : r.handlers.on_lifecycle (last_event connected_times) ≡ none

  abbrev Shuts : RunStep Q A F → Type 0
  Shuts (returned st none) = IsShutDown st
  Shuts (returned st (some fault)) = Unit
  Shuts (again st) = Unit
  Shuts (receiving st) = Unit

  or_returned-Shuts :
      (o : Option F) (st : RunState Q A) (rest : RunStep Q A F)
      → (o ≡ none → Shuts rest)
      → Shuts (or_returned o st rest)
  or_returned-Shuts none st rest k = k refl
  or_returned-Shuts (some f) st rest k = tt

  emit-Shuts :
      (ev : LifecycleEvent) (st : RunState Q A) (rest : RunState Q A → RunStep Q A F)
      → ((st1 : RunState Q A) → Shuts (rest st1))
      → Shuts (emit r ev st rest)
  emit-Shuts ev st rest k =
      or_returned-Shuts (r.handlers.on_lifecycle ev) (say ev st) (rest (say ev st))
        (λ taken. k (say ev st))

  shut_down-Shuts : (st : RunState Q A) → Shuts (shut_down r st)
  unfolding shut_down
  shut_down-Shuts st =
      or_returned-Shuts (r.handlers.on_lifecycle (last_event st.connections))
        (say (last_event st.connections) st) (returned (say (last_event st.connections) st) none)
        (λ taken. record {
          before = st.acts;
          connected_times = st.connections;
          ends_so = refl;
          counted = refl;
          taken = taken;
        })

  module _ (t : Turn Q A) where
    back_off-Shuts : (st : RunState Q A) → Shuts (back_off r t st)
    unfolding back_off
    back_off-Shuts st =
        if_intro Shuts t.is_cut_off (shut_down r st) (again st) (λ over. shut_down-Shuts st)
          (λ on. tt)

    fail_turn-Shuts :
        (n : ℕ) (reason : LossReason) (e : StreamError) (st : RunState Q A)
        → Shuts (fail_turn r t n reason e st)
    unfolding fail_turn
    fail_turn-Shuts n reason e st =
        let ev = record (occurrence disconnected (suc st.failures) n) {
          reason = reason;
          cause = some e;
        } in
        emit-Shuts ev (record st { failures = suc st.failures })
          (λ st1.
            if reconnectable e
            then back_off r t st1
            else returned st1 (some (failed (stream_fault e))))
          (λ st1.
            if_intro Shuts (reconnectable e) (back_off r t st1)
              (returned st1 (some (failed (stream_fault e)))) (λ yes. back_off-Shuts st1)
              (λ no. tt))

    behind_session-Shuts : (st : RunState Q A) (s : Step A F) → Shuts (behind_session r t st s)
    behind_session-Shuts st (going s) = tt
    behind_session-Shuts st (finished s reconnect (some fault)) = tt
    behind_session-Shuts st (finished s true none) = back_off-Shuts _
    behind_session-Shuts st (finished s false none) = shut_down-Shuts _

    run_session-Shuts : (st : RunState Q A) → Shuts (run_session r t st)
    unfolding run_session
    run_session-Shuts st =
        if_intro Shuts t.is_over_connected (shut_down r st) (behind_session r t st _)
          (λ over. shut_down-Shuts st) (λ on. behind_session-Shuts st _)

    connect_again-Shuts : (st : RunState Q A) → Shuts (connect_again r t st)
    connect_again-Shuts st =
        let ev = occurrence resubscribed st.connections t.subscriptions in
        if_intro Shuts (ltb 1 st.connections) (emit r ev st (run_session r t)) (run_session r t st)
          (λ more. emit-Shuts ev st (run_session r t) run_session-Shuts)
          (λ first. run_session-Shuts st)

    connect-Shuts : (st : RunState Q A) → Shuts (connect r t st)
    unfolding connect
    connect-Shuts st =
        emit-Shuts (occurrence connected (suc st.connections) t.subscriptions)
          (record st { connections = suc st.connections }) (connect_again r t) connect_again-Shuts

    replay_request-Shuts :
        (st : RunState Q A) (rest : RunStep Q A F) (s : Sending)
        → Shuts rest
        → Shuts (replay_request r t st rest s)
    replay_request-Shuts st rest accepted k = k
    replay_request-Shuts st rest (held over) k =
        if_intro Shuts over (shut_down r st) (returned st (some not_waited))
          (λ yes. shut_down-Shuts st) (λ no. tt)
    replay_request-Shuts st rest (send_failed e) k =
        fail_turn-Shuts t.subscriptions resubscribe_error e st

    replay-Shuts : (n : ℕ) (qs : List Q) (st : RunState Q A) → Shuts (replay r t n qs st)
    unfolding replay
    replay-Shuts n [] st = connect-Shuts st
    replay-Shuts n (q ∷ qs) st =
        replay_request-Shuts st _ (t.sending n) (replay-Shuts (suc n) qs (acted (sent q) st))

    opened_turn-Shuts : (st : RunState Q A) → Shuts (opened_turn r t st)
    opened_turn-Shuts st =
        if_intro Shuts (not t.has_recv) (returned st (some no_recv)) (after_recv r t st)
          (λ missing. tt)
          (λ given.
            if_intro Shuts (not (is_none_left t.requests) && not t.has_send)
              (returned st (some no_send)) (replay r t 0 t.requests st) (λ missing. tt)
              (λ given. replay-Shuts 0 t.requests st))

    behind_open-Shuts :
        (st : RunState Q A) (refusal : Option StreamError) → Shuts (behind_open r t st refusal)
    behind_open-Shuts st (some e) = fail_turn-Shuts 0 connect_error e st
    behind_open-Shuts st none = opened_turn-Shuts st

    run_turn-Shuts : (st : RunState Q A) → Shuts (run_turn r t st)
    unfolding run_turn
    run_turn-Shuts st =
        if_intro Shuts t.is_over (shut_down r st) (behind_open r t st t.refusal)
          (λ over. shut_down-Shuts st) (λ on. behind_open-Shuts st t.refusal)

  run_loop-Shuts : (ts : List (Turn Q A)) (st : RunState Q A) → Shuts (run_loop r ts st)
  unfolding run_loop
  run_loop-Shuts [] st = tt
  run_loop-Shuts (t ∷ ts) st =
      by_step (run_loop r ts) (run_loop-Shuts ts) (run_turn r t st) (run_turn-Shuts t st)
    where
      by_step :
          (rest : RunState Q A → RunStep Q A F)
          → ((st1 : RunState Q A) → Shuts (rest st1))
          → (s : RunStep Q A F) → Shuts s
          → Shuts (elim s [
            | again st1 ↦ rest st1
            | receiving st1 ↦ receiving st1
            | returned st1 fault ↦ returned st1 fault
          ])
      by_step rest k (again st1) h = k st1
      by_step rest k (receiving st1) h = tt
      by_step rest k (returned st1 none) h = h
      by_step rest k (returned st1 (some fault)) h = tt

-- Where Run returns without an error, the last act of all is the final Disconnected event with the
-- reason `shutdown` and the number of connections, and the consumer took it without an error.
pub run_loop-IsShutDown :
    {Q A F : Type 0} (r : Runner A F) (ts : List (Turn Q A)) (st st1 : RunState Q A)
    → run_loop r ts st ≡ returned st1 none
    → IsShutDown r st1
run_loop-IsShutDown r ts st st1 h = subst (Shuts r) h (run_loop-Shuts r ts st)
