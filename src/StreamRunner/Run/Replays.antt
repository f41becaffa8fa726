-- ===== src/StreamRunner/Run/Replays.antt =====
-- What a turn of Run does in front of its connection.
use mathlib.Core.List.{append-nil, append_assoc}
use tinvest.Prelude.{
  ℕ, suc, ◌≡◌, ◌⊎◌, inl, inr, refl, sym, ◌∙◌, ap, true, false, not, ◌&&◌, List, [], ◌∷◌, ◌++◌, map,
  Option, none, some, if_intro, ltb, if◌then◌else◌,
}
use tinvest.StreamRunner.{
  connected, disconnected, resubscribed, LossReason, LifecycleEvent, StreamError, event,
  stream_fault, Step, going, finished, reconnectable, resubscribe_error, connect_error,
}
use tinvest.StreamRunner.Run.{
  Act, sent, told, Turn, Runner, RunState, Sending, accepted, held, send_failed, failed, no_recv,
  no_send, not_waited, RunStep, again, receiving, returned, or_returned, emit, say, last_event,
  occurrence, shut_down, back_off, fail_turn, behind_session, run_session, connect_again, connect,
  replay_request, replay, after_recv, is_none_left, acted, opened_turn, behind_open, run_turn,
}

-- The state that a step leaves.
abbrev pub state_of : {Q A F : Type 0} → RunStep Q A F → RunState Q A
state_of (again st) = st
state_of (receiving st) = st
state_of (returned st fault) = st

module _ {Q A : Type 0} where
  -- Further acts on the same connection.
  record IsFurther (st st1 : RunState Q A) : Type 0 where
    more : List (Act Q A)
    acts : st1.acts ≡ st.acts ++ more
    connections : st1.connections ≡ st.connections

  unmoved-IsFurther : (st : RunState Q A) → IsFurther st st
  unmoved-IsFurther st = record { more = []; acts = sym (append-nil st.acts); connections = refl }

  IsFurther-behind :
      (st st1 st2 : RunState Q A) (front : List (Act Q A))
      → st1.acts ≡ st.acts ++ front
      → st1.connections ≡ st.connections
      → IsFurther st1 st2
      → IsFurther st st2
  IsFurther-behind st st1 st2 front h k f = record {
    more = front ++ f.more;
    acts = f.acts ∙ ap (λ xs. xs ++ f.more) h ∙ append_assoc st.acts front f.more;
    connections = f.connections ∙ k;
  }

module _ {Q A F : Type 0} where
  abbrev Furthers : RunState Q A → RunStep Q A F → Type 0
  Furthers st s = IsFurther st (state_of s)

  module _ (r : Runner A F) where
    emit-Furthers :
        (ev : LifecycleEvent) (st : RunState Q A) (rest : RunState Q A → RunStep Q A F)
        → Furthers (say ev st) (rest (say ev st))
        → Furthers st (emit r ev st rest)
    emit-Furthers ev st rest k = by_answer (r.handlers.on_lifecycle ev)
      where
        by_answer : (o : Option F) → Furthers st (or_returned o (say ev st) (rest (say ev st)))
        by_answer none =
            IsFurther-behind st (say ev st) (state_of (rest (say ev st))) (told (event ev) ∷ [])
              refl refl k
        by_answer (some f) = record { more = told (event ev) ∷ []; acts = refl; connections = refl }

    shut_down-Furthers : (st : RunState Q A) → Furthers st (shut_down r st)
    unfolding shut_down
    shut_down-Furthers st =
        emit-Furthers (last_event st.connections) st (λ st1. returned st1 none)
          (unmoved-IsFurther _)

    module _ (t : Turn Q A) where
      back_off-Furthers : (st : RunState Q A) → Furthers st (back_off r t st)
      unfolding back_off
      back_off-Furthers st =
          if_intro (Furthers st) t.is_cut_off (shut_down r st) (again st)
            (λ over. shut_down-Furthers st) (λ on. unmoved-IsFurther st)

      fail_turn-Furthers :
          (n : ℕ) (reason : LossReason) (e : StreamError) (st : RunState Q A)
          → Furthers st (fail_turn r t n reason e st)
      unfolding fail_turn
      fail_turn-Furthers n reason e st =
          let ev = record (occurrence disconnected (suc st.failures) n) {
            reason = reason;
            cause = some e;
          } in
          let counted = record st { failures = suc st.failures } in
          let rest = λ (st1 : RunState Q A).
            if reconnectable e
            then back_off r t st1
            else returned st1 (some (failed (stream_fault e))) in
          IsFurther-behind st counted (state_of (emit r ev counted rest)) []
            (sym (append-nil st.acts)) refl
            (emit-Furthers ev counted rest (
              if_intro (Furthers (say ev counted)) (reconnectable e) (back_off r t (say ev counted))
                (returned (say ev counted) (some (failed (stream_fault e))))
                (λ yes. back_off-Furthers (say ev counted))
                (λ no. unmoved-IsFurther (say ev counted))))

      behind_session-Furthers :
          (st : RunState Q A) (s : Step A F) → Furthers st (behind_session r t st s)
      behind_session-Furthers st (going s) = record {
        more = map told s.log;
        acts = refl;
        connections = refl;
      }
      behind_session-Furthers st (finished s reconnect (some fault)) = record {
        more = map told s.log;
        acts = refl;
        connections = refl;
      }
      behind_session-Furthers st (finished s true none) =
          IsFurther-behind st _ _ (map told s.log) refl refl (
            back_off-Furthers
              (record st { failures = s.failures; acts = st.acts ++ map told s.log }))
      behind_session-Furthers st (finished s false none) =
          IsFurther-behind st _ _ (map told s.log) refl refl (
            shut_down-Furthers
              (record st { failures = s.failures; acts = st.acts ++ map told s.log }))

      run_session-Furthers : (st : RunState Q A) → Furthers st (run_session r t st)
      unfolding run_session
      run_session-Furthers st =
          if_intro (Furthers st) t.is_over_connected (shut_down r st) (behind_session r t st _)
            (λ over. shut_down-Furthers st) (λ on. behind_session-Furthers st _)

      connect_again-Furthers : (st : RunState Q A) → Furthers st (connect_again r t st)
      connect_again-Furthers st =
          let ev = occurrence resubscribed st.connections t.subscriptions in
          if_intro (Furthers st) (ltb 1 st.connections) (emit r ev st (run_session r t))
            (run_session r t st)
            (λ more. emit-Furthers ev st (run_session r t) (run_session-Furthers (say ev st)))
            (λ first. run_session-Furthers st)

      -- The acts of a turn that connects.
      pub record IsConnected (st : RunState Q A) (qs : List Q) (s : RunStep Q A F) : Type 0 where
        pub more : List (Act Q A)
        pub acts :
            (state_of s).acts
            ≡ st.acts
              ++ (map sent qs
                  ++ told (event (occurrence connected (suc st.connections) t.subscriptions))
                    ∷ more)
        pub connections : (state_of s).connections ≡ suc st.connections

      abbrev Replays : RunState Q A → List Q → RunStep Q A F → Type 0
      Replays st qs s = ((state_of s).connections ≡ st.connections) ⊎ IsConnected st qs s

      connect-Replays : (st : RunState Q A) → IsConnected st [] (connect r t st)
      unfolding connect
      connect-Replays st = by_answer (r.handlers.on_lifecycle ev)
        where
          ev : LifecycleEvent
          ev = occurrence connected (suc st.connections) t.subscriptions

          st1 : RunState Q A
          st1 = say ev (record st { connections = suc st.connections })

          by_answer : (o : Option F) → IsConnected st [] (or_returned o st1 (connect_again r t st1))
          by_answer none =
              let f = connect_again-Furthers st1 in
              record {
                more = f.more;
                acts = f.acts ∙ append_assoc st.acts (told (event ev) ∷ []) f.more;
                connections = f.connections;
              }
          by_answer (some fault) = record { more = []; acts = refl; connections = refl }

      -- A request that Send took, in front of a turn's rest.
      sent-Replays :
          (st : RunState Q A) (q : Q) (qs : List Q) (s : RunStep Q A F)
          → Replays (acted (sent q) st) qs s
          → Replays st (q ∷ qs) s
      sent-Replays st q qs s (inl same) = inl same
      sent-Replays st q qs s (inr c) = inr (record {
        more = c.more;
        acts = c.acts ∙ append_assoc st.acts (sent q ∷ []) _;
        connections = c.connections;
      })

      request-Replays :
          (st : RunState Q A) (qs : List Q) (rest : RunStep Q A F) (s : Sending)
          → Replays st qs rest
          → Replays st qs (replay_request r t st rest s)
      request-Replays st qs rest accepted k = k
      request-Replays st qs rest (held over) k =
          if_intro (Replays st qs) over (shut_down r st) (returned st (some not_waited))
            (λ yes. inl (shut_down-Furthers st).connections) (λ no. inl refl)
      request-Replays st qs rest (send_failed e) k =
          inl (fail_turn-Furthers t.subscriptions resubscribe_error e st).connections

      replay-Replays :
          (n : ℕ) (qs : List Q) (st : RunState Q A) → Replays st qs (replay r t n qs st)
      unfolding replay
      replay-Replays n [] st = inr (connect-Replays st)
      replay-Replays n (q ∷ qs) st =
          request-Replays st (q ∷ qs) (replay r t (suc n) qs (acted (sent q) st)) (t.sending n)
            (sent-Replays st q qs _ (replay-Replays (suc n) qs (acted (sent q) st)))

      opened_turn-Replays : (st : RunState Q A) → Replays st t.requests (opened_turn r t st)
      opened_turn-Replays st =
          if_intro (Replays st t.requests) (not t.has_recv) (returned st (some no_recv))
            (after_recv r t st) (λ missing. inl refl)
            (λ given.
              if_intro (Replays st t.requests) (not (is_none_left t.requests) && not t.has_send)
                (returned st (some no_send)) (replay r t 0 t.requests st) (λ missing. inl refl)
                (λ given. replay-Replays 0 t.requests st))

      behind_open-Replays :
          (st : RunState Q A) (refusal : Option StreamError)
          → Replays st t.requests (behind_open r t st refusal)
      behind_open-Replays st (some e) = inl (fail_turn-Furthers 0 connect_error e st).connections
      behind_open-Replays st none = opened_turn-Replays st

-- A turn of Run connects at most once, and where it connects, it has first sent every request of the
-- registry's snapshot, once each and in the snapshot's order, and announced the connection next, under
-- its number and with the number of subscriptions.
pub run_turn-IsConnected :
    {Q A F : Type 0} (r : Runner A F) (t : Turn Q A) (st : RunState Q A)
    → ((state_of (run_turn r t st)).connections ≡ st.connections)
      ⊎ IsConnected r t st t.requests (run_turn r t st)
unfolding run_turn
run_turn-IsConnected r t st =
    if_intro (Replays r t st t.requests) t.is_over (shut_down r st) (behind_open r t st t.refusal)
      (λ over. inl (shut_down-Furthers r st).connections)
      (λ on. behind_open-Replays r t st t.refusal)
