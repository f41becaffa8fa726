-- ===== src/StreamRunner/Endings.antt =====
-- How a session ends, and how much it buffers.
use mathlib.Core.Path.{subst}
use tinvest.Prelude.{
  ℕ, suc, ◌≤◌, ◌≡◌, refl, Bool, true, false, not, ◌&&◌, ◌||◌, List, [], ◌∷◌, ◌++◌, Option, none,
  some, length, leb, if_intro, arith, if◌then◌else◌,
}
use tinvest.StreamRunner.{
  Handlers, disconnected, lagging, LifecycleEvent, StreamError, LossReason, Told, event, message,
  ReceiveState, Fault, callback, stream_fault, Step, going, finished, Input, context_done,
  reconcile_failed, reconcile_succeeded, or_fault, end_if, tell, lost, fail_once,
  stream_error_reason, watchdog_timeout, reconcile_buffer_overflow, reconcile_error, receive_failed,
  received, timed_out, disconnect, reconnectable, hand_over_all, receive_message, receive_step,
  receive_loop,
}

module _ {A : Type 0} where
  -- The last thing that the consumer was told is that the session is lost, and it counts as a failure.
  pub record IsAnnounced (st : ReceiveState A) : Type 0 where
    pub before : List (Told A)
    pub last : LifecycleEvent
    pub told : st.log ≡ before ++ event last ∷ []
    pub is_lost : last.event_type ≡ disconnected
    pub counted : 1 ≤ st.failures

  -- What an ending says: a reconnect, or the stream's own error.
  abbrev pub IsEnding : {F : Type 0} → ReceiveState A → Bool → Option (Fault F) → Type 0
  IsEnding st true fault = (fault ≡ none) × IsAnnounced st
  IsEnding st false none = Unit
  IsEnding st false (some (callback f)) = Unit
  IsEnding st false (some (stream_fault e)) = (reconnectable e ≡ false) × IsAnnounced st

  abbrev Ends : {F : Type 0} → Step A F → Type 0
  Ends (going st) = Unit
  Ends (finished st reconnect fault) = IsEnding st reconnect fault

  module _ {F : Type 0} (h : Handlers A F) where
    or_fault-Ends :
        (o : Option F) (st : ReceiveState A) (rest : Step A F)
        → Ends rest
        → Ends (or_fault o st rest)
    or_fault-Ends none st rest k = k
    or_fault-Ends (some f) st rest k = tt

    end_if-Ends :
        (b : Bool) (st : ReceiveState A) (rest : Step A F) → Ends rest → Ends (end_if b st rest)
    end_if-Ends true st rest k = tt
    end_if-Ends false st rest k = k

    disconnect-Ends :
        (reason : LossReason) (cause : Option StreamError) (st : ReceiveState A)
        → 1 ≤ st.failures
        → Ends (disconnect h reason cause st)
    unfolding disconnect
    disconnect-Ends reason cause st n =
        let ev = lost h disconnected reason cause in
        let st1 = tell (event ev) st in
        or_fault-Ends (h.on_lifecycle ev) st1 _ (
          by_cause cause st1
            (record { before = st.log; last = ev; told = refl; is_lost = refl; counted = n }))
      where
        by_cause :
            (cause : Option StreamError) (st1 : ReceiveState A)
            → IsAnnounced st1
            → Ends {F = F} (elim cause [
              | none ↦ finished st1 true none
              | some e ↦
                  if reconnectable e
                  then finished st1 true none
                  else finished st1 false (some (stream_fault e))
            ])
        by_cause none st1 a = (refl, a)
        by_cause (some e) st1 a =
            if_intro Ends (reconnectable e) (finished st1 true none)
              (finished st1 false (some (stream_fault e))) (λ y. (refl, a)) (λ n. (n, a))

    hand_over_all-Ends :
        (ends : ℕ → Bool) (n : ℕ) (ms : List A) (st : ReceiveState A)
        → Ends (hand_over_all h ends n ms st)
    unfolding hand_over_all
    hand_over_all-Ends ends n [] st = tt
    hand_over_all-Ends ends n (m ∷ ms) st =
        let st1 = tell (message m) st in
        let next = hand_over_all h ends (suc n) ms st1 in
        let skip = hand_over_all h ends (suc n) ms st in
        if_intro Ends (h.keep_after m) (or_fault (h.on_message m) st1 (end_if (ends n) st1 next))
          (end_if (ends n) st skip)
          (λ y.
            or_fault-Ends (h.on_message m) st1 (end_if (ends n) st1 next)
              (end_if-Ends (ends n) st1 next (hand_over_all-Ends ends (suc n) ms st1)))
          (λ z. end_if-Ends (ends n) st skip (hand_over_all-Ends ends (suc n) ms st))

    receive_message-Ends : (m : A) (st : ReceiveState A) → Ends (receive_message h m st)
    unfolding receive_message
    receive_message-Ends m st =
        let st1 = tell (message m) st in
        let ev = lost h lagging reconcile_buffer_overflow none in
        let st2 = tell (event ev) (fail_once st) in
        if_intro Ends (st.reconciling && h.buffers m) _ _
          (λ y.
            if_intro Ends (leb h.max_buffer (length st.buffered)) _ (going _)
              (λ over.
                or_fault-Ends (h.on_lifecycle ev) st2
                  (disconnect h reconcile_buffer_overflow none st2)
                  (disconnect-Ends reconcile_buffer_overflow none st2 (omega arith)))
              (λ room. tt))
          (λ n.
            if_intro Ends (not st.reconciling && not (h.keep_live m)) (going st) _ (λ out. tt)
              (λ on. or_fault-Ends (h.on_message m) st1 (going st1) tt))

    receive_step-Ends : (i : Input A) (st : ReceiveState A) → Ends (receive_step h i st)
    unfolding receive_step
    receive_step-Ends context_done st = tt
    receive_step-Ends (reconcile_failed ended e) st =
        if_intro Ends (not st.reconciling) (going st) _ (λ y. tt)
          (λ n.
            if_intro Ends (ended || e.is_canceled) (finished st false none) _ (λ y. tt)
              (λ m. disconnect-Ends reconcile_error (some e) (fail_once st) (omega arith)))
    receive_step-Ends (reconcile_succeeded ended ends) st =
        let all = hand_over_all h ends 0 st.buffered st in
        if_intro Ends (not st.reconciling) (going st) (end_if ended st all) (λ y. tt)
          (λ n. end_if-Ends ended st all (hand_over_all-Ends ends 0 st.buffered st))
    receive_step-Ends (receive_failed ended long e) st =
        let st1 = fail_once (if long then record st { failures = 0 } else st) in
        if_intro Ends (ended || e.is_canceled) (finished st false none) _ (λ y. tt)
          (λ n. disconnect-Ends (stream_error_reason e) (some e) st1 (omega arith))
    receive_step-Ends (received m) st = receive_message-Ends m st
    receive_step-Ends timed_out st =
        let ev = lost h lagging watchdog_timeout none in
        let st1 = tell (event ev) st in
        or_fault-Ends (h.on_lifecycle ev) st1 (disconnect h watchdog_timeout none (fail_once st1))
          (disconnect-Ends watchdog_timeout none (fail_once st1) (omega arith))

    receive_loop-Ends :
        (inputs : List (Input A)) (st : ReceiveState A) → Ends (receive_loop h inputs st)
    unfolding receive_loop
    receive_loop-Ends [] st = tt
    receive_loop-Ends (i ∷ inputs) st =
        on (receive_step h i st) (receive_step-Ends i st) (λ st1. receive_loop-Ends inputs st1)
      where
        on :
            (s : Step A F)
            → Ends s
            → ((st1 : ReceiveState A) → Ends (receive_loop h inputs st1))
            → Ends (elim s [
              | going st1 ↦ receive_loop h inputs st1
              | finished st1 reconnect fault ↦ finished st1 reconnect fault
            ])
        on (going st1) k next = next st1
        on (finished st1 reconnect fault) k next = k

-- A session that ends for a reconnect carries no error, and its last word to the consumer is a
-- Disconnected event that counts as a failure; so it is where the session ends with the stream's own
-- error, which is then one that a reconnect does not mend.
pub receive_loop-IsEnding :
    {A F : Type 0} (h : Handlers A F) (inputs : List (Input A)) (st st' : ReceiveState A)
    (reconnect : Bool) (fault : Option (Fault F))
    → receive_loop h inputs st ≡ finished st' reconnect fault
    → IsEnding st' reconnect fault
receive_loop-IsEnding h inputs st st' reconnect fault e =
    subst Ends e (receive_loop-Ends h inputs st)
