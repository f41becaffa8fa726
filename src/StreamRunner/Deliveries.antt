-- ===== src/StreamRunner/Deliveries.antt =====
-- Which messages of a session the consumer has been handed, and in which order.
use mathlib.Core.List.{append-nil, append_assoc}
use mathlib.Core.Path.{subst}
use tinvest.Prelude.{
  ℕ, suc, ◌≡◌, refl, sym, ap, ◌∙◌, Bool, true, false, not, ◌&&◌, ◌||◌, List, [], ◌∷◌, ◌++◌, none,
  some, length, leb, inl, inr, ◌⊎◌, Bool-cases, if_intro, arith, if◌then◌else◌,
}
use tinvest.StreamRunner.{
  Handlers, StreamError, Told, message, ReceiveState, going, finished, Input, context_done,
  reconcile_failed, reconcile_succeeded, or_fault, end_if, tell, fail_once, stream_error_reason,
  watchdog_timeout, reconcile_buffer_overflow, reconcile_error, receive_failed, received, timed_out,
  disconnect, hand_over_all, receive_message, receive_step, receive_loop, open_session,
}
use tinvest.StreamRunner.Messages.{
  deliveries, keep, messages, early, late, deliveries-append, keep-append, handed, handed-buffered,
  handed-live,
}
use tinvest.StreamRunner.Turns.{
  Holds, or_fault-Holds, end_if-Holds, disconnect-Holds, lag-Holds, loop-Holds, Holds-map,
}

module _ {A : Type 0} where
  -- A message that is handed over.
  tell-deliveries :
      (m : A) (st : ReceiveState A)
      → deliveries (tell (message m) st).log ≡ deliveries st.log ++ m ∷ []
  tell-deliveries m st = deliveries-append st.log (message m ∷ [])

  -- The state in which a loop no longer reconciles, with what it has handed over.
  abbrev IsSettled : List A → ReceiveState A → Type 0
  IsSettled told st = (st.reconciling ≡ false) × (deliveries st.log ≡ told)

  module _ {F : Type 0} (h : Handlers A F) where
    hand_over_all-Holds :
        (ends : ℕ → Bool) (n : ℕ) (ms : List A) (st : ReceiveState A) (told : List A)
        → deliveries st.log ≡ told
        → Holds (IsSettled (told ++ keep h.keep_after ms)) (hand_over_all h ends n ms st)
    unfolding hand_over_all
    hand_over_all-Holds ends n [] st told e = (refl, e ∙ sym (append-nil told))
    hand_over_all-Holds ends n (m ∷ ms) st told e =
        let st1 = tell (message m) st in
        let rest = keep h.keep_after ms in
        let next = hand_over_all h ends (suc n) ms st1 in
        let skip = hand_over_all h ends (suc n) ms st in
        let shown =
          hand_over_all-Holds ends (suc n) ms st1 (told ++ m ∷ [])
            (tell-deliveries m st ∙ ap (λ xs. xs ++ m ∷ []) e) in
        let told1 =
          subst (λ xs. Holds (IsSettled xs) next) (append_assoc told (m ∷ []) rest) shown in
        let hidden = hand_over_all-Holds ends (suc n) ms st told e in
        elim (Bool-cases (h.keep_after m)) [
          | inl kept ↦ rw kept (
              or_fault-Holds h (IsSettled (told ++ m ∷ rest)) (h.on_message m) st1
                (end_if (ends n) st1 next)
                (end_if-Holds h (IsSettled (told ++ m ∷ rest)) (ends n) st1 next told1))
          | inr out ↦ rw out (end_if-Holds h (IsSettled (told ++ rest)) (ends n) st skip hidden)
        ]

    live_turn :
        (i : Input A) (st : ReceiveState A) (told : List A)
        → IsSettled told st
        → Holds (IsSettled (told ++ keep h.keep_live (messages (i ∷ [])))) (receive_step h i st)
    unfolding receive_step receive_message
    live_turn context_done st told k = tt
    live_turn (reconcile_failed ended e) st told k = rw (k.0) (refl, k.1 ∙ sym (append-nil told))
    live_turn (reconcile_succeeded ended ends) st told k =
        rw (k.0) (refl, k.1 ∙ sym (append-nil told))
    live_turn (receive_failed ended long e) st told k =
        let P = IsSettled (told ++ []) in
        let st1 = fail_once (if long then record st { failures = 0 } else st) in
        if_intro (Holds P) (ended || e.is_canceled) (finished st false none)
          (disconnect h (stream_error_reason e) (some e) st1) (λ y. tt)
          (λ n. disconnect-Holds h P (stream_error_reason e) (some e) st1)
    live_turn timed_out st told k =
        let P = IsSettled (told ++ []) in
        lag-Holds h P watchdog_timeout st
          (λ st1. disconnect h watchdog_timeout none (fail_once st1))
          (λ st1. disconnect-Holds h P watchdog_timeout none (fail_once st1))
    live_turn (received m) st told k =
        let st1 = tell (message m) st in
        let P = IsSettled (told ++ keep h.keep_live (m ∷ [])) in
        let shown = λ (b : Bool). told ++ (if b then m ∷ [] else []) in
        if_intro (Holds P) (st.reconciling && h.buffers m) _ _
          (λ y. never (Holds P _) st.reconciling (h.buffers m) k.0 y)
          (λ n.
            if_intro (Holds P) (not st.reconciling && not (h.keep_live m)) (going st)
              (or_fault (h.on_message m) st1 (going st1))
              (λ out. (
                k.0,
                k.1
                    ∙ sym (append-nil told)
                    ∙ sym (ap shown (second st.reconciling (h.keep_live m) out)),
              ))
              (λ kept. or_fault-Holds h P (h.on_message m) st1 (going st1) (
                k.0,
                tell-deliveries m st
                    ∙ ap (λ xs. xs ++ m ∷ []) k.1
                    ∙ sym (ap shown (neither st.reconciling (h.keep_live m) k.0 kept)),
              )))
      where
        never : (X : Type 0) (a b : Bool) → a ≡ false → (a && b) ≡ true → X
        never X true b e y = absurd (cc e)
        never X false b e y = absurd (cc y)

        second : (a b : Bool) → (not a && not b) ≡ true → b ≡ false
        second a b e = ground arith

        neither : (a b : Bool) → a ≡ false → (not a && not b) ≡ false → b ≡ true
        neither a b e k = ground arith

    messages-cons :
        (i : Input A) (inputs : List (Input A))
        → messages (i ∷ inputs) ≡ messages (i ∷ []) ++ messages inputs
    messages-cons context_done inputs = refl
    messages-cons (reconcile_failed b e) inputs = refl
    messages-cons (reconcile_succeeded b f) inputs = refl
    messages-cons (receive_failed b c e) inputs = refl
    messages-cons timed_out inputs = refl
    messages-cons (received m) inputs = refl

    live_loop :
        (inputs : List (Input A)) (st : ReceiveState A) (told : List A)
        → IsSettled told st
        → Holds (IsSettled (told ++ keep h.keep_live (messages inputs))) (receive_loop h inputs st)
    unfolding receive_loop
    live_loop [] st told k = (k.0, k.1 ∙ sym (append-nil told))
    live_loop (i ∷ inputs) st told k =
        let first = keep h.keep_live (messages (i ∷ [])) in
        let rest = keep h.keep_live (messages inputs) in
        let joined =
          append_assoc told first rest
          ∙ ap (λ xs. told ++ xs)
              (sym (keep-append h.keep_live (messages (i ∷ [])) (messages inputs))
                ∙ ap (keep h.keep_live) (sym (messages-cons i inputs))) in
        subst (λ xs. Holds (IsSettled xs) (receive_loop h (i ∷ inputs) st)) joined
          (loop-Holds h (IsSettled ((told ++ first) ++ rest)) i inputs st
            (IsSettled (told ++ first)) (live_turn i st told k)
            (λ st1 k1. live_loop inputs st1 (told ++ first) k1))

    -- What a loop that reconciles has handed over in the end.
    abbrev IsHanded : List A → List A → List (Input A) → ReceiveState A → Type 0
    IsHanded told buffered inputs st' =
        deliveries st'.log ≡ told ++ handed h buffered (early inputs) (late inputs)

    -- One message while the loop reconciles.
    abbrev IsBuffering : List A → A → ReceiveState A → ReceiveState A → Type 0
    IsBuffering told m st st1 =
        (st1.reconciling ≡ true)
        × (((h.buffers m ≡ true)
              × (st1.buffered ≡ st.buffered ++ m ∷ [])
              × (deliveries st1.log ≡ told))
            ⊎ ((h.buffers m ≡ false)
                × (st1.buffered ≡ st.buffered)
                × (deliveries st1.log ≡ told ++ m ∷ [])))

    early_turn :
        (m : A) (st : ReceiveState A) (told : List A)
        → st.reconciling ≡ true
        → deliveries st.log ≡ told
        → Holds (IsBuffering told m st) (receive_message h m st)
    unfolding receive_message
    early_turn m st told on k =
        let P = IsBuffering told m st in
        let st1 = tell (message m) st in
        let overfull = fail_once st in
        if_intro (Holds P) (st.reconciling && h.buffers m) _ _
          (λ y.
            if_intro (Holds P) (leb h.max_buffer (length st.buffered)) _ _
              (λ over.
                lag-Holds h P reconcile_buffer_overflow overfull
                  (disconnect h reconcile_buffer_overflow none)
                  (λ st2. disconnect-Holds h P reconcile_buffer_overflow none st2))
              (λ room. (on, inl (ground arith, refl, k))))
          (λ n.
            if_intro (Holds P) (not st.reconciling && not (h.keep_live m)) (going st)
              (or_fault (h.on_message m) st1 (going st1))
              (λ out. absurd (cc (on, live st.reconciling (h.keep_live m) out)))
              (λ live_on.
                or_fault-Holds h P (h.on_message m) st1 (going st1)
                  (on, inr (ground arith, refl, tell-deliveries m st ∙ ap (λ xs. xs ++ m ∷ []) k))))
      where
        live : (a b : Bool) → (not a && not b) ≡ true → a ≡ false
        live a b e = ground arith

    -- A turn that never goes on from a state that reconciles.
    abbrev Never : ReceiveState A → Type 0
    Never st = true ≡ false

    failed_step :
        (ended : Bool) (e : StreamError) (st : ReceiveState A)
        → st.reconciling ≡ true
        → Holds Never (receive_step h (reconcile_failed ended e) st)
    unfolding receive_step
    failed_step ended e st on =
        if_intro (Holds Never) (not st.reconciling) (going st) _ (λ off. cc (ap not on, off))
          (λ open'.
            if_intro (Holds Never) (ended || e.is_canceled) (finished st false none)
              (disconnect h reconcile_error (some e) (fail_once st)) (λ y. tt)
              (λ n. disconnect-Holds h Never reconcile_error (some e) (fail_once st)))

    lost_step :
        (ended long : Bool) (e : StreamError) (st : ReceiveState A)
        → Holds Never (receive_step h (receive_failed ended long e) st)
    unfolding receive_step
    lost_step ended long e st =
        let st1 = fail_once (if long then record st { failures = 0 } else st) in
        if_intro (Holds Never) (ended || e.is_canceled) (finished st false none)
          (disconnect h (stream_error_reason e) (some e) st1) (λ y. tt)
          (λ n. disconnect-Holds h Never (stream_error_reason e) (some e) st1)

    timeout_step : (st : ReceiveState A) → Holds Never (receive_step h timed_out st)
    unfolding receive_step
    timeout_step st =
        lag-Holds h Never watchdog_timeout st
          (λ st1. disconnect h watchdog_timeout none (fail_once st1))
          (λ st1. disconnect-Holds h Never watchdog_timeout none (fail_once st1))

    succeeded_step :
        (ended : Bool) (ends : ℕ → Bool) (st : ReceiveState A) (told : List A)
        → st.reconciling ≡ true
        → deliveries st.log ≡ told
        → Holds
            (IsSettled (told ++ keep h.keep_after st.buffered))
            (receive_step h (reconcile_succeeded ended ends) st)
    unfolding receive_step
    succeeded_step ended ends st told on k =
        let P = IsSettled (told ++ keep h.keep_after st.buffered) in
        let all = hand_over_all h ends 0 st.buffered st in
        if_intro (Holds P) (not st.reconciling) (going st) (end_if ended st all)
          (λ off. absurd (cc (ap not on, off)))
          (λ open'.
            end_if-Holds h P ended st all (hand_over_all-Holds ends 0 st.buffered st told k))

    early_loop :
        (inputs : List (Input A)) (st : ReceiveState A) (told : List A)
        → st.reconciling ≡ true
        → deliveries st.log ≡ told
        → Holds (IsHanded told st.buffered inputs) (receive_loop h inputs st)
    unfolding receive_loop receive_step
    early_loop [] st told on k = k ∙ sym (append-nil told)
    early_loop (context_done ∷ inputs) st told on k = tt
    early_loop (reconcile_failed ended e ∷ inputs) st told on k =
        loop-Holds h (IsHanded told st.buffered (reconcile_failed ended e ∷ inputs))
          (reconcile_failed ended e) inputs st Never (failed_step ended e st on)
          (λ st1 r. absurd (cc r))
    early_loop (receive_failed ended long e ∷ inputs) st told on k =
        loop-Holds h (IsHanded told st.buffered (receive_failed ended long e ∷ inputs))
          (receive_failed ended long e) inputs st Never (lost_step ended long e st)
          (λ st1 r. absurd (cc r))
    early_loop (timed_out ∷ inputs) st told on k =
        loop-Holds h (IsHanded told st.buffered (timed_out ∷ inputs)) timed_out inputs st Never
          (timeout_step st) (λ st1 r. absurd (cc r))
    early_loop (reconcile_succeeded ended ends ∷ inputs) st told on k =
        let i = reconcile_succeeded ended ends in
        let kept = keep h.keep_after st.buffered in
        let rest = keep h.keep_live (messages inputs) in
        let joined =
          append_assoc told kept rest
          ∙ ap (λ xs. told ++ (keep h.keep_after xs ++ rest)) (sym (append-nil st.buffered)) in
        loop-Holds h (IsHanded told st.buffered (i ∷ inputs)) i inputs st (IsSettled (told ++ kept))
          (succeeded_step ended ends st told on k)
          (λ st1 r.
            Holds-map (IsSettled ((told ++ kept) ++ rest)) (IsHanded told st.buffered (i ∷ inputs))
              (receive_loop h inputs st1) (λ st2 q. q.1 ∙ joined)
              (live_loop inputs st1 (told ++ kept) r))
    early_loop (received m ∷ inputs) st told on k =
        loop-Holds h (IsHanded told st.buffered (received m ∷ inputs)) (received m) inputs st
          (IsBuffering told m st) (early_turn m st told on k)
          (λ st1 r. next st1 r.0 r.1 (λ told1 d. early_loop inputs st1 told1 r.0 d))
      where
        next :
            (st1 : ReceiveState A)
            → st1.reconciling ≡ true
            → ((h.buffers m ≡ true)
                × (st1.buffered ≡ st.buffered ++ m ∷ [])
                × (deliveries st1.log ≡ told))
              ⊎ ((h.buffers m ≡ false)
                  × (st1.buffered ≡ st.buffered)
                  × (deliveries st1.log ≡ told ++ m ∷ []))
            → ((told1 : List A)
                → deliveries st1.log ≡ told1
                → Holds (IsHanded told1 st1.buffered inputs) (receive_loop h inputs st1))
            → Holds (IsHanded told st.buffered (received m ∷ inputs)) (receive_loop h inputs st1)
        next st1 on1 (inl (b, same, d)) ih =
            Holds-map (IsHanded told st1.buffered inputs)
              (IsHanded told st.buffered (received m ∷ inputs)) (receive_loop h inputs st1)
              (λ st2 q.
                q
                ∙ ap (λ xs. told ++ handed h xs (early inputs) (late inputs)) same
                ∙ ap (λ xs. told ++ xs)
                    (handed-buffered h st.buffered (early inputs) m (late inputs) b))
              (ih told d)
        next st1 on1 (inr (b, same, d)) ih =
            Holds-map (IsHanded (told ++ m ∷ []) st1.buffered inputs)
              (IsHanded told st.buffered (received m ∷ inputs)) (receive_loop h inputs st1)
              (λ st2 q.
                q
                ∙ append_assoc told (m ∷ []) (handed h st1.buffered (early inputs) (late inputs))
                ∙ ap (λ xs. told ++ (m ∷ handed h xs (early inputs) (late inputs))) same
                ∙ ap (λ xs. told ++ xs)
                    (handed-live h st.buffered (early inputs) m (late inputs) b))
              (ih (told ++ m ∷ []) d)

-- While a session with a reconciliation goes on, the consumer has been handed exactly these messages,
-- in the order of their receipt: of those in front of the reconciliation's end the ones that are not
-- buffered at once, then at its end the buffered ones that KeepAfterReconcile keeps, then of those
-- behind it the ones that KeepLiveAfterReconcile keeps.
pub receive_loop-handed :
    {A F : Type 0} (h : Handlers A F) (inputs : List (Input A)) (failures : ℕ) (log : List (Told A))
    (st : ReceiveState A)
    → receive_loop h inputs (open_session true failures log) ≡ going st
    → deliveries st.log ≡ deliveries log ++ handed h [] (early inputs) (late inputs)
receive_loop-handed h inputs failures log st e =
    subst (Holds (IsHanded h (deliveries log) [] inputs)) e
      (early_loop h inputs (open_session true failures log) (deliveries log) refl refl)
