-- ===== src/StreamRunner/Turns.antt =====
-- What holds of every state in which the loop of a session goes on.
use tinvest.Prelude.{Bool, true, false, List, ◌∷◌, Option, none, some, if_intro}
use tinvest.StreamRunner.{
  Handlers, StreamError, LossReason, event, ReceiveState, Step, going, finished, Input, or_fault,
  end_if, tell, lag, lost, lagging, disconnected, stream_fault, disconnect, reconnectable,
  receive_step, receive_loop,
}

module _ {A : Type 0} where
  -- What holds of the state where the loop goes on.
  abbrev pub Holds : {F : Type 0} → (ReceiveState A → Type 0) → Step A F → Type 0
  Holds P (going st) = P st
  Holds P (finished st reconnect fault) = Unit

  module _ {F : Type 0} (h : Handlers A F) (P : ReceiveState A → Type 0) where
    pub or_fault-Holds :
        (o : Option F) (st : ReceiveState A) (rest : Step A F)
        → Holds P rest
        → Holds P (or_fault o st rest)
    or_fault-Holds none st rest k = k
    or_fault-Holds (some f) st rest k = tt

    pub end_if-Holds :
        (b : Bool) (st : ReceiveState A) (rest : Step A F)
        → Holds P rest
        → Holds P (end_if b st rest)
    end_if-Holds true st rest k = tt
    end_if-Holds false st rest k = k

    pub disconnect-Holds :
        (reason : LossReason) (cause : Option StreamError) (st : ReceiveState A)
        → Holds P (disconnect h reason cause st)
    unfolding disconnect
    disconnect-Holds reason none st =
        let ev = lost h disconnected reason none in
        let st1 = tell (event ev) st in
        or_fault-Holds (h.on_lifecycle ev) st1 (finished st1 true none) tt
    disconnect-Holds reason (some e) st =
        let ev = lost h disconnected reason (some e) in
        let st1 = tell (event ev) st in
        or_fault-Holds (h.on_lifecycle ev) st1 _ (
          if_intro (Holds P) (reconnectable e) (finished st1 true none)
            (finished st1 false (some (stream_fault e))) (λ y. tt) (λ n. tt))

    pub lag-Holds :
        (reason : LossReason) (st : ReceiveState A) (rest : ReceiveState A → Step A F)
        → ((st1 : ReceiveState A) → Holds P (rest st1))
        → Holds P (lag h reason st rest)
    lag-Holds reason st rest k =
        let ev = lost h lagging reason none in
        let st1 = tell (event ev) st in or_fault-Holds (h.on_lifecycle ev) st1 (rest st1) (k st1)

    pub loop-Holds :
        (i : Input A) (inputs : List (Input A)) (st : ReceiveState A) (R : ReceiveState A → Type 0)
        → Holds R (receive_step h i st)
        → ((st1 : ReceiveState A) → R st1 → Holds P (receive_loop h inputs st1))
        → Holds P (receive_loop h (i ∷ inputs) st)
    unfolding receive_loop
    loop-Holds i inputs st R k next = on (receive_step h i st) k
      where
        on :
            (s : Step A F)
            → Holds R s
            → Holds P (elim s [
              | going st1 ↦ receive_loop h inputs st1
              | finished st1 reconnect fault ↦ finished st1 reconnect fault
            ])
        on (going st1) r = next st1 r
        on (finished st1 reconnect fault) r = tt

  pub Holds-map :
      {F : Type 0} (P Q : ReceiveState A → Type 0) (s : Step A F)
      → ((st : ReceiveState A) → P st → Q st)
      → Holds P s
      → Holds Q s
  Holds-map P Q (going st) f k = f st k
  Holds-map P Q (finished st reconnect fault) f k = tt
