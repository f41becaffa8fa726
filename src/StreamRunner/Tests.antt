-- ===== src/StreamRunner/Tests.antt =====
-- A session at concrete inputs: messages are numbers.
use tinvest.Prelude.{ℕ, ◌≡◌, refl, true, false, List, [], ◌∷◌, ◌++◌, none, leb, ltb}
use tinvest.Errors.{GrpcCode, with_status}
use tinvest.StreamRunner.{
  Handlers, message, ReceiveState, going, finished, Input, reconcile_succeeded, receive_failed,
  received, disconnect, reconnectable, hand_over_all, receive_message, receive_step, receive_loop,
  open_session, Step,
}
use tinvest.StreamRunner.Messages.{deliveries, early, late, handed}
use tinvest.StreamRunner.Deliveries.{receive_loop-handed}
use tinvest.StreamRunner.Endings.{IsEnding, receive_loop-IsEnding}

abbrev Error : Type 0
Error = ℕ

abbrev handlers : Handlers ℕ Error
handlers = record {
  on_lifecycle = λ e. none;
  on_message = λ m. none;
  buffers = λ m. leb 3 m;
  keep_after = λ m. leb m 5;
  keep_live = λ m. ltb 4 m;
  max_buffer = 2;
  connection = 1;
  subscriptions = 1;
}

-- Two messages that are buffered, one of which is kept; one at once; and two live ones.
abbrev inputs : List (Input ℕ)
inputs =
    received 7
    ∷ received 1
    ∷ received 5
    ∷ reconcile_succeeded false (λ n. false)
    ∷ received 4
    ∷ received 6
    ∷ []

abbrev settled : ReceiveState ℕ
settled = record {
  reconciling = false;
  buffered = [];
  failures = 0;
  log = message 1 ∷ message 5 ∷ message 6 ∷ [];
}

ran : receive_loop handlers inputs (open_session true 0 []) ≡ going settled
unfolding receive_loop receive_step receive_message hand_over_all
ran = refl

receive_loop-handed_example :
    deliveries settled.log ≡ deliveries [] ++ handed handlers [] (early inputs) (late inputs)
receive_loop-handed_example = receive_loop-handed handlers inputs 0 [] settled ran

abbrev lost : List (Input ℕ)
lost =
    receive_failed false false
      (record { call = with_status GrpcCode.unavailable []; is_canceled = false; is_eof = false })
    ∷ []

abbrev state_of : Step ℕ Error → ReceiveState ℕ
state_of (going st) = st
state_of (finished st reconnect fault) = st

abbrev behind : ReceiveState ℕ
behind = state_of (receive_loop handlers lost settled)

ended : receive_loop handlers lost settled ≡ finished behind true none
unfolding receive_loop receive_step disconnect reconnectable
ended = refl

receive_loop-IsEnding_example : IsEnding {F = Error} behind true none
receive_loop-IsEnding_example = receive_loop-IsEnding handlers lost settled behind true none ended
