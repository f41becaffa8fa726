-- ===== src/StreamRunner/Run/Tests.antt =====
-- A run at concrete turns: requests and messages are numbers.
use tinvest.Prelude.{ℕ, ◌≡◌, ◌⊎◌, refl, true, false, List, [], ◌∷◌, none, some}
use tinvest.Errors.{GrpcCode, with_status}
use tinvest.StreamRunner.{
  StreamError, received, receive_failed, context_done, reconnectable, disconnect,
  stream_error_reason, receive_message, receive_step, receive_loop,
}
use tinvest.StreamRunner.Run.{
  Turn, Runner, RunState, accepted, returned, shut_down, back_off, fail_turn, run_session, connect,
  replay, run_turn, run_loop, RunStep,
}
use tinvest.StreamRunner.Run.Replays.{state_of, IsConnected, run_turn-IsConnected}
use tinvest.StreamRunner.Run.Shutdown.{IsShutDown, run_loop-IsShutDown}

abbrev consumer : Runner ℕ ℕ
consumer = record {
  handlers = record {
    on_lifecycle = λ e. none;
    on_message = λ m. none;
    buffers = λ m. false;
    keep_after = λ m. true;
    keep_live = λ m. true;
    max_buffer = 2;
    connection = 0;
    subscriptions = 0;
  };
  reconciles = false;
}

abbrev unavailable : StreamError
unavailable = record {
  call = with_status GrpcCode.unavailable [];
  is_canceled = false;
  is_eof = false;
}

abbrev opens : Turn ℕ ℕ
opens = record {
  is_over = false;
  requests = 7 ∷ 8 ∷ [];
  subscriptions = 2;
  refusal = none;
  has_recv = true;
  has_send = true;
  sending = λ n. accepted;
  is_over_connected = false;
  inputs = received 1 ∷ receive_failed false false unavailable ∷ [];
  is_cut_off = false;
}

-- A connection that is lost, a refused one, and a connection that the context ends.
abbrev turns : List (Turn ℕ ℕ)
turns =
    opens
    ∷ record opens { refusal = some unavailable }
    ∷ record opens { inputs = received 2 ∷ context_done ∷ [] }
    ∷ []

abbrev start : RunState ℕ ℕ
start = record { connections = 0; failures = 0; acts = [] }

-- The state that a run returns in.
abbrev state_behind : RunStep ℕ ℕ ℕ → RunState ℕ ℕ
state_behind (RunStep.again st) = st
state_behind (RunStep.receiving st) = st
state_behind (returned st fault) = st

abbrev behind : RunState ℕ ℕ
behind = state_behind (run_loop consumer turns start)

connected_twice : behind.connections ≡ 2
unfolding run_loop run_turn replay connect run_session shut_down back_off fail_turn receive_loop
    receive_step receive_message disconnect reconnectable stream_error_reason
connected_twice = refl

ran : run_loop consumer turns start ≡ returned behind none
unfolding run_loop run_turn replay connect run_session shut_down back_off fail_turn receive_loop
    receive_step receive_message disconnect reconnectable stream_error_reason
ran = refl

run_loop-IsShutDown_example : IsShutDown consumer behind
run_loop-IsShutDown_example = run_loop-IsShutDown consumer turns start behind ran

run_turn-IsConnected_example :
    ((state_of (run_turn consumer opens start)).connections ≡ 0)
    ⊎ IsConnected consumer opens start (7 ∷ 8 ∷ []) (run_turn consumer opens start)
run_turn-IsConnected_example = run_turn-IsConnected consumer opens start
