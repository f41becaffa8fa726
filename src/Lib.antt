-- ===== src/Lib.antt =====
-- A verification library of tinvest, a command line for a broker's gRPC API: the parts that decide
-- whether an order may be sent, what is known of it afterwards, and what is written down before and
-- after it.
--
-- A placement runs through these parts. PlaceRequest reads the request, with Identifiers; PlaceCommand
-- takes it through its gates: Policy checks the order, Orders checks its shape and its price step;
-- Placement writes the intent to the Ledger, calls the broker through the transport, whose
-- Retry interceptor may repeat the call and whose stats handler (Phase) learns what became of it;
-- Errors turns a failure into the code and the exit status of the command; and the recovery scan of
-- the Ledger finds what was left open, which Reconcile and StopReconcile settle against the broker's
-- answers. Decimal carries prices between text and the contract's units
-- and nano. Registry is the part of a stream that a reconnect replays, ReplayLimiter paces the replay,
-- and StreamRunner connects and reads the sessions.
--
--   Prelude    texts as lists of bytes, integers with the wrap-around of int64, shared lemmas
--   Strconv    strconv.ParseInt, FormatInt and their kin on such texts
--   Decimal    internal/render/decimal.go: DecimalString, ParseQuotation
--   Phase      internal/transport/phase.go: CallInfo and HandleRPC over a list of events
--   Errors     internal/render/errors.go: Classify, ExitCode and the error constructors
--   Ledger     internal/ledger/ledger.go: Begin, SendStarted, Confirmed, Rejected, Reconciled, append;
--              Ledger/Codec, Lines and Repair have marshal, crcOK, readRecords and repairTornTail on
--              the bytes of a file; Ledger/Aggregate has Unresolved and AssignedStopOrderIDs
--   Orders     internal/broker/orders/validate.go and status.go
--   Reconcile  cmd/tinvest/orders.go: reconcileFlowForTarget, its helpers, and the exit code of the command
--   StopMatch  cmd/tinvest/stoporders.go: matchStopOrders, validateStopMatchPayload and their helpers;
--              Agrees and Complete say what they test
--   StopReconcile  cmd/tinvest/stoporders.go: reconcileStopFlowForTarget
--   Identifiers  internal/broker/instruments/classify.go, and validateOrderID and newOrderID of
--              cmd/tinvest/orders.go
--   PlaceRequest  cmd/tinvest/orders.go: buildPlace, and the intents and the document made of its result
--   PlaceCommand  cmd/tinvest/orders.go: runPlace, the gates in front of placeExec
--   ReplayLimiter  internal/stream/replay_limiter.go
--   StreamRunner  internal/stream/runner.go: receive, as a machine over what its select
--              reads; StreamRunner/Run has Run, over what its turns meet
--   Placement  cmd/tinvest/orders.go: placeExec, its helpers and the reconcile command of its hint;
--              cmd/tinvest/root.go: callContext
--   Retry      internal/transport/retry: the interceptor, its backoff and its method lists
--   Policy     internal/policy/policy.go: the loader (Load) and the checks of a loaded policy
--   Registry   internal/stream/registry.go
--   StopOrders internal/broker/stoporders/validate.go and status.go
--
-- State is passed explicitly: a Journal has the handle's sequence number and the records a reader of
-- the journal finds, and each append says what the operating system makes of it (stored, refused,
-- unwritten or unsynced). Errors are values. Texts are lists of byte values, and integers of a machine
-- width wrap where the source's do. Loops are structural recursion; the retry loop runs on the attempts that
-- the policy leaves. Fuel is in Strconv.format_nat, n + 1 digits for the number n, which has
-- no more than n + 1; and the loop of ReplayLimiter.wait_loop, which runs on fuel 2.
--
-- Parameters stand for code outside the repository or the language: the JSON codec and checksum
-- (Ledger/Codec.Json, with IsJson for what is documented of it on the records of IsLossless), the
-- payload's SHA-256, gRPC metadata, the broker's replies and the transport's events, the text of an error, the random jitter, the
-- answer of the file system at the kill path, strings.EqualFold outside ASCII, json.Unmarshal of a
-- journaled payload (Reconcile.Payloads), time.Parse and the clock (Reconcile.Clock, StopMatch.Stamps,
-- ReplayLimiter.Timers), the policy's file and its decoder (Policy/Load.PolicyFiles), what the
-- environment answers in a run of a command (PlaceCommand.World), the consumer's callbacks
-- (StreamRunner.Handlers), and what Open, Send and the context answer (StreamRunner/Run.Turn).
--
-- Not modelled: the protobuf clients, the views and tables, the configuration file, file creation,
-- locks and the quarantine file of the ledger, a ledger handle that goes on behind a write that left
-- a part of a line, and the other commands. The texts of policy and validation errors are
-- constructors with their values.
pub mod Prelude
pub mod Strconv
pub mod Phase
pub mod Errors
pub mod Decimal
pub mod Ledger
pub mod Orders
pub mod Placement
pub mod Retry
pub mod Policy
pub mod Registry
pub mod StopOrders
pub mod Reconcile
pub mod Identifiers
pub mod PlaceRequest
pub mod PlaceCommand
pub mod StopMatch
pub mod StopReconcile
pub mod ReplayLimiter
pub mod StreamRunner
