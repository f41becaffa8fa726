-- ===== src/Errors.antt =====
-- internal/render/errors.go: the stable classification of a failed call and its exit code.
pub mod ExitCode
pub mod Classification
mod Tests
use tinvest.Prelude.{
  ℕ, ◌+◌, Bool, true, false, List, [], ◌∷◌, ◌++◌, Option, none, some, ◌&&◌, Text, codes, text_eq,
  is_empty, all_digits, ◌==◌, if◌then◌else◌,
}
use tinvest.Prelude.Int.{ℤ, pos}
use tinvest.Strconv.{format_nat}
use tinvest.Phase.{Phase, phase_string}

pub data Code : Type 0 where
  usage policy auth rate_limited broker_rejected network unconfirmed internal : Code

-- The exit codes of the contract.
unfoldable pub exit_code : Code → ℕ
exit_code Code.usage = 2
exit_code Code.policy = 2
exit_code Code.auth = 3
exit_code Code.rate_limited = 4
exit_code Code.broker_rejected = 5
exit_code Code.network = 6
exit_code Code.unconfirmed = 7
exit_code Code.internal = 1

pub record ReconcileHint : Type 0 where
  pub order_id : Text
  pub command : Text

pub record CliError : Type 0 where
  pub code : Code
  pub grpc_code : Text
  pub api_code : Text
  pub message : Text
  pub retryable : Bool
  pub retry_after : ℤ
  pub phase : Text
  pub tracking_id : Text
  pub details : List (Text × Text)
  pub reconcile_hint : Option ReconcileHint

-- A composite literal that names the code and the message alone.
abbrev pub cli_error : Code → Text → CliError
cli_error code message = record {
  code = code;
  grpc_code = [];
  api_code = [];
  message = message;
  retryable = false;
  retry_after = pos 0;
  phase = [];
  tracking_id = [];
  details = [];
  reconcile_hint = none;
}

unfoldable pub usage_error : Text → CliError
usage_error message = cli_error Code.usage message

unfoldable pub policy_error : Text → List (Text × Text) → CliError
policy_error message details = record (cli_error Code.policy message) { details = details }

unfoldable pub auth_error : Text → CliError
auth_error message = cli_error Code.auth message

-- What was observed about the failed call.
pub record CallContext : Type 0 where
  pub phase : Phase
  pub tracking_id : Text
  pub retry_after : ℤ
  pub api_message : Text
  pub mutation : Bool

unfoldable pub unconfirmed_error : Text → Text → Text → CallContext → CliError
unfolding phase_string
unconfirmed_error message order_id command cc = record (cli_error Code.unconfirmed message) {
  phase = phase_string cc.phase;
  tracking_id = cc.tracking_id;
  reconcile_hint = some (record { order_id = order_id; command = command });
}

-- google.golang.org/grpc/codes; `other n` is the number n + 17, past the named ones.
pub data GrpcCode : Type 0 where
  ok canceled unknown invalid_argument deadline_exceeded not_found already_exists : GrpcCode
  permission_denied resource_exhausted failed_precondition aborted out_of_range : GrpcCode
  unimplemented internal unavailable data_loss unauthenticated : GrpcCode
  other : ℕ → GrpcCode

-- The numbers of google.golang.org/grpc/codes.
abbrev pub grpc_number : GrpcCode → ℕ
grpc_number GrpcCode.ok = 0
grpc_number GrpcCode.canceled = 1
grpc_number GrpcCode.unknown = 2
grpc_number GrpcCode.invalid_argument = 3
grpc_number GrpcCode.deadline_exceeded = 4
grpc_number GrpcCode.not_found = 5
grpc_number GrpcCode.already_exists = 6
grpc_number GrpcCode.permission_denied = 7
grpc_number GrpcCode.resource_exhausted = 8
grpc_number GrpcCode.failed_precondition = 9
grpc_number GrpcCode.aborted = 10
grpc_number GrpcCode.out_of_range = 11
grpc_number GrpcCode.unimplemented = 12
grpc_number GrpcCode.internal = 13
grpc_number GrpcCode.unavailable = 14
grpc_number GrpcCode.data_loss = 15
grpc_number GrpcCode.unauthenticated = 16
grpc_number (GrpcCode.other n) = n + 17

unfoldable pub grpc_code_name : GrpcCode → Text
unfolding format_nat
grpc_code_name GrpcCode.ok = codes "OK"
grpc_code_name GrpcCode.canceled = codes "CANCELLED"
grpc_code_name GrpcCode.unknown = codes "UNKNOWN"
grpc_code_name GrpcCode.invalid_argument = codes "INVALID_ARGUMENT"
grpc_code_name GrpcCode.deadline_exceeded = codes "DEADLINE_EXCEEDED"
grpc_code_name GrpcCode.not_found = codes "NOT_FOUND"
grpc_code_name GrpcCode.already_exists = codes "ALREADY_EXISTS"
grpc_code_name GrpcCode.permission_denied = codes "PERMISSION_DENIED"
grpc_code_name GrpcCode.resource_exhausted = codes "RESOURCE_EXHAUSTED"
grpc_code_name GrpcCode.failed_precondition = codes "FAILED_PRECONDITION"
grpc_code_name GrpcCode.aborted = codes "ABORTED"
grpc_code_name GrpcCode.out_of_range = codes "OUT_OF_RANGE"
grpc_code_name GrpcCode.unimplemented = codes "UNIMPLEMENTED"
grpc_code_name GrpcCode.internal = codes "INTERNAL"
grpc_code_name GrpcCode.unavailable = codes "UNAVAILABLE"
grpc_code_name GrpcCode.data_loss = codes "DATA_LOSS"
grpc_code_name GrpcCode.unauthenticated = codes "UNAUTHENTICATED"
grpc_code_name (GrpcCode.other n) = codes "Code(" ++ (format_nat (n + 17) ++ codes ")")

-- An error of a call, as status.FromError reads it: with a status, or with none (`plain`, its text).
pub data CallError : Type 0 where
  with_status : GrpcCode → Text → CallError
  plain : Text → CallError

-- status.Code: Unknown for an error without a status.
abbrev pub status_code : CallError → GrpcCode
status_code (with_status code message) = code
status_code (plain message) = GrpcCode.unknown

abbrev pub same_code : GrpcCode → GrpcCode → Bool
same_code a b = grpc_number a == grpc_number b

-- `status.Code(err) == codes.NotFound`
abbrev pub is_not_found : CallError → Bool
is_not_found err = same_code (status_code err) GrpcCode.not_found

-- The broker's own numeric code, if the whole message is one.
unfoldable pub api_code : Text → Text
api_code message = if all_digits message then message else []

-- The switch over the status code, on an error whose other fields are set.
unfoldable pub classify_code : GrpcCode → ℤ → CliError → CliError
classify_code GrpcCode.unauthenticated after e = record e { code = Code.auth }
classify_code GrpcCode.permission_denied after e = record e { code = Code.auth }
classify_code GrpcCode.resource_exhausted after e = record e {
  code = Code.rate_limited;
  retryable = true;
  retry_after = after;
}
classify_code GrpcCode.invalid_argument after e = record e { code = Code.broker_rejected }
classify_code GrpcCode.failed_precondition after e = record e { code = Code.broker_rejected }
classify_code GrpcCode.not_found after e = record e { code = Code.broker_rejected }
classify_code GrpcCode.unavailable after e = record e { code = Code.network; retryable = true }
classify_code GrpcCode.deadline_exceeded after e = record e {
  code = Code.network;
  retryable = true;
}
classify_code GrpcCode.canceled after e = record e { code = Code.network; retryable = true }
classify_code _ after e = record e { code = Code.internal }

abbrev pub is_sent_unconfirmed : Phase → Bool
is_sent_unconfirmed Phase.sent_unconfirmed = true
is_sent_unconfirmed _ = false

-- The error before its code is decided: `e` in Classify.
unfoldable pub observed_error : CallError → CallContext → CliError
unfolding grpc_code_name api_code phase_string
observed_error (with_status code message) cc =
    record (cli_error Code.internal (if is_empty cc.api_message then message else cc.api_message)) {
      grpc_code = grpc_code_name code;
      api_code = api_code message;
      phase = phase_string cc.phase;
      tracking_id = cc.tracking_id;
    }
observed_error (plain message) cc =
    record (cli_error Code.internal (if is_empty cc.api_message then message else cc.api_message)) {
      phase = phase_string cc.phase;
      tracking_id = cc.tracking_id;
    }

unfoldable pub classify : CallError → CallContext → CliError
unfolding observed_error classify_code
classify (plain message) cc =
    let e = observed_error (plain message) cc in
    if cc.mutation && is_sent_unconfirmed cc.phase
    then record e { code = Code.unconfirmed }
    else record e { code = Code.internal }
classify (with_status code message) cc =
    let e = observed_error (with_status code message) cc in
    if cc.mutation && is_sent_unconfirmed cc.phase
    then record e { code = Code.unconfirmed }
    else if cc.mutation && text_eq e.api_code (codes "30057")
    then record e { code = Code.unconfirmed }
    else if text_eq e.api_code (codes "40003")
    then record e { code = Code.auth }
    else classify_code code cc.retry_after e
