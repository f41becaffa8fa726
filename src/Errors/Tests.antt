-- ===== src/Errors/Tests.antt =====
-- The theorems about error classes at concrete failures.
use tinvest.Prelude.{◌≡◌, true, false, [], codes, ◌==◌, ◌⊎◌}
use tinvest.Prelude.Int.{pos}
use tinvest.Phase.{Phase, phase_string}
use tinvest.Errors.{Code, GrpcCode, with_status, CallContext, exit_code, classify}
use tinvest.Errors.Classification.{exit_code-classify, retryable-classify}

abbrev timed_out : CallContext
timed_out = record {
  phase = Phase.sent_unconfirmed;
  tracking_id = [];
  retry_after = pos 0;
  api_message = [];
  mutation = true;
}

exit_code-classify_example :
    (exit_code (classify (with_status GrpcCode.deadline_exceeded (codes "late")) timed_out).code
      == 7)
    ≡ true
exit_code-classify_example =
    exit_code-classify (with_status GrpcCode.deadline_exceeded (codes "late")) timed_out

abbrev limited : CallContext
limited = record timed_out { phase = Phase.confirmed; tracking_id = codes "t1" }

retryable-classify_example :
    ((classify (with_status GrpcCode.resource_exhausted (codes "80002")) limited).retryable ≡ true
      → (((classify (with_status GrpcCode.resource_exhausted (codes "80002")) limited).code
            ≡ Code.rate_limited)
          ⊎ ((classify (with_status GrpcCode.resource_exhausted (codes "80002")) limited).code
              ≡ Code.network))
        × (◌≡◌ false false))
    × ((classify (with_status GrpcCode.resource_exhausted (codes "80002")) limited).phase
        ≡ phase_string Phase.confirmed)
    × ((classify (with_status GrpcCode.resource_exhausted (codes "80002")) limited).tracking_id
        ≡ codes "t1")
retryable-classify_example =
    retryable-classify (with_status GrpcCode.resource_exhausted (codes "80002")) limited
