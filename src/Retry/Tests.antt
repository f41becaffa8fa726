-- ===== src/Retry/Tests.antt =====
-- The retry loop at concrete inputs.
use tinvest.Prelude.{
  ℕ, zero, suc, ◌≤◌, ◌<◌, ◌≡◌, refl, true, false, not, ◌&&◌, [], Option, none, some, codes, ◌==◌,
  if◌then◌else◌,
}
use tinvest.Prelude.Int.{pos}
use tinvest.Errors.{CallError, with_status, GrpcCode}
use tinvest.Retry.{
  default_retry_policy, Wire, capped_backoff, default_backoff_base, default_backoff_cap,
  retry_eligible, intercept, is_read_method,
}
use tinvest.Retry.Attempts.{may_retry, intercept-calls}
use tinvest.Retry.Backoff.{doubled_wait, capped_backoff-lem}

-- Unavailable for the first two attempts, and then an answer.
abbrev busy : ℕ → Option CallError
busy zero = some (with_status GrpcCode.unavailable [])
busy (suc zero) = some (with_status GrpcCode.unavailable [])
busy (suc (suc n)) = none

abbrev wire : Wire
wire = record {
  attempts = λ n. record { error = busy n; no_retry = false; trailer = λ k. [] };
  expires = λ n d. none;
  jitter = λ n d. d;
}

intercept-calls_example :
    let r = intercept default_retry_policy wire true (codes "/OrdersService/PostOrder") in
    (0 < r.calls)
    × (r.calls ≤ (
        if retry_eligible true (codes "/OrdersService/PostOrder")
          && not (default_retry_policy.max_attempts == 0)
        then default_retry_policy.max_attempts
        else 1))
    × ((n : ℕ) → suc n < r.calls → may_retry default_retry_policy (wire.attempts n) ≡ true)
intercept-calls_example =
    intercept-calls default_retry_policy wire true (codes "/OrdersService/PostOrder")

capped_backoff-lem_example :
    capped_backoff default_backoff_base default_backoff_cap 3 ≡ pos (doubled_wait 2)
capped_backoff-lem_example = capped_backoff-lem 2

read_by_prefix : is_read_method (codes "/a.b/GetAccounts") ≡ true
unfolding is_read_method
read_by_prefix = refl

not_a_read : is_read_method (codes "/a.b/PostOrder") ≡ false
unfolding is_read_method
not_a_read = refl
