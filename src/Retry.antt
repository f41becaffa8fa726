-- ===== src/Retry.antt =====
-- internal/transport/retry: which calls are repeated, how often and after what waits. The broker and
-- the clock are the `Wire`: what each attempt returns, and whether the context ends during a wait.
pub mod Attempts
pub mod Backoff
mod Tests
use tinvest.Prelude.{
  ℕ, zero, suc, ◌+◌, ◌*◌, ◌/◌, ◌%◌, ◌^◌, Bool, true, false, not, ◌&&◌, ◌||◌, List, [], ◌∷◌, ◌++◌,
  Option, none, some, Text, codes, text_eq, ◌==◌, if◌then◌else◌,
}
use tinvest.Prelude.Int.{ℤ, pos, ◌*ℤ◌, is_pos, wrap64, ltb_ℤ}
use tinvest.Phase.{Metadata, second, reset_interval}
use tinvest.Errors.{CallError, with_status, plain, GrpcCode, status_code, same_code}

abbrev pub default_backoff_base : ℤ
default_backoff_base = pos 100_000_000

abbrev pub default_backoff_cap : ℤ
default_backoff_cap = pos 5_000_000_000

pub record RetryPolicy : Type 0 where
  pub max_attempts : ℕ
  pub per_call_codes : List GrpcCode
  pub rate_limit_retry : Bool

unfoldable pub default_retry_policy : RetryPolicy
default_retry_policy = record {
  max_attempts = 3;
  per_call_codes = GrpcCode.unavailable ∷ [];
  rate_limit_retry = true;
}

-- The allowlist of reads: names of the InstrumentsService.
abbrev instruments_service : Text
instruments_service = codes "/tinkoff.public.invest.api.contract.v1.InstrumentsService/"

abbrev read_names : List Text
read_names =
    codes "BondBy"
    ∷ codes "Bonds"
    ∷ codes "Currencies"
    ∷ codes "CurrencyBy"
    ∷ codes "DfaBy"
    ∷ codes "Dfas"
    ∷ codes "EtfBy"
    ∷ codes "Etfs"
    ∷ codes "FutureBy"
    ∷ codes "Futures"
    ∷ codes "Indicatives"
    ∷ codes "News"
    ∷ codes "OptionBy"
    ∷ codes "Options"
    ∷ codes "OptionsBy"
    ∷ codes "ShareBy"
    ∷ codes "Shares"
    ∷ codes "StructuredNoteBy"
    ∷ codes "StructuredNotes"
    ∷ codes "TradingSchedules"
    ∷ []

abbrev is_listed : Text → List Text → Bool
is_listed m [] = false
is_listed m (n ∷ ns) = text_eq m (instruments_service ++ n) || is_listed m ns

abbrev has_prefix : Text → Text → Bool
has_prefix [] s = true
has_prefix (c ∷ p) [] = false
has_prefix (c ∷ p) (d ∷ s) = c == d && has_prefix p s

-- The part behind the last "/", or the whole.
abbrev last_segment : Text → Text → Text
last_segment seen [] = seen
last_segment seen (c ∷ s) = last_segment (if c == 47 then s else seen) s

unfoldable pub is_read_method : Text → Bool
is_read_method m =
    let name = last_segment m m in
    is_listed m read_names || has_prefix (codes "Get") name || has_prefix (codes "Find") name

unfoldable pub retry_eligible : Bool → Text → Bool
unfolding is_read_method
retry_eligible idempotent m = is_read_method m || idempotent

-- `exponentBase2` on a 64-bit uint.
unfoldable pub exponent_base2 : ℕ → ℕ
exponent_base2 attempt = (2 ^ attempt % 2 ^ 64) / 2

-- The wait of exponentialJitterBackoff before its jitter.
unfoldable pub capped_backoff : ℤ → ℤ → ℕ → ℤ
capped_backoff base cap attempt =
    let d = wrap64 (base *ℤ wrap64 (pos (exponent_base2 attempt))) in
    if not (is_pos d) || ltb_ℤ cap d then cap else d

-- What one attempt returns: an error or none, whether the error refuses retries, and the trailer.
pub record Attempt : Type 0 where
  pub error : Option CallError
  pub no_retry : Bool
  pub trailer : Metadata

-- `expires n d`: the context's error, if it ends during the wait d before attempt n. `jitter` is
-- jitterUp with the default fraction, on floats and random numbers.
pub record Wire : Type 0 where
  pub attempts : ℕ → Attempt
  pub expires : ℕ → ℤ → Option CallError
  pub jitter : ℕ → ℤ → ℤ

unfoldable pub retryable_code : GrpcCode → List GrpcCode → Bool
retryable_code code [] = false
retryable_code code (c ∷ cs) = same_code c code || retryable_code code cs

-- `rateLimitReset`: strconv.Atoi is ParseInt of base 10 where an int has 64 bits.
unfoldable pub rate_limit_reset : Metadata → Option ℤ
unfolding reset_interval
rate_limit_reset md = reset_interval (md "x-ratelimit-reset")

-- What the loop does behind a failed attempt.
pub data Verdict : Type 0 where
  give_up : Verdict
  again : Option ℤ → Verdict

unfoldable pub judge_code : RetryPolicy → GrpcCode → Verdict
judge_code policy code = if retryable_code code policy.per_call_codes then again none else give_up

unfoldable pub judge : RetryPolicy → Attempt → CallError → Verdict
judge policy a err =
    if a.no_retry
    then give_up
    else if same_code (status_code err) GrpcCode.resource_exhausted && policy.rate_limit_retry
    then elim (rate_limit_reset a.trailer) [
      | some d ↦ again (some d)
      | none ↦ judge_code policy (status_code err)
    ]
    else judge_code policy (status_code err)

-- `sleep`
unfoldable pub sleep : Wire → ℕ → ℤ → Option CallError
sleep w attempt d = if is_pos d then w.expires attempt d else none

-- The wait before an attempt, the first excepted.
unfoldable pub wait_before : Wire → ℕ → Option ℤ → ℤ
wait_before w attempt (some d) = w.jitter attempt d
wait_before w attempt none =
    w.jitter attempt (capped_backoff default_backoff_base default_backoff_cap attempt)

abbrev before : Wire → ℕ → Option ℤ → Option CallError
before w zero fixed = none
before w (suc n) fixed = sleep w (suc n) (wait_before w (suc n) fixed)

-- The error that the call ends with, and how often the broker was called.
pub record Run : Type 0 where
  pub result : Option CallError
  pub calls : ℕ

abbrev called_once_more : Run → Run
called_once_more r = record { result = r.result; calls = suc r.calls }

-- The loop from an attempt on, with the attempts that are left, a wait that the broker has named, and
-- the last error.
unfoldable pub retry_loop : RetryPolicy → Wire → ℕ → ℕ → Option ℤ → Option CallError → Run
retry_loop policy w attempt zero fixed last = record { result = last; calls = 0 }
retry_loop policy w attempt (suc left) fixed last = elim (before w attempt fixed) [
  | some expired ↦ record { result = some expired; calls = 0 }
  | none ↦ elim (w.attempts attempt).error [
    | none ↦ record { result = none; calls = 1 }
    | some err ↦ elim (judge policy (w.attempts attempt) err) [
      | give_up ↦ record { result = some err; calls = 1 }
      | again next ↦ called_once_more (retry_loop policy w (suc attempt) left next (some err))
    ]
  ]
]

-- The interceptor of NewUnaryClientInterceptor, on a method and the context's idempotent mark.
unfoldable pub intercept : RetryPolicy → Wire → Bool → Text → Run
intercept policy w idempotent method =
    if policy.max_attempts == 0 || not (retry_eligible idempotent method)
    then record { result = (w.attempts 0).error; calls = 1 }
    else retry_loop policy w 0 policy.max_attempts none none
