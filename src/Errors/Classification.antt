-- ===== src/Errors/Classification.antt =====
-- When a failed call is UNCONFIRMED, and what a retryable failure is.
use tinvest.Prelude.{
  Bool, true, false, ◌≡◌, ◌⊎◌, ◌&&◌, ◌||◌, [], Text, codes, text_eq, all_digits, text_eq_sound,
  arith, ◌==◌, inl, inr, Bool-cases, sym,
}
use tinvest.Phase.{phase_string}
use tinvest.Errors.{
  Code, CallError, with_status, plain, CallContext, exit_code, is_sent_unconfirmed, api_code,
  classify,
}

-- The broker's "duplicate order, but the order report was not found".
abbrev pub is_duplicate : CallError → Bool
is_duplicate (with_status code message) = text_eq message (codes "30057")
is_duplicate (plain message) = false

pub text_eq-api_code :
    (m n : Text) → all_digits n ≡ true → text_eq [] n ≡ false → text_eq (api_code m) n ≡ text_eq m n
unfolding api_code
text_eq-api_code m n d e = elim (Bool-cases (all_digits m)) [
  | inl all ↦ rw all
  | inr some_other ↦ rw (some_other, e) (sym (differ (Bool-cases (text_eq m n)) some_other))
]
  where
    differ :
        (text_eq m n ≡ true) ⊎ (text_eq m n ≡ false) → all_digits m ≡ false → text_eq m n ≡ false
    differ (inl same) other = cc (text_eq_sound m n same)
    differ (inr h) other = h

-- The exit code is 7 exactly for a mutation that was sent with no definitive answer, or that the
-- broker answered with its code 30057; whatever the error's shape and status code.
pub exit_code-classify :
    (e : CallError) (cc : CallContext)
    → (exit_code (classify e cc).code == 7)
      ≡ (cc.mutation && (is_sent_unconfirmed cc.phase || is_duplicate e))
unfolding exit_code classify
exit_code-classify (plain m) cc = ground arith
exit_code-classify (with_status c m) cc = ground (arith, text_eq-api_code m (codes "30057"))

-- A retryable failure is RATE_LIMITED or NETWORK, and never one whose mutation may have reached the
-- broker with no answer; on every branch the call's phase and tracking id are reported as observed.
pub retryable-classify :
    (e : CallError) (cc : CallContext)
    → ((classify e cc).retryable ≡ true
        → (((classify e cc).code ≡ Code.rate_limited) ⊎ ((classify e cc).code ≡ Code.network))
          × ((cc.mutation && (is_sent_unconfirmed cc.phase || is_duplicate e)) ≡ false))
      × ((classify e cc).phase ≡ phase_string cc.phase)
      × ((classify e cc).tracking_id ≡ cc.tracking_id)
unfolding classify
retryable-classify (plain m) cc = ground arith
retryable-classify (with_status c m) cc = ground (arith, text_eq-api_code m (codes "30057"))
