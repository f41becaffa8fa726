-- ===== src/Retry/Attempts.antt =====
-- How often the retry loop calls the broker, and between which calls.
use mathlib.Core.Path.{subst}
use tinvest.Prelude.{
  ℕ, zero, suc, ◌+◌, ◌≤◌, ◌<◌, ◌≡◌, Bool, true, false, not, ◌&&◌, ◌||◌, refl, ap, ◌∙◌, Option, none,
  some, Bool-cases, inl, inr, Text, ◌==◌, if◌then◌else◌, arith,
}
use tinvest.Prelude.Int.{ℤ}
use tinvest.Errors.{CallError}
use tinvest.Retry.{
  RetryPolicy, Wire, Attempt, Verdict, give_up, again, judge, before, Run, called_once_more,
  retry_loop, retry_eligible, intercept,
}

abbrev pub is_again : Verdict → Bool
is_again give_up = false
is_again (again next) = true

-- An attempt failed in a way that the policy repeats.
abbrev pub may_retry : RetryPolicy → Attempt → Bool
may_retry policy a = elim a.error [ none ↦ false | some err ↦ is_again (judge policy a err) ]

judged_by : RetryPolicy → Attempt → Option CallError → Bool
judged_by policy a o = elim o [ none ↦ false | some err ↦ is_again (judge policy a err) ]

may_retry-again :
    (policy : RetryPolicy) (a : Attempt) (err : CallError) (next : Option ℤ)
    → a.error ≡ some err
    → judge policy a err ≡ again next
    → may_retry policy a ≡ true
unfolding judged_by
may_retry-again policy a err next failed e = ap (judged_by policy a) failed ∙ ap is_again e

-- What holds of a run from an attempt on.
record IsBounded (policy : RetryPolicy) (w : Wire) (attempt left : ℕ) (r : Run) : Type 0 where
  bounded : r.calls ≤ left
  earned : (n : ℕ) → suc n < r.calls → may_retry policy (w.attempts (attempt + n)) ≡ true

stopped :
    (policy : RetryPolicy) (w : Wire) (attempt left c : ℕ) (e : Option CallError)
    → c ≤ 1
    → c ≤ left
    → IsBounded policy w attempt left (record { result = e; calls = c })
stopped policy w attempt left c e h k = record { bounded = k; earned = λ n l. absurd (omega arith) }

zero_after : (a : ℕ) → a ≡ a + 0
zero_after a = omega arith

suc_after : (a n : ℕ) → suc a + n ≡ a + suc n
suc_after a n = omega arith

resumed :
    (policy : RetryPolicy) (w : Wire) (attempt left : ℕ) (r : Run)
    → may_retry policy (w.attempts attempt) ≡ true
    → IsBounded policy w (suc attempt) left r
    → IsBounded policy w attempt (suc left) (called_once_more r)
resumed policy w attempt left r m h = record { bounded = omega (arith, h.bounded); earned = each }
  where
    repeated : ℕ → Type 0
    repeated k = may_retry policy (w.attempts k) ≡ true

    each : (n : ℕ) → suc n < suc r.calls → may_retry policy (w.attempts (attempt + n)) ≡ true
    each zero l = subst repeated (zero_after attempt) m
    each (suc n) l = subst repeated (suc_after attempt n) (h.earned n (omega arith))

retry_loop-IsBounded :
    (policy : RetryPolicy) (w : Wire) (attempt left : ℕ) (fixed : Option ℤ)
    (last : Option CallError)
    → IsBounded policy w attempt left (retry_loop policy w attempt left fixed last)
unfolding retry_loop
retry_loop-IsBounded policy w attempt zero fixed last =
    stopped policy w attempt 0 0 last (omega arith) (omega arith)
retry_loop-IsBounded policy w attempt (suc left) fixed last =
    awake (before w attempt fixed) (w.attempts attempt).error refl
      (λ next err. retry_loop-IsBounded policy w (suc attempt) left next (some err))
  where
    from : Option ℤ → CallError → Run
    from next err = retry_loop policy w (suc attempt) left next (some err)

    judged :
        (err : CallError)
        → (w.attempts attempt).error ≡ some err
        → (v : Verdict) → judge policy (w.attempts attempt) err ≡ v
        → ((next : Option ℤ) (err : CallError)
            → IsBounded policy w (suc attempt) left (from next err))
        → IsBounded policy w attempt (suc left) (elim v [
          | give_up ↦ record { result = some err; calls = 1 }
          | again next ↦ called_once_more (from next err)
        ])
    judged err failed give_up e rest =
        stopped policy w attempt (suc left) 1 (some err) (omega arith) (omega arith)
    judged err failed (again next) e rest =
        resumed policy w attempt left (from next err)
          (may_retry-again policy (w.attempts attempt) err next failed e) (rest next err)

    awake :
        (o e : Option CallError)
        → (w.attempts attempt).error ≡ e
        → ((next : Option ℤ) (err : CallError)
            → IsBounded policy w (suc attempt) left (from next err))
        → IsBounded policy w attempt (suc left) (elim o [
          | some expired ↦ record { result = some expired; calls = 0 }
          | none ↦ elim e [
            | none ↦ record { result = none; calls = 1 }
            | some err ↦ elim (judge policy (w.attempts attempt) err) [
              | give_up ↦ record { result = some err; calls = 1 }
              | again next ↦ called_once_more (from next err)
            ]
          ]
        ])
    awake (some expired) e h rest =
        stopped policy w attempt (suc left) 0 (some expired) (omega arith) (omega arith)
    awake none none h rest = stopped policy w attempt (suc left) 1 none (omega arith) (omega arith)
    awake none (some err) h rest = judged err h (judge policy (w.attempts attempt) err) refl rest

retry_loop-first :
    (policy : RetryPolicy) (w : Wire) (n : ℕ) (h : 0 < n)
    → 0 < (retry_loop policy w 0 n none none).calls
unfolding retry_loop
retry_loop-first policy w zero h = absurd (omega arith)
retry_loop-first policy w (suc left) h = called (w.attempts 0).error
  where
    judged :
        (err : CallError) (v : Verdict)
        → 0
          < (elim v as (λ x. Run) [
            | give_up ↦ record { result = some err; calls = 1 }
            | again next ↦ called_once_more (retry_loop policy w 1 left next (some err))
          ]).calls
    judged err give_up = omega arith
    judged err (again next) = omega arith

    called :
        (e : Option CallError)
        → 0
          < (elim e as (λ x. Run) [
            | none ↦ record { result = none; calls = 1 }
            | some err ↦ elim (judge policy (w.attempts 0) err) [
              | give_up ↦ record { result = some err; calls = 1 }
              | again next ↦ called_once_more (retry_loop policy w 1 left next (some err))
            ]
          ]).calls
    called none = omega arith
    called (some err) = judged err (judge policy (w.attempts 0) err)

-- The broker is called at least once; exactly once for a method that is neither a read nor marked
-- idempotent, or under a policy without attempts; and otherwise at most the policy's number of
-- times. Every call but the last failed in a way that the policy repeats.
pub intercept-calls :
    (policy : RetryPolicy) (w : Wire) (idempotent : Bool) (method : Text)
    → let r = intercept policy w idempotent method in
      (0 < r.calls)
      × (r.calls ≤ (
          if retry_eligible idempotent method && not (policy.max_attempts == 0)
          then policy.max_attempts
          else 1))
      × ((n : ℕ) → suc n < r.calls → may_retry policy (w.attempts n) ≡ true)
unfolding intercept
intercept-calls policy w idempotent method =
    elim (Bool-cases (policy.max_attempts == 0 || not (retry_eligible idempotent method))) [
      | inl passed ↦ rw passed (omega arith, ground arith, λ n l. absurd (omega arith))
      | inr tried ↦ rw tried (
        retry_loop-first policy w policy.max_attempts (ground arith),
        ground (arith, bounded),
        λ n l. earned n l,
      )
    ]
  where
    run : Run
    run = retry_loop policy w 0 policy.max_attempts none none

    whole : IsBounded policy w 0 policy.max_attempts run
    whole = retry_loop-IsBounded policy w 0 policy.max_attempts none none

    bounded : run.calls ≤ policy.max_attempts
    bounded = whole.bounded

    plus_zero : (n : ℕ) → 0 + n ≡ n
    plus_zero n = omega arith

    earned : (n : ℕ) → suc n < run.calls → may_retry policy (w.attempts n) ≡ true
    earned n l =
        subst (λ k. may_retry policy (w.attempts k) ≡ true) (plus_zero n) (whole.earned n l)
