-- ===== src/Retry/Backoff.antt =====
-- The exponential wait, before its jitter, against exact arithmetic.
use mathlib.Core.Path.{subst}
use native.Mathlib.Omega.{pow_step}
use tinvest.Prelude.{
  ℕ, zero, suc, ◌+◌, ◌-◌, ◌*◌, ◌^◌, ◌<◌, ◌≡◌, Bool, true, false, ◌&&◌, refl, ap, ◌∙◌, Bool-cases,
  inl, inr, ◌==◌, leb, if◌then◌else◌, arith,
}
use tinvest.Prelude.Int.{ℤ, pos, negsuc, eq_ℤ, wrap64}
use tinvest.Retry.{default_backoff_base, default_backoff_cap, exponent_base2, capped_backoff}

-- 100ms doubled n times, in nanoseconds, and the cap of 5s.
abbrev pub doubled_wait : ℕ → ℕ
doubled_wait n =
    if leb (100_000_000 * 2 ^ n) 5_000_000_000 then 100_000_000 * 2 ^ n else 5_000_000_000

agrees : ℕ → Bool
agrees n =
    eq_ℤ (capped_backoff default_backoff_base default_backoff_cap (suc n)) (pos (doubled_wait n))

all_below : (ℕ → Bool) → ℕ → Bool
all_below p zero = true
all_below p (suc n) = p n && all_below p n

all_below_sound : (p : ℕ → Bool) (m n : ℕ) → all_below p m ≡ true → n < m → p n ≡ true
unfolding all_below
all_below_sound p zero n h l = absurd (omega arith)
all_below_sound p (suc m) n h l = elim (Bool-cases (n == m)) [
  | inl last ↦ subst (λ k. p k ≡ true) (same last) (ground arith)
  | inr earlier ↦ all_below_sound p m n (ground arith) (ground arith)
]
  where
    same : (n == m) ≡ true → m ≡ n
    same e = ground arith

eq_ℤ_sound : (a b : ℤ) → eq_ℤ a b ≡ true → a ≡ b
eq_ℤ_sound (pos a) (pos b) h = ground arith
eq_ℤ_sound (negsuc a) (negsuc b) h = ground arith
eq_ℤ_sound (pos a) (negsuc b) h = cc
eq_ℤ_sound (negsuc a) (pos b) h = cc

-- Up to a shift of 63 bits, by evaluation.
early : all_below agrees 63 ≡ true
unfolding all_below agrees capped_backoff exponent_base2 wrap64
early = refl

doubled : (a b : ℕ) → a ≡ suc b → 2 ^ a ≡ 2 * 2 ^ b
doubled a b h = ap (λ n. 2 ^ n) h ∙ pow_step 2 b

-- From there on the shift is out of the 64 bits.
power-split : (k : ℕ) → (2 ^ (k + 64) ≡ 18_446_744_073_709_551_616 * 2 ^ k) × (0 < 2 ^ k)
power-split zero = (refl, omega arith)
power-split (suc k) =
    let h = power-split k in
    (
      omega (arith, h.0, doubled (suc k + 64) (k + 64) (omega arith), doubled (suc k) k refl),
      omega (arith, h.1, doubled (suc k) k refl),
    )

late :
    (k : ℕ)
    → (exponent_base2 (k + 64) ≡ 0) × (leb (100_000_000 * 2 ^ (k + 63)) 5_000_000_000 ≡ false)
unfolding exponent_base2
late k =
    let (e, h) = power-split k in
    (ground arith, ground (arith, doubled (k + 64) (k + 63) (omega arith)))

late_wait :
    (k : ℕ)
    → capped_backoff default_backoff_base default_backoff_cap (k + 64) ≡ pos (doubled_wait (k + 63))
unfolding capped_backoff
late_wait k = let (e, h) = late k in rw (e, h) (unfold wrap64 in refl)

-- The wait before the n-th retry is 100ms doubled n - 1 times, or the cap of 5s where that is more,
-- for every n: the wrap-around of the shift and of the product never shows.
pub capped_backoff-lem :
    (n : ℕ) → capped_backoff default_backoff_base default_backoff_cap (suc n) ≡ pos (doubled_wait n)
unfolding agrees
capped_backoff-lem n = elim (Bool-cases (leb 63 n)) [
  | inl after ↦
      subst
        (λ k.
          capped_backoff default_backoff_base default_backoff_cap (suc k) ≡ pos (doubled_wait k))
        (same after)
        (subst
          (λ k.
            capped_backoff default_backoff_base default_backoff_cap k
            ≡ pos (doubled_wait (n - 63 + 63)))
          (next (n - 63)) (late_wait (n - 63)))
  | inr early_on ↦
      eq_ℤ_sound (capped_backoff default_backoff_base default_backoff_cap (suc n))
        (pos (doubled_wait n)) (all_below_sound agrees 63 n early (ground arith))
]
  where
    next : (k : ℕ) → k + 64 ≡ suc (k + 63)
    next k = omega arith

    same : leb 63 n ≡ true → n - 63 + 63 ≡ n
    same h = ground arith
