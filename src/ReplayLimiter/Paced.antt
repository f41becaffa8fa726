-- ===== src/ReplayLimiter/Paced.antt =====
-- How many sends waitN grants within one window.
use mathlib.Core.Path.{subst}
use tinvest.Prelude.{
  ℕ, zero, suc, ◌+◌, ◌-◌, ◌≤◌, ◌≡◌, refl, sym, ap, Bool, true, false, ◌&&◌, List, [], ◌∷◌, ◌++◌,
  length, length-append, replicate, leb, ltb, ◌==◌, ==_iff, Bool-cases, inl, inr, if_intro, arith,
}
use tinvest.ReplayLimiter.Terminates.{active-shorter}
use tinvest.ReplayLimiter.{
  Limiter, new_limiter, Timers, active, stamp_at, later, Waited, granted, cancelled, exceeded,
  unfinished, wait_loop, wait_n, Call, grants, clock_behind, limiter_behind, run_calls,
}

abbrev pub bump : Bool → ℕ → ℕ
bump true n = suc n
bump false n = n

-- The grants that are in the window that ends at a moment; and those after x, up to the window's length.
abbrev count_active : ℕ → ℕ → List ℕ → ℕ
count_active window m [] = 0
count_active window m (s ∷ older) = bump (ltb m (s + window)) (count_active window m older)

abbrev pub count_within : ℕ → ℕ → List ℕ → ℕ
count_within window x [] = 0
count_within window x (s ∷ older) =
    bump (ltb x s && leb s (x + window)) (count_within window x older)

-- Every grant was within the limit when it was made.
abbrev IsPaced : ℕ → ℕ → List ℕ → Type 0
IsPaced limit window [] = Unit
IsPaced limit window (s ∷ older) =
    (count_active window s (s ∷ older) ≤ limit) × IsPaced limit window older

-- What is in a window that reaches past s is active at s.
within_active :
    (window x s : ℕ) (h : List ℕ)
    → s ≤ x + window
    → count_within window x h ≤ count_active window s h
within_active window x s [] k = omega arith
within_active window x s (t ∷ older) k = ground (arith, within_active window x s older k)

IsPaced-count_within :
    (limit window x : ℕ) (h : List ℕ) → IsPaced limit window h → count_within window x h ≤ limit
IsPaced-count_within limit window x [] p = omega arith
IsPaced-count_within limit window x (s ∷ older) (fits, rest) =
    elim (Bool-cases (leb s (x + window))) [
      | inl inside ↦
          let most = within_active window x s (s ∷ older) (ground arith) in
          omega (arith, most, fits)
      | inr outside ↦ ground (arith, IsPaced-count_within limit window x older rest)
    ]

-- The stamps of a limiter hold every grant that a moment from now on can find active.
record IsKept (limit window : ℕ) (now : ℕ) (l : Limiter) (h : List ℕ) : Type 0 where
  pub same_limit : l.limit ≡ limit
  pub same_window : l.window ≡ window
  pub covers : (m : ℕ) → now ≤ m → count_active window m h ≤ length (active window m l.timestamps)
  pub paced : IsPaced limit window h

active-active :
    (window now m : ℕ) (ts : List ℕ)
    → now ≤ m
    → active window m (active window now ts) ≡ active window m ts
unfolding active
active-active window now m [] h = refl
active-active window now m (t ∷ ts) h = ground (arith, active-active window now m ts h)

active-append :
    (window m : ℕ) (xs ys : List ℕ)
    → length (active window m xs) + length (active window m ys)
      ≤ length (active window m (xs ++ ys))
unfolding active
active-append window m [] ys = omega arith
active-append window m (x ∷ xs) ys = elim (Bool-cases (leb (x + window) m)) [
  | inl old ↦ rw old (active-append window m xs ys)
  | inr new ↦ rw new (kept (active-shorter window m ys))
]
  where
    kept :
        length (active window m ys) ≤ length ys
        → length (x ∷ xs) + length (active window m ys) ≤ length ((x ∷ xs) ++ ys)
    kept h = omega (arith, h, length-append (x ∷ xs) ys)

active-replicate :
    (window m now k : ℕ) (h : List ℕ)
    → count_active window m (replicate k now ++ h)
      ≤ length (active window m (replicate k now)) + count_active window m h
unfolding active
active-replicate window m now zero h = omega arith
active-replicate window m now (suc k) h =
    ground (arith, active-replicate window m now k h, active-shorter window m (replicate k now))

-- A grant of k sends at once.
grant-IsPaced :
    (limit window now k : ℕ) (h : List ℕ)
    → k + count_active window now h ≤ limit
    → IsPaced limit window h
    → IsPaced limit window (replicate k now ++ h)
grant-IsPaced limit window now zero h few p = p
grant-IsPaced limit window now (suc k) h few p =
    (counted, grant-IsPaced limit window now k h (omega (arith, few)) p)
  where
    all_of :
        (n : ℕ) → count_active window now (replicate n now ++ h) ≤ n + count_active window now h
    all_of zero = omega arith
    all_of (suc n) = ground (arith, all_of n)

    counted : count_active window now (replicate (suc k) now ++ h) ≤ limit
    counted = let most = all_of (suc k) in omega (arith, most, few)

IsKept-later :
    (limit window before now : ℕ) (l : Limiter) (h : List ℕ)
    → before ≤ now
    → IsKept limit window before l h
    → IsKept limit window now l h
IsKept-later limit window before now l h step k = record {
  same_limit = k.same_limit;
  same_window = k.same_window;
  covers = λ m later_on. k.covers m (omega (arith, step, later_on));
  paced = k.paced;
}

-- A round of the loop drops what no later moment can find active.
pruned-IsKept :
    (limit window before now : ℕ) (l : Limiter) (h : List ℕ)
    → before ≤ now
    → IsKept limit window before l h
    → IsKept limit window now (record l { timestamps = active l.window now l.timestamps }) h
pruned-IsKept limit window before now l h step k = record {
  same_limit = k.same_limit;
  same_window = k.same_window;
  covers = λ m later_on.
      let covered = k.covers m (omega (arith, step, later_on)) in
      rw (k.same_window, active-active window now m l.timestamps later_on) covered;
  paced = k.paced;
}

length-replicate : (n x : ℕ) → length (replicate n x) ≡ n
length-replicate zero x = refl
length-replicate (suc n) x = ap suc (length-replicate n x)

granted-IsKept :
    (limit window now count : ℕ) (l : Limiter) (h : List ℕ)
    → length (active window now l.timestamps) + count ≤ limit
    → IsKept limit window now l h
    → IsKept limit window now
        (record l { timestamps = l.timestamps ++ replicate count now })
        (replicate count now ++ h)
granted-IsKept limit window now count l h fits k = record {
  same_limit = k.same_limit;
  same_window = k.same_window;
  covers = λ m later_on.
      let covered = k.covers m later_on in
      let both = active-append window m l.timestamps (replicate count now) in
      let new = active-replicate window m now count h in omega (arith, covered, both, new);
  paced =
      let covered = k.covers now (omega arith) in
      grant-IsPaced limit window now count h (omega (arith, covered, fits)) k.paced;
}

-- What a call leaves: the clock behind it, and the stamps.
abbrev IsKeptBehind : ℕ → ℕ → ℕ → ℕ → Limiter → List ℕ → Waited → Type 0
IsKeptBehind limit window now count l h w =
    (now ≤ clock_behind now w)
    × IsKept limit window (clock_behind now w) (limiter_behind l w) (grants count w h)

-- A later round, seen from the one before it.
round-IsKept :
    (limit window now now' count : ℕ) (l l' : Limiter) (h : List ℕ) (w : Waited)
    → now ≤ now'
    → IsKept limit window now l h
    → IsKeptBehind limit window now' count l' h w
    → IsKeptBehind limit window now count l h w
round-IsKept limit window now now' count l l' h (granted t m) step k (on, r) =
    (omega (arith, step, on), r)
round-IsKept limit window now now' count l l' h (cancelled t m) step k (on, r) =
    (omega (arith, step, on), r)
round-IsKept limit window now now' count l l' h exceeded step k r = (omega arith, k)
round-IsKept limit window now now' count l l' h unfinished step k r = (omega arith, k)

room_behind :
    (limit window now count : ℕ) (l : Limiter)
    → l.limit ≡ limit
    → l.window ≡ window
    → leb (length (active l.window now l.timestamps) + count) l.limit ≡ true
    → length (active window now (active l.window now l.timestamps)) + count ≤ limit
room_behind limit window now count l same_limit same_window fits = ground (
  arith,
  same_limit,
  ap (λ w. length (active w now l.timestamps)) same_window,
  ap (λ w. length (active window now (active w now l.timestamps))) same_window,
  ap (λ xs. length xs) (active-active window now now l.timestamps (omega arith)),
)

later_on : (now ready late : ℕ) → now ≤ later now ready + late
later_on now ready late = ground arith

wait_loop-IsKept :
    (env : Timers) (fuel i now count limit window : ℕ) (l : Limiter) (h : List ℕ)
    → IsKept limit window now l h
    → IsKeptBehind limit window now count l h (wait_loop env fuel i now count l)
unfolding wait_loop
wait_loop-IsKept env zero i now count limit window l h k = (omega arith, k)
wait_loop-IsKept env (suc fuel) i now count limit window l h k =
    let ts = active l.window now l.timestamps in
    let ready = stamp_at (length ts + count - l.limit - 1) ts + l.window in
    let now' = later now ready + env.late i in
    let pruned = record l { timestamps = ts } in
    let step = later_on now ready (env.late i) in
    let kept = pruned-IsKept limit window now now l h (omega arith) k in
    if_intro (IsKeptBehind limit window now count l h) (leb (length ts + count) l.limit) _ _
      (λ fits. (
        omega arith,
        granted-IsKept limit window now count pruned h
            (room_behind limit window now count l k.same_limit k.same_window fits) kept,
      ))
      (λ full.
        if_intro (IsKeptBehind limit window now count l h) (env.cut_off i) _ _
          (λ cut. (omega arith, kept))
          (λ on. round-IsKept limit window now now' count l pruned h _ step k (
            wait_loop-IsKept env fuel (suc i) now' count limit window pruned h
              (IsKept-later limit window now now' pruned h step kept))))

wait_n-IsKept :
    (env : Timers) (fuel i now count limit window : ℕ) (l : Limiter) (h : List ℕ)
    → IsKept limit window now l h
    → IsKeptBehind limit window now count l h (wait_n env fuel i now count l)
unfolding wait_n
wait_n-IsKept env fuel i now count limit window l h k = elim (Bool-cases (count == 0)) [
  | inl nothing ↦ rw nothing (
    omega arith,
    subst (λ n. IsKept limit window now l (replicate n now ++ h)) (sym ((==_iff count 0).0 nothing))
        k,
  )
  | inr something ↦ rw something (
      if_intro (IsKeptBehind limit window now count l h) (ltb l.limit count) exceeded _
        (λ over. (omega arith, k))
        (λ within. wait_loop-IsKept env fuel i now count limit window l h k))
]

run_calls-IsPaced :
    (calls : List Call) (now limit window : ℕ) (l : Limiter) (h : List ℕ)
    → IsKept limit window now l h
    → IsPaced limit window (run_calls calls now l h)
unfolding run_calls
run_calls-IsPaced [] now limit window l h k = k.paced
run_calls-IsPaced (c ∷ calls) now limit window l h k =
    let start = now + c.gap in
    let w = wait_n c.timers 2 0 start c.count l in
    let behind =
      wait_n-IsKept c.timers 2 0 start c.count limit window l h
        (IsKept-later limit window now start l h (omega arith) k) in
    run_calls-IsPaced calls (clock_behind start w) limit window (limiter_behind l w)
      (grants c.count w h) behind.1

-- Whatever calls of waitN are made on a new limiter, at whatever moments, and however long or cut off
-- their waits: of all the sends they grant, at most the limit fall within any stretch of time as long
-- as the window.
pub run_calls-count_within :
    (calls : List Call) (limit window now x : ℕ)
    → let l = new_limiter limit window in
      count_within l.window x (run_calls calls now l []) ≤ l.limit
unfolding new_limiter
run_calls-count_within calls limit window now x =
    let l = new_limiter limit window in
    IsPaced-count_within l.limit l.window x (run_calls calls now l []) (
      run_calls-IsPaced calls now l.limit l.window l []
        (record { same_limit = refl; same_window = refl; covers = λ m k. omega arith; paced = tt }))
