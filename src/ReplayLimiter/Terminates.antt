-- ===== src/ReplayLimiter/Terminates.antt =====
-- The loop of waitN ends in its second round at the latest.
use tinvest.Prelude.{
  ℕ, zero, suc, ◌+◌, ◌-◌, ◌≤◌, ◌<◌, ◌≡◌, ◌≢◌, refl, ap, Bool, true, false, List, [], ◌∷◌, length,
  leb, Bool-cases, inl, inr, arith, if◌then◌else◌,
}
use tinvest.ReplayLimiter.{
  Limiter, Timers, active, stamp_at, later, Waited, cancelled, unfinished, wait_loop, wait_n,
}

-- Stamps that do not fall, from a moment.
abbrev pub IsRising : ℕ → List ℕ → Type 0
IsRising from [] = Unit
IsRising from (t ∷ ts) = (from ≤ t) × IsRising t ts

IsRising-lower : (a b : ℕ) (ts : List ℕ) → a ≤ b → IsRising b ts → IsRising a ts
IsRising-lower a b [] h k = tt
IsRising-lower a b (t ∷ ts) h k = let first = k.0 in (omega (arith, h, first), k.1)

pub active-IsRising :
    (window now from : ℕ) (ts : List ℕ) → IsRising from ts → IsRising from (active window now ts)
unfolding active
active-IsRising window now from [] h = tt
active-IsRising window now from (t ∷ ts) h = elim (Bool-cases (leb (t + window) now)) [
  | inl old ↦
      rw old
        (IsRising-lower from t (active window now ts) h.0 (active-IsRising window now t ts h.1))
  | inr new ↦ rw new h
]

pub active-shorter : (window now : ℕ) (ts : List ℕ) → length (active window now ts) ≤ length ts
unfolding active
active-shorter window now [] = omega arith
active-shorter window now (t ∷ ts) = ground (arith, active-shorter window now ts)

stamp_at-above :
    (from n : ℕ) (ts : List ℕ) → IsRising from ts → n < length ts → from ≤ stamp_at n ts
stamp_at-above from n [] h k = absurd (omega (arith, k))
stamp_at-above from zero (t ∷ ts) h k = h.0
stamp_at-above from (suc n) (t ∷ ts) h k =
    let first = h.0 in
    let rest = stamp_at-above t n ts h.1 (omega (arith, k)) in omega (arith, first, rest)

-- Once the n-th stamp has left the window, at least n + 1 have.
active-drops :
    (window now from n : ℕ) (ts : List ℕ)
    → IsRising from ts
    → n < length ts
    → stamp_at n ts + window ≤ now
    → length (active window now ts) + suc n ≤ length ts
unfolding active
active-drops window now from n [] h k e = absurd (omega (arith, k))
active-drops window now from zero (t ∷ ts) h k e = ground (arith, active-shorter window now ts)
active-drops window now from (suc n) (t ∷ ts) h k e =
    ground (arith, active-drops window now t n ts h.1, stamp_at-above t n ts h.1)

abbrev is_finished : Waited → Bool
is_finished unfinished = false
is_finished _ = true

round-granted :
    (env : Timers) (fuel i now count : ℕ) (l : Limiter)
    → length (active l.window now l.timestamps) + count ≤ l.limit
    → is_finished (wait_loop env (suc fuel) i now count l) ≡ true
unfolding wait_loop
round-granted env fuel i now count l h = ground arith

rounds-finished :
    (env : Timers) (fuel i now count : ℕ) (l : Limiter)
    → count ≤ l.limit
    → IsRising 0 l.timestamps
    → is_finished (wait_loop env (suc (suc fuel)) i now count l) ≡ true
unfolding wait_loop
rounds-finished env fuel i now count l few rising =
    elim (Bool-cases (leb (length ts + count) l.limit)) [
      | inl fits ↦ rw fits refl
      | inr full ↦ rw full (either _ _ (env.cut_off i) (next full))
    ]
  where
    ts : List ℕ
    ts = active l.window now l.timestamps

    needed : ℕ
    needed = length ts + count - l.limit

    ready : ℕ
    ready = stamp_at (needed - 1) ts + l.window

    now' : ℕ
    now' = later now ready + env.late i

    next :
        leb (length ts + count) l.limit ≡ false
        → is_finished (wait_loop env (suc fuel) (suc i) now' count (record l { timestamps = ts }))
          ≡ true
    next full =
        let rising' = active-IsRising l.window now 0 l.timestamps rising in
        let drops =
          active-drops l.window now' 0 (needed - 1) ts rising' (ground arith) (ground arith) in
        round-granted env fuel (suc i) now' count (record l { timestamps = ts }) (ground arith)

    either :
        (w : Waited) (p : Limiter) (cut : Bool)
        → is_finished w ≡ true
        → is_finished (if cut then cancelled now p else w) ≡ true
    either w p true h = refl
    either w p false h = h

-- A call of waitN ends within two rounds of its loop, for any count, clock and limiter whose stamps do
-- not fall: behind one wait the request fits.
pub wait_n-finishes :
    (env : Timers) (fuel i now count : ℕ) (l : Limiter)
    → IsRising 0 l.timestamps
    → wait_n env (suc (suc fuel)) i now count l ≢ unfinished
unfolding wait_n
wait_n-finishes env fuel i now count l rising e = cc (ap is_finished e, finished)
  where
    finished : is_finished (wait_n env (suc (suc fuel)) i now count l) ≡ true
    finished = ground (arith, rounds-finished env fuel i now count l)
