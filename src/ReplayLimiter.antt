-- ===== src/ReplayLimiter.antt =====
-- internal/stream/replay_limiter.go: the rolling cap on subscription sends across reconnects. Moments
-- and durations are nanoseconds. The clock and the context are the `Timers`: a wait ends `late` after
-- the moment it is for, or is cut off.
pub mod Terminates
pub mod Paced
mod Tests
use tinvest.Prelude.{
  ℕ, zero, suc, ◌+◌, ◌-◌, Bool, true, false, List, [], ◌∷◌, ◌++◌, Option, none, some, length,
  replicate, leb, ltb, ◌==◌, if◌then◌else◌,
}

pub record Limiter : Type 0 where
  pub limit : ℕ
  pub window : ℕ
  pub timestamps : List ℕ

-- DefaultReplayLimit and DefaultReplayWindow; 0 stands for every value that is not positive.
abbrev pub default_limit : ℕ
default_limit = 100

abbrev pub default_window : ℕ
default_window = 60000000000

unfoldable pub new_limiter : ℕ → ℕ → Limiter
new_limiter limit window = record {
  limit = if limit == 0 then default_limit else limit;
  window = if window == 0 then default_window else window;
  timestamps = [];
}

-- By the number of the wait.
pub record Timers : Type 0 where
  pub late : ℕ → ℕ
  pub cut_off : ℕ → Bool

-- The stamps behind the first ones that are not after the cutoff, now less the window.
unfoldable pub active : ℕ → ℕ → List ℕ → List ℕ
active window now [] = []
active window now (t ∷ ts) =
    let rest = active window now ts in if leb (t + window) now then rest else t ∷ ts

-- timestamps[n], of a list that is longer than n.
abbrev pub stamp_at : ℕ → List ℕ → ℕ
stamp_at n [] = 0
stamp_at zero (t ∷ ts) = t
stamp_at (suc n) (t ∷ ts) = stamp_at n ts

-- The end of a wait from now to a moment, which may have passed.
abbrev pub later : ℕ → ℕ → ℕ
later now ready = if leb now ready then ready else now

-- What waitN returns, with the clock and the limiter behind it; `unfinished` where the fuel is used up.
pub data Waited : Type 0 where
  granted : ℕ → Limiter → Waited
  cancelled : ℕ → Limiter → Waited
  exceeded : Waited
  unfinished : Waited

-- The loop: `i` is the number of the next wait.
unfoldable pub wait_loop : Timers → ℕ → ℕ → ℕ → ℕ → Limiter → Waited
wait_loop env zero i now count l = unfinished
wait_loop env (suc fuel) i now count l =
    let ts = active l.window now l.timestamps in
    let ready = stamp_at (length ts + count - l.limit - 1) ts + l.window in
    let pruned = record l { timestamps = ts } in
    let rest = wait_loop env fuel (suc i) (later now ready + env.late i) count pruned in
    if leb (length ts + count) l.limit
    then granted now (record l { timestamps = ts ++ replicate count now })
    else if env.cut_off i
    then cancelled now pruned
    else rest

-- `waitN`
unfoldable pub wait_n : Timers → ℕ → ℕ → ℕ → ℕ → Limiter → Waited
wait_n env fuel i now count l =
    if count == 0
    then granted now l
    else if ltb l.limit count
    then exceeded
    else wait_loop env fuel i now count l

-- Calls of waitN, each `gap` after the one before it; a call has its own timers.
pub record Call : Type 0 where
  pub gap : ℕ
  pub count : ℕ
  pub timers : Timers

-- The moments of all grants, the latest first.
abbrev pub grants : ℕ → Waited → List ℕ → List ℕ
grants count (granted now l) history = replicate count now ++ history
grants count _ history = history

abbrev pub clock_behind : ℕ → Waited → ℕ
clock_behind now (granted t l) = t
clock_behind now (cancelled t l) = t
clock_behind now _ = now

abbrev pub limiter_behind : Limiter → Waited → Limiter
limiter_behind l (granted t l') = l'
limiter_behind l (cancelled t l') = l'
limiter_behind l _ = l

-- A run of calls, each with fuel 2.
unfoldable pub run_calls : List Call → ℕ → Limiter → List ℕ → List ℕ
run_calls [] now l history = history
run_calls (c ∷ calls) now l history =
    let start = now + c.gap in
    let w = wait_n c.timers 2 0 start c.count l in
    run_calls calls (clock_behind start w) (limiter_behind l w) (grants c.count w history)
