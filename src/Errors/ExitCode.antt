-- ===== src/Errors/ExitCode.antt =====
-- The exit codes against the error classes.
use tinvest.Prelude.{◌≡◌, ◌⊎◌, ◌≤◌, arith}
use tinvest.Errors.{Code, exit_code}

-- Nothing reached the broker: the two local classes.
abbrev pub IsLocal : Code → Type 0
IsLocal c = (c ≡ Code.usage) ⊎ (c ≡ Code.policy)

-- Two failures with one exit code have one class, unless both are local (USAGE or POLICY); and
-- every failure's exit code lies between 1 and 7.
exit_code-injective :
    (c d : Code)
    → exit_code c ≡ exit_code d
    → ((c ≡ d) ⊎ (IsLocal c × IsLocal d)) × (1 ≤ exit_code c) × (exit_code c ≤ 7)
unfolding exit_code
exit_code-injective c d h = ground arith
