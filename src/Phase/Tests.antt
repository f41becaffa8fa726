-- ===== src/Phase/Tests.antt =====
-- The theorems about the call phase at concrete histories.
use tinvest.Prelude.{◌≡◌, true, false, [], ◌∷◌, List, codes}
use text.Mathlib.Text.{◌==◌}
use tinvest.Phase.{
  Phase, Metadata, RpcStats, begin, out_payload, in_trailer, ended, new_call_info, phase, observe,
}
use tinvest.Phase.LastAttempt.{phase-observe}

abbrev tracked : Metadata
tracked key = elim (key == "x-tracking-id") [ true ↦ codes "t1" ∷ [] | false ↦ [] ]

-- A confirmed attempt, then one that times out behind its send.
abbrev history : List RpcStats
history = begin ∷ out_payload ∷ in_trailer tracked ∷ begin ∷ out_payload ∷ ended true ∷ []

phase-observe_example : phase (observe new_call_info history) ≡ Phase.sent_unconfirmed
phase-observe_example = phase-observe history
