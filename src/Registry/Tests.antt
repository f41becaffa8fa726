-- ===== src/Registry/Tests.antt =====
-- A registry at concrete calls.
use tinvest.Prelude.{ℕ, ◌≡◌, refl, true, false, List, [], ◌∷◌, some, none, codes}
use tinvest.Registry.{new_registry, add, remove, replay_snapshot, subscription_count, snapshot_of}
use tinvest.Registry.Replay.{
  Change, added, removed, changes, IsRegistry, requests_of, replay_snapshot-changes,
}

-- A replaced subscription, a control request, a removal and a nil request.
abbrev calls : List (Change ℕ)
calls =
    added (codes "a") (some 1) true
    ∷ added (codes "p") (some 7) false
    ∷ added (codes "b") (some 2) true
    ∷ added (codes "a") (some 3) true
    ∷ removed (codes "b")
    ∷ added (codes "c") none true
    ∷ []

replay_snapshot-changes_example :
    let r = changes new_registry calls in
    IsRegistry r × (replay_snapshot r ≡ (requests_of r.requests, subscription_count r))
replay_snapshot-changes_example = replay_snapshot-changes ℕ calls

replayed : replay_snapshot (changes new_registry calls) ≡ (3 ∷ 7 ∷ [], 1)
unfolding new_registry add remove replay_snapshot snapshot_of
replayed = refl
