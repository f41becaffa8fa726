-- ===== src/Registry.antt =====
-- internal/stream/registry.go: the subscriptions that a reconnect replays. The Go map is an association
-- list, whose order no result shows; a nil registry is left out, and the lock makes each method a step.
pub mod Replay
mod Tests
use tinvest.Prelude.{
  ℕ, suc, Bool, true, false, ◌||◌, List, [], ◌∷◌, ◌++◌, Option, none, some, Text, text_eq, is_empty,
  if◌then◌else◌,
}

-- The loop of Remove over `order`, which stops at the first match.
abbrev pub erase : Text → List Text → List Text
erase key [] = []
erase key (k ∷ ks) = if text_eq k key then ks else k ∷ erase key ks

abbrev pub count_if : Bool → ℕ → ℕ
count_if true n = suc n
count_if false n = n

module _ (A : Type 0) where
  pub record RegistryEntry : Type 0 where
    pub request : A
    pub subscription : Bool

  pub record Registry : Type 0 where
    pub order : List Text
    pub requests : List (Text × RegistryEntry)

module _ {A : Type 0} where
  unfoldable pub new_registry : Registry A
  new_registry = record { order = []; requests = [] }

  abbrev pub lookup : Text → List (Text × RegistryEntry A) → Option (RegistryEntry A)
  lookup key [] = none
  lookup key ((k, e) ∷ m) = if text_eq k key then some e else lookup key m

  abbrev pub put :
      Text → RegistryEntry A → List (Text × RegistryEntry A) → List (Text × RegistryEntry A)
  put key e [] = (key, e) ∷ []
  put key e ((k, old) ∷ m) = if text_eq k key then (k, e) ∷ m else (k, old) ∷ put key e m

  abbrev pub delete : Text → List (Text × RegistryEntry A) → List (Text × RegistryEntry A)
  delete key [] = []
  delete key ((k, e) ∷ m) = if text_eq k key then m else (k, e) ∷ delete key m

  abbrev pub is_known : Option (RegistryEntry A) → Bool
  is_known none = false
  is_known (some e) = true

  -- `add`; none is a nil request.
  unfoldable pub add : Text → Option A → Bool → Registry A → Registry A
  add key none subscription r = r
  add key (some request) subscription r = if is_empty key then r else record {
    order = if is_known (lookup key r.requests) then r.order else r.order ++ key ∷ [];
    requests = put key (record { request = request; subscription = subscription }) r.requests;
  }

  unfoldable pub add_subscription : Text → Option A → Registry A → Registry A
  add_subscription key request = add key request true

  unfoldable pub add_control : Text → Option A → Registry A → Registry A
  add_control key request = add key request false

  unfoldable pub remove : Text → Registry A → Registry A
  remove key r =
      if is_known (lookup key r.requests)
      then record { order = erase key r.order; requests = delete key r.requests }
      else r

  abbrev pub with_entry : Option (RegistryEntry A) → List A × ℕ → List A × ℕ
  with_entry none rest = rest
  with_entry (some e) (requests, n) = (e.request ∷ requests, count_if e.subscription n)

  -- The loop of ReplaySnapshot; a key without an entry is skipped.
  unfoldable pub snapshot_of : List Text → List (Text × RegistryEntry A) → List A × ℕ
  snapshot_of [] m = ([], 0)
  snapshot_of (k ∷ ks) m = with_entry (lookup k m) (snapshot_of ks m)

  unfoldable pub replay_snapshot : Registry A → List A × ℕ
  replay_snapshot r = snapshot_of r.order r.requests

  unfoldable pub snapshot : Registry A → List A
  snapshot r = (replay_snapshot r).0

  abbrev pub count_subscriptions : List (Text × RegistryEntry A) → ℕ
  count_subscriptions [] = 0
  count_subscriptions ((k, e) ∷ m) = count_if e.subscription (count_subscriptions m)

  unfoldable pub subscription_count : Registry A → ℕ
  subscription_count r = count_subscriptions r.requests
