-- ===== src/Registry/Replay.antt =====
-- What a reconnect replays, after any calls of the registry's methods.
use mathlib.Core.Path.{subst}
use tinvest.Prelude.{
  ◌⊎◌, Bool, true, false, ◌||◌, ◌≡◌, refl, sym, ap, ◌∙◌, List, [], ◌∷◌, ◌++◌, Option, none, some,
  Text, text_eq, text_eq_sound, text_eq_refl, is_empty, Bool-cases, inl, inr, arith, if◌then◌else◌,
}
use tinvest.Registry.{
  RegistryEntry, Registry, new_registry, lookup, put, delete, erase, is_known, add, remove,
  with_entry, snapshot_of, replay_snapshot, count_subscriptions, subscription_count,
}

abbrev pub is_in : Text → List Text → Bool
is_in key [] = false
is_in key (k ∷ ks) = text_eq k key || is_in key ks

abbrev pub AreDistinct : List Text → Type 0
AreDistinct [] = Unit
AreDistinct (k ∷ ks) = (is_in k ks ≡ false) × AreDistinct ks

is_in-snoc :
    (x key : Text) (ks : List Text) → is_in x (ks ++ key ∷ []) ≡ (is_in x ks || text_eq key x)
is_in-snoc x key [] = ground arith
is_in-snoc x key (k ∷ ks) = ground (arith, is_in-snoc x key ks)

snoc-AreDistinct :
    (key : Text) (ks : List Text)
    → is_in key ks ≡ false
    → AreDistinct ks
    → AreDistinct (ks ++ key ∷ [])
snoc-AreDistinct key [] n d = (refl, tt)
snoc-AreDistinct key (k ∷ ks) n d = (
  ground (arith, is_in-snoc k key ks, text_eq_sound key k, text_eq_refl key),
  snoc-AreDistinct key ks (ground arith) d.1,
)

is_in-erase : (x key : Text) (ks : List Text) → is_in x ks ≡ false → is_in x (erase key ks) ≡ false
is_in-erase x key [] h = refl
is_in-erase x key (k ∷ ks) h = ground (arith, is_in-erase x key ks)

erase-AreDistinct : (key : Text) (ks : List Text) → AreDistinct ks → AreDistinct (erase key ks)
erase-AreDistinct key [] d = tt
erase-AreDistinct key (k ∷ ks) d = elim (Bool-cases (text_eq k key)) [
  | inl hit ↦ rw hit d.1
  | inr miss ↦ rw miss (is_in-erase k key ks d.0, erase-AreDistinct key ks d.1)
]

ne_sym : (a b : Text) → text_eq a b ≡ false → text_eq b a ≡ false
ne_sym a b h = elim (Bool-cases (text_eq b a)) [
  | inl same ↦ cc (rw (text_eq_sound b a same, text_eq_refl a) at h)
  | inr differ ↦ differ
]

module _ {A : Type 0} where
  abbrev pub keys : List (Text × RegistryEntry A) → List Text
  keys [] = []
  keys ((k, e) ∷ m) = k ∷ keys m

  abbrev pub requests_of : List (Text × RegistryEntry A) → List A
  requests_of [] = []
  requests_of ((k, e) ∷ m) = e.request ∷ requests_of m

  -- The two halves of a registry speak of the same keys, each once.
  abbrev pub IsRegistry : Registry A → Type 0
  IsRegistry r = (r.order ≡ keys r.requests) × AreDistinct r.order

  lookup-is_in :
      (key : Text) (m : List (Text × RegistryEntry A))
      → is_known (lookup key m) ≡ is_in key (keys m)
  lookup-is_in key [] = refl
  lookup-is_in key ((k, e) ∷ m) = ground (arith, lookup-is_in key m)

  keys-put :
      (key : Text) (e : RegistryEntry A) (m : List (Text × RegistryEntry A))
      → keys (put key e m) ≡ (if is_in key (keys m) then keys m else keys m ++ key ∷ [])
  keys-put key e [] = refl
  keys-put key e ((k, old) ∷ m) = ground (arith, keys-put key e m)

  keys-delete :
      (key : Text) (m : List (Text × RegistryEntry A)) → keys (delete key m) ≡ erase key (keys m)
  keys-delete key [] = refl
  keys-delete key ((k, e) ∷ m) = ground (arith, keys-delete key m)

  add-IsRegistry :
      (key : Text) (request : Option A) (subscription : Bool) (r : Registry A)
      → IsRegistry r
      → IsRegistry (add key request subscription r)
  unfolding add
  add-IsRegistry key none subscription r h = h
  add-IsRegistry key (some request) subscription r h = elim (Bool-cases (is_empty key)) [
    | inl blank ↦ rw blank h
    | inr named ↦ rw named (
        added (record { request = request; subscription = subscription })
          (Bool-cases (is_in key (keys r.requests))))
  ]
    where
      added :
          (e : RegistryEntry A)
          → (is_in key (keys r.requests) ≡ true) ⊎ (is_in key (keys r.requests) ≡ false)
          → IsRegistry (record {
            order = if is_known (lookup key r.requests) then r.order else r.order ++ key ∷ [];
            requests = put key e r.requests;
          })
      added e (inl old) = rw (lookup-is_in key r.requests, keys-put key e r.requests, old) h
      added e (inr fresh) =
          rw (lookup-is_in key r.requests, keys-put key e r.requests, fresh)
            (ap (λ ks. ks ++ key ∷ []) h.0, snoc-AreDistinct key r.order (rw h.0 fresh) h.1)

  remove-IsRegistry : (key : Text) (r : Registry A) → IsRegistry r → IsRegistry (remove key r)
  unfolding remove
  remove-IsRegistry key r h = elim (Bool-cases (is_known (lookup key r.requests))) [
    | inl known ↦
        rw known
          (ap (erase key) h.0 ∙ sym (keys-delete key r.requests), erase-AreDistinct key r.order h.1)
    | inr unknown ↦ rw unknown h
  ]

  snapshot_of-other :
      (k : Text) (e : RegistryEntry A) (ks : List Text) (m : List (Text × RegistryEntry A))
      → is_in k ks ≡ false
      → snapshot_of ks ((k, e) ∷ m) ≡ snapshot_of ks m
  unfolding snapshot_of
  snapshot_of-other k e [] m h = refl
  snapshot_of-other k e (x ∷ ks) m h =
      rw (ne_sym x k (ground arith))
        (ap (with_entry (lookup x m)) (snapshot_of-other k e ks m (ground arith)))

  snapshot_of-keys :
      (m : List (Text × RegistryEntry A))
      → AreDistinct (keys m)
      → snapshot_of (keys m) m ≡ (requests_of m, count_subscriptions m)
  unfolding snapshot_of
  snapshot_of-keys [] d = refl
  snapshot_of-keys ((k, e) ∷ m) d =
      rw (text_eq_refl k)
        (ap (with_entry (some e)) (snapshot_of-other k e (keys m) m d.0 ∙ snapshot_of-keys m d.1))

-- The calls that change a registry.
pub data Change (A : Type 0) : Type 0 where
  added : Text → Option A → Bool → Change A
  removed : Text → Change A

module _ {A : Type 0} where
  abbrev pub change : Registry A → Change A → Registry A
  change r (added key request subscription) = add key request subscription r
  change r (removed key) = remove key r

  abbrev pub changes : Registry A → List (Change A) → Registry A
  changes r [] = r
  changes r (c ∷ cs) = changes (change r c) cs

  change-IsRegistry : (r : Registry A) (c : Change A) → IsRegistry r → IsRegistry (change r c)
  change-IsRegistry r (added key request subscription) h =
      add-IsRegistry key request subscription r h
  change-IsRegistry r (removed key) h = remove-IsRegistry key r h

  changes-IsRegistry :
      (r : Registry A) (cs : List (Change A)) → IsRegistry r → IsRegistry (changes r cs)
  changes-IsRegistry r [] h = h
  changes-IsRegistry r (c ∷ cs) h = changes-IsRegistry (change r c) cs (change-IsRegistry r c h)

  replay_snapshot-lem :
      (r : Registry A)
      → IsRegistry r
      → replay_snapshot r ≡ (requests_of r.requests, subscription_count r)
  unfolding replay_snapshot subscription_count
  replay_snapshot-lem r h =
      ap (λ ks. snapshot_of ks r.requests) h.0
      ∙ snapshot_of-keys r.requests (subst AreDistinct h.0 h.1)

new_registry-IsRegistry : (A : Type 0) → IsRegistry (new_registry {A = A})
unfolding new_registry
new_registry-IsRegistry A = (refl, tt)

-- After any calls of Add, AddControl and Remove on a new registry, its ordered keys and its stored
-- requests are the same, each key once; so the replay holds each stored request exactly once, in the
-- order of first insertion, and its subscription count is what SubscriptionCount counts.
pub replay_snapshot-changes :
    (A : Type 0) (cs : List (Change A))
    → let r = changes new_registry cs in
      IsRegistry r × (replay_snapshot r ≡ (requests_of r.requests, subscription_count r))
replay_snapshot-changes A cs =
    let h = changes-IsRegistry new_registry cs (new_registry-IsRegistry A) in
    (h, replay_snapshot-lem (changes new_registry cs) h)
