-- ===== src/Policy/Load/Forceful.antt =====
-- What a policy that Load takes promises.
use mathlib.Core.Path.{subst}
use tinvest.Prelude.{
  ◌≡◌, refl, Bool, true, false, not, ◌&&◌, Option, none, some, Text, is_empty, if_intro, arith,
  if◌then◌else◌,
}
use tinvest.Prelude.Int.{ℤ, pos, is_pos, ◌*ℤ◌, ◌+ℤ◌}
use tinvest.Decimal.{Quotation, Parsed, ok, err, parse_quotation}
use tinvest.Policy.{Policy}
use tinvest.Policy.Load.{
  LoadError, Loaded, PolicyFile, PolicyFiles, ReadFile, check_cap, check_file, check_lots_key,
  check_open_orders_key, checked_limit, expand_home, load_decoded, load_policy, with_checks,
  with_kill_path, with_path, missing_file, unreadable, malformed, decoded, unknown_key,
  lots_not_positive, open_orders_not_positive, permissive, loaded, load_failed,
}

-- A loaded policy beside the file that it was read from: a cap that the file defines is positive, one
-- that it leaves out is zero, a notional cap that is given is a positive decimal with a currency, and
-- the rest is the file's.
pub record IsForceful (fs : PolicyFiles) (path : Text) (p : Policy) : Type 0 where
  pub source : Text
  pub is_expanded : expand_home fs path ≡ some source
  pub file : PolicyFile
  pub is_read : fs.read_file source ≡ decoded file
  pub known : file.has_unknown_key ≡ false
  pub is_present : p.present ≡ true
  pub same_lots : p.max_lots_per_order ≡ file.max_lots_per_order
  pub lots : file.defines_lots ≡ true → is_pos p.max_lots_per_order ≡ true
  pub no_lots : file.defines_lots ≡ false → p.max_lots_per_order ≡ pos 0
  pub same_open_orders : p.max_open_orders ≡ file.max_open_orders
  pub open_orders : file.defines_open_orders ≡ true → is_pos p.max_open_orders ≡ true
  pub no_open_orders : file.defines_open_orders ≡ false → p.max_open_orders ≡ pos 0
  pub same_limit : p.max_notional_per_order ≡ file.max_notional_per_order
  pub limit :
      is_empty p.max_notional_per_order ≡ false
      → (q : Quotation) × (parse_quotation p.max_notional_per_order ≡ ok q)
        × (is_pos (q.units *ℤ pos 1_000_000_000 +ℤ q.nano) ≡ true)
        × (is_empty file.notional_currency ≡ false)
  pub same_currency : p.notional_currency ≡ fs.to_lower file.notional_currency
  pub same_list : p.allowed_instruments ≡ file.allowed_instruments
  pub same_market : p.allow_market_orders ≡ file.allow_market_orders
  pub kill_path : expand_home fs file.kill_switch_file ≡ some p.kill_switch_file

-- The decoder leaves a key that a file does not define at its zero.
abbrev pub IsDecoded : PolicyFile → Type 0
IsDecoded f =
    (f.defines_lots ≡ false → f.max_lots_per_order ≡ pos 0)
    × (f.defines_open_orders ≡ false → f.max_open_orders ≡ pos 0)

-- A notional cap in force.
abbrev IsCapped : PolicyFile → Type 0
IsCapped f =
    is_empty f.max_notional_per_order ≡ false
    → (q : Quotation) × (parse_quotation f.max_notional_per_order ≡ ok q)
      × (is_pos (q.units *ℤ pos 1_000_000_000 +ℤ q.nano) ≡ true)
      × (is_empty f.notional_currency ≡ false)

checked_limit-IsCapped :
    (f : PolicyFile) (r : Parsed)
    → parse_quotation f.max_notional_per_order ≡ r
    → checked_limit f r ≡ none
    → IsCapped f
checked_limit-IsCapped f (err e) h free given = cc
checked_limit-IsCapped f (ok q) h free given = (q, h, ground arith, ground arith)

-- A test that a free answer has passed.
passed {κ} :
    {X : Type κ} (e : LoadError) (b : Bool) (rest : Option LoadError)
    → (if b then some e else rest) ≡ none
    → (b ≡ false → rest ≡ none → X)
    → X
passed e true rest h k = cc
passed e false rest h k = k refl h

check_cap-IsCapped : (f : PolicyFile) → check_cap f ≡ none → IsCapped f
unfolding check_cap
check_cap-IsCapped f =
    if_intro (λ (o : Option LoadError). o ≡ none → IsCapped f) (is_empty f.max_notional_per_order)
      none (checked_limit f (parse_quotation f.max_notional_per_order)) (λ empty free given. cc)
      (λ given. checked_limit-IsCapped f (parse_quotation f.max_notional_per_order) refl)

-- A cap that is defined is positive.
cap_kept :
    (defines : Bool) (cap : ℤ)
    → (defines && not (is_pos cap)) ≡ false
    → defines ≡ true
    → is_pos cap ≡ true
cap_kept true cap h given = ground arith
cap_kept false cap h given = cc

abbrev Keeps : PolicyFile → Type 0
Keeps f =
    (f.has_unknown_key ≡ false)
    × (f.defines_lots ≡ true → is_pos f.max_lots_per_order ≡ true)
    × (f.defines_open_orders ≡ true → is_pos f.max_open_orders ≡ true)
    × IsCapped f

check_file-Keeps : (f : PolicyFile) → check_file f ≡ none → Keeps f
unfolding check_file
check_file-Keeps f free = passed unknown_key f.has_unknown_key (check_lots_key f) free (λ a known.
    passed lots_not_positive (f.defines_lots && not (is_pos f.max_lots_per_order))
      (check_open_orders_key f) known
      (λ lots held.
        passed open_orders_not_positive (f.defines_open_orders && not (is_pos f.max_open_orders))
          (check_cap f) held
          (λ room capped. (
            a,
            cap_kept f.defines_lots f.max_lots_per_order lots,
            cap_kept f.defines_open_orders f.max_open_orders room,
            check_cap-IsCapped f capped,
          ))))

module _ (fs : PolicyFiles) (path source : Text)
    (is_expanded : expand_home fs path ≡ some source) where
  -- What a loader's answer promises.
  abbrev Promises : Loaded → Type 0
  Promises permissive = Unit
  Promises (loaded p) = IsForceful fs path p
  Promises (load_failed e) = Unit

  module _ (f : PolicyFile) (is_read : fs.read_file source ≡ decoded f) (zeros : IsDecoded f) where
    with_kill_path-Promises :
        Keeps f
        → (o : Option Text) → expand_home fs f.kill_switch_file ≡ o
        → Promises (with_kill_path fs f o)
    with_kill_path-Promises kept none kill = tt
    with_kill_path-Promises kept (some path) kill = record {
      source = source;
      is_expanded = is_expanded;
      file = f;
      is_read = is_read;
      known = kept.0;
      is_present = refl;
      same_lots = refl;
      lots = kept.1;
      no_lots = zeros.0;
      same_open_orders = refl;
      open_orders = kept.2;
      no_open_orders = zeros.1;
      same_limit = refl;
      limit = kept.3;
      same_currency = refl;
      same_list = refl;
      same_market = refl;
      kill_path = kill;
    }

    with_checks-Promises :
        (o : Option LoadError) → (o ≡ none → Keeps f) → Promises (with_checks fs f o)
    with_checks-Promises (some e) kept = tt
    with_checks-Promises none kept =
        with_kill_path-Promises (kept refl) (expand_home fs f.kill_switch_file) refl

  load_decoded-Promises :
      (r : ReadFile)
      → fs.read_file source ≡ r
      → ((f : PolicyFile) → r ≡ decoded f → IsDecoded f)
      → Promises (load_decoded fs r)
  unfolding load_decoded
  load_decoded-Promises missing_file is_read zeros = tt
  load_decoded-Promises unreadable is_read zeros = tt
  load_decoded-Promises malformed is_read zeros = tt
  load_decoded-Promises (decoded f) is_read zeros =
      with_checks-Promises f is_read (zeros f refl) (check_file f) (check_file-Keeps f)

-- The loader's answer for any path.
abbrev Loads : PolicyFiles → Text → Loaded → Type 0
Loads fs path permissive = Unit
Loads fs path (loaded p) = IsForceful fs path p
Loads fs path (load_failed e) = Unit

with_path-Loads :
    (fs : PolicyFiles) (path : Text) (o : Option Text)
    → expand_home fs path ≡ o
    → ((source : Text) (f : PolicyFile) → fs.read_file source ≡ decoded f → IsDecoded f)
    → Loads fs path (with_path fs o)
with_path-Loads fs path none h zeros = tt
with_path-Loads fs path (some source) h zeros =
    answer (load_decoded fs (fs.read_file source))
      (load_decoded-Promises fs path source h (fs.read_file source) refl (zeros source))
  where
    answer : (l : Loaded) → Promises fs path source h l → Loads fs path l
    answer permissive k = tt
    answer (loaded p) k = k
    answer (load_failed e) k = tt

-- Where the decoder leaves the caps that a file does not define at zero, a loaded policy is that of the
-- file behind the expanded path, which has no unknown key: it is present; its cap on lots, and the one
-- on open orders, is the file's, positive where the file defines it and zero where it does not; its
-- notional cap is the file's and, if not empty, the text of a positive decimal, with a currency; and
-- its lower-cased currency, its allowlist, its opt-in to market orders and its expanded kill path are
-- the file's.
pub load_policy-IsForceful :
    (fs : PolicyFiles)
    → ((source : Text) (f : PolicyFile) → fs.read_file source ≡ decoded f → IsDecoded f)
    → (path : Text) (p : Policy) → load_policy fs path ≡ loaded p
    → IsForceful fs path p
unfolding load_policy
load_policy-IsForceful fs zeros path p h = subst (Loads fs path) h (
    if_intro (Loads fs path) (is_empty path) permissive (with_path fs (expand_home fs path))
      (λ empty. tt) (λ given. with_path-Loads fs path (expand_home fs path) refl zeros))
