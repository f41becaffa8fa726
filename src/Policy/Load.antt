-- ===== src/Policy/Load.antt =====
-- internal/policy/policy.go, Load: which policy files are taken. The file system, the TOML decoder, the
-- home directory, filepath.Join and strings.ToLower are the `PolicyFiles`.
pub mod Forceful
mod Tests
use tinvest.Prelude.{
  Bool, true, false, not, ◌&&◌, ◌==◌, List, [], ◌∷◌, Option, none, some, Text, is_empty,
  if◌then◌else◌,
}
use tinvest.Prelude.Int.{ℤ, is_pos}
use tinvest.Decimal.{ParseError, Parsed, ok, err, parse_quotation}
use tinvest.Policy.{Policy, quotation_nanos}

-- The decoded `file`, with what MetaData tells of it: whether the two caps are defined, and whether
-- some key is unknown.
pub record PolicyFile : Type 0 where
  pub allowed_instruments : List Text
  pub max_lots_per_order : ℤ
  pub max_notional_per_order : Text
  pub notional_currency : Text
  pub max_open_orders : ℤ
  pub allow_market_orders : Bool
  pub allow_shorts : Bool
  pub kill_switch_file : Text
  pub defines_lots : Bool
  pub defines_open_orders : Bool
  pub has_unknown_key : Bool

pub data ReadFile : Type 0 where
  missing_file unreadable malformed : ReadFile
  decoded : PolicyFile → ReadFile

pub record PolicyFiles : Type 0 where
  pub home : Option Text
  pub join : Text → Text → Text
  pub read_file : Text → ReadFile
  pub to_lower : Text → Text

pub data LoadError : Type 0 where
  no_home no_file not_read not_parsed unknown_key lots_not_positive open_orders_not_positive :
      LoadError
  bad_notional : ParseError → LoadError
  notional_not_positive no_currency no_kill_path : LoadError

-- No policy, a policy, or an error.
pub data Loaded : Type 0 where
  permissive : Loaded
  loaded : Policy → Loaded
  load_failed : LoadError → Loaded

abbrev pub under_home : PolicyFiles → Text → Option Text → Option Text
under_home fs rest none = none
under_home fs rest (some home) = some (fs.join home rest)

-- A path whose `~/` is the home directory; none where there is no home directory.
unfoldable pub expand_home : PolicyFiles → Text → Option Text
expand_home fs (a ∷ b ∷ rest) =
    if (a == 126) && (b == 47) then under_home fs rest fs.home else some (a ∷ b ∷ rest)
expand_home fs (a ∷ []) = some (a ∷ [])
expand_home fs [] = some []

-- The notional cap of a file.
abbrev pub checked_limit : PolicyFile → Parsed → Option LoadError
checked_limit f (err e) = some (bad_notional e)
checked_limit f (ok q) =
    if not (is_pos (quotation_nanos q))
    then some notional_not_positive
    else if is_empty f.notional_currency
    then some no_currency
    else none

unfoldable pub check_cap : PolicyFile → Option LoadError
check_cap f =
    if is_empty f.max_notional_per_order
    then none
    else checked_limit f (parse_quotation f.max_notional_per_order)

-- The caps of a file.
abbrev pub check_open_orders_key : PolicyFile → Option LoadError
check_open_orders_key f =
    if f.defines_open_orders && not (is_pos f.max_open_orders)
    then some open_orders_not_positive
    else check_cap f

abbrev pub check_lots_key : PolicyFile → Option LoadError
check_lots_key f =
    if f.defines_lots && not (is_pos f.max_lots_per_order)
    then some lots_not_positive
    else check_open_orders_key f

-- The tests of a decoded file.
unfoldable pub check_file : PolicyFile → Option LoadError
check_file f = if f.has_unknown_key then some unknown_key else check_lots_key f

abbrev pub with_kill_path : PolicyFiles → PolicyFile → Option Text → Loaded
with_kill_path fs f none = load_failed no_kill_path
with_kill_path fs f (some path) = loaded (record {
  allowed_instruments = f.allowed_instruments;
  max_lots_per_order = f.max_lots_per_order;
  max_notional_per_order = f.max_notional_per_order;
  notional_currency = fs.to_lower f.notional_currency;
  max_open_orders = f.max_open_orders;
  allow_market_orders = f.allow_market_orders;
  allow_shorts = f.allow_shorts;
  kill_switch_file = path;
  present = true;
})

abbrev pub with_checks : PolicyFiles → PolicyFile → Option LoadError → Loaded
with_checks fs f (some e) = load_failed e
with_checks fs f none = with_kill_path fs f (expand_home fs f.kill_switch_file)

unfoldable pub load_decoded : PolicyFiles → ReadFile → Loaded
load_decoded fs missing_file = load_failed no_file
load_decoded fs unreadable = load_failed not_read
load_decoded fs malformed = load_failed not_parsed
load_decoded fs (decoded f) = with_checks fs f (check_file f)

abbrev pub with_path : PolicyFiles → Option Text → Loaded
with_path fs none = load_failed no_home
with_path fs (some path) = load_decoded fs (fs.read_file path)

-- `Load`
unfoldable pub load_policy : PolicyFiles → Text → Loaded
load_policy fs path = if is_empty path then permissive else with_path fs (expand_home fs path)
