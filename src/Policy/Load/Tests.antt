-- ===== src/Policy/Load/Tests.antt =====
-- The loader at a concrete file.
use mathlib.Core.Path.{subst}
use tinvest.Prelude.{
  true, false, ◌≡◌, refl, [], ◌∷◌, ◌++◌, some, Text, codes, trim_space, skip_spaces, space_first,
  space_last,
}
use tinvest.Prelude.Int.{pos}
use tinvest.Strconv.{parse_int}
use tinvest.Decimal.{
  before_dot, after_dot, parse_fraction, signed, convert_parts, parse_parts, parse_unsigned,
  parse_signed, parse_quotation,
}
use tinvest.Policy.{Policy}
use tinvest.Policy.Load.{
  PolicyFile, PolicyFiles, decoded, loaded, check_cap, check_file, expand_home, load_decoded,
  load_policy,
}
use tinvest.Policy.Load.Forceful.{IsForceful, IsDecoded, load_policy-IsForceful}

abbrev written : PolicyFile
written = record {
  allowed_instruments = codes "SBER@TQBR" ∷ [];
  max_lots_per_order = pos 10;
  max_notional_per_order = codes "100000.5";
  notional_currency = codes "rub";
  max_open_orders = pos 0;
  allow_market_orders = false;
  allow_shorts = false;
  kill_switch_file = codes "~/kill";
  defines_lots = true;
  defines_open_orders = false;
  has_unknown_key = false;
}

abbrev host : PolicyFiles
host = record {
  home = some (codes "/home/u");
  join = λ a b. a ++ codes "/" ++ b;
  read_file = λ path. decoded written;
  to_lower = λ t. t;
}

abbrev guarded : Policy
guarded = record {
  allowed_instruments = codes "SBER@TQBR" ∷ [];
  max_lots_per_order = pos 10;
  max_notional_per_order = codes "100000.5";
  notional_currency = codes "rub";
  max_open_orders = pos 0;
  allow_market_orders = false;
  allow_shorts = false;
  kill_switch_file = codes "/home/u/kill";
  present = true;
}

written-IsDecoded : IsDecoded written
written-IsDecoded = (λ never. cc, λ missing. refl)

decoded_once : (f g : PolicyFile) → decoded f ≡ decoded g → f ≡ g
decoded_once f g h = cc

host-IsDecoded : (path : Text) (f : PolicyFile) → host.read_file path ≡ decoded f → IsDecoded f
host-IsDecoded path f h = subst IsDecoded (decoded_once written f h) written-IsDecoded

loads : load_policy host (codes "policy.toml") ≡ loaded guarded
unfolding load_policy expand_home load_decoded check_file check_cap parse_quotation parse_signed
    parse_unsigned before_dot after_dot parse_parts convert_parts parse_fraction parse_int signed
    trim_space skip_spaces space_first space_last
loads = refl

load_policy-IsForceful_example : IsForceful host (codes "policy.toml") guarded
load_policy-IsForceful_example =
    load_policy-IsForceful host host-IsDecoded (codes "policy.toml") guarded loads
