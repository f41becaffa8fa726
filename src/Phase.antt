-- ===== src/Phase.antt =====
-- internal/transport/phase.go: what the transport's stats handler learns of one call, over all its
-- retry attempts. The mutex serialises the methods, so a call's history is a list of events.
-- `Metadata` is `md.Get`: the values under a key, in order.
pub mod LastAttempt
mod Tests
use tinvest.Prelude.{
  ℕ, Bool, true, false, List, [], ◌∷◌, Option, none, some, Text, codes, String, if◌then◌else◌, not,
}
use tinvest.Prelude.Int.{ℤ, pos, ◌*ℤ◌, is_neg, wrap64}
use tinvest.Strconv.{parse_int}

pub data Phase : Type 0 where
  not_sent sent_unconfirmed confirmed : Phase

unfoldable pub phase_string : Phase → Text
phase_string Phase.sent_unconfirmed = codes "sent_unconfirmed"
phase_string Phase.confirmed = codes "confirmed"
phase_string Phase.not_sent = codes "not_sent"

-- A time.Duration in nanoseconds.
abbrev pub second : ℤ
second = pos 1_000_000_000

pub record CallInfo : Type 0 where
  pub sent : Bool
  pub confirmed : Bool
  pub tracking_id : Text
  pub api_message : Text
  pub retry_after : ℤ

abbrev pub Metadata : Type 0
Metadata = String → List Text

unfoldable pub new_call_info : CallInfo
new_call_info = record {
  sent = false;
  confirmed = false;
  tracking_id = [];
  api_message = [];
  retry_after = pos 0;
}

-- `CallInfo.Phase`
unfoldable pub phase : CallInfo → Phase
phase c =
    if c.confirmed
    then Phase.confirmed
    else if c.sent
    then Phase.sent_unconfirmed
    else Phase.not_sent

unfoldable pub begin_attempt : CallInfo → CallInfo
begin_attempt c = record c { confirmed = false; tracking_id = [] }

unfoldable pub mark_sent : CallInfo → CallInfo
mark_sent c = record c { sent = true }

unfoldable pub mark_confirmed : CallInfo → CallInfo
mark_confirmed c = record c { confirmed = true }

-- The first value under a key, or what was known before.
abbrev pub first_or : List Text → Text → Text
first_or [] old = old
first_or (v ∷ vs) old = v

-- `time.Duration(secs) * time.Second` wraps at 64 bits.
unfoldable pub reset_interval : List Text → Option ℤ
unfolding parse_int
reset_interval [] = none
reset_interval (v ∷ vs) = elim (parse_int v) [
  | none ↦ none
  | some secs ↦ if is_neg secs then none else some (wrap64 (secs *ℤ second))
]

abbrev pub interval_or : Option ℤ → ℤ → ℤ
interval_or none old = old
interval_or (some d) old = d

unfoldable pub capture_md : Metadata → CallInfo → CallInfo
capture_md md c = record c {
  tracking_id = first_or (md "x-tracking-id") c.tracking_id;
  api_message = first_or (md "message") c.api_message;
  retry_after = interval_or (reset_interval (md "x-ratelimit-reset")) c.retry_after;
}

-- The stats.RPCStats that HandleRPC tells apart; `ended true` is an End with an error.
pub data RpcStats : Type 0 where
  begin : RpcStats
  out_payload : RpcStats
  in_header : Metadata → RpcStats
  in_trailer : Metadata → RpcStats
  ended : Bool → RpcStats
  other_stats : RpcStats

unfoldable pub handle_rpc : CallInfo → RpcStats → CallInfo
unfolding begin_attempt mark_sent mark_confirmed capture_md
handle_rpc c begin = begin_attempt c
handle_rpc c out_payload = mark_sent c
handle_rpc c (in_header md) = capture_md md c
handle_rpc c (in_trailer md) = mark_confirmed (capture_md md c)
handle_rpc c (ended failed) = if failed then c else mark_confirmed c
handle_rpc c other_stats = c

-- A whole call, from the CallInfo that WithCallInfo makes.
unfoldable pub observe : CallInfo → List RpcStats → CallInfo
observe c [] = c
observe c (e ∷ es) = observe (handle_rpc c e) es
