-- ===== src/Phase/LastAttempt.antt =====
-- The phase and the tracking id of a call against its attempts.
use tinvest.Prelude.{
  Bool, true, false, not, ◌||◌, ◌≡◌, refl, List, [], ◌∷◌, ◌++◌, Text, arith, if◌then◌else◌,
}
use tinvest.Phase.{
  Phase, CallInfo, RpcStats, begin, out_payload, in_header, in_trailer, ended, new_call_info, phase,
  first_or, handle_rpc, observe,
}

abbrev pub is_begin : RpcStats → Bool
is_begin begin = true
is_begin _ = false

-- The server gave a definitive answer.
abbrev pub is_answer : RpcStats → Bool
is_answer (in_trailer md) = true
is_answer (ended failed) = not failed
is_answer _ = false

abbrev pub is_write : RpcStats → Bool
is_write out_payload = true
is_write _ = false

abbrev pub some_of : (RpcStats → Bool) → List RpcStats → Bool
some_of p [] = false
some_of p (e ∷ es) = p e || some_of p es

-- The events behind the last `begin`.
abbrev pub last_attempt : List RpcStats → List RpcStats
last_attempt [] = []
last_attempt (e ∷ es) =
    let rest = last_attempt es in
    if some_of is_begin es then rest else if is_begin e then es else e ∷ es

-- The tracking id that the last header or trailer with one carries.
abbrev pub seen_tracking_id : Text → List RpcStats → Text
seen_tracking_id known [] = known
seen_tracking_id known (in_header md ∷ es) =
    seen_tracking_id (first_or (md "x-tracking-id") known) es
seen_tracking_id known (in_trailer md ∷ es) =
    seen_tracking_id (first_or (md "x-tracking-id") known) es
seen_tracking_id known (e ∷ es) = seen_tracking_id known es

observe-sent :
    (c : CallInfo) (es : List RpcStats) → (observe c es).sent ≡ (c.sent || some_of is_write es)
unfolding observe handle_rpc
observe-sent c [] = ground arith
observe-sent c (e ∷ es) = ground (arith, observe-sent (handle_rpc c e) es)

observe-confirmed :
    (c : CallInfo) (es : List RpcStats)
    → (observe c es).confirmed ≡ (
        if some_of is_begin es
        then some_of is_answer (last_attempt es)
        else (c.confirmed || some_of is_answer es))
unfolding observe handle_rpc
observe-confirmed c [] = ground arith
observe-confirmed c (e ∷ es) = ground (arith, observe-confirmed (handle_rpc c e) es)

last_attempt-eq : (es : List RpcStats) → some_of is_begin es ≡ false → last_attempt es ≡ es
last_attempt-eq [] h = refl
last_attempt-eq (e ∷ es) h = ground arith

-- The phase of a call over any history of events: confirmed exactly when the last attempt got a
-- trailer or ended without an error; otherwise sent_unconfirmed exactly when some attempt, the last
-- or an earlier one, wrote its payload; otherwise not_sent.
pub phase-observe :
    (es : List RpcStats)
    → phase (observe new_call_info es) ≡ (
        if some_of is_answer (last_attempt es)
        then Phase.confirmed
        else if some_of is_write es
        then Phase.sent_unconfirmed
        else Phase.not_sent)
unfolding phase new_call_info
phase-observe es =
    ground
      (arith, observe-sent new_call_info es, observe-confirmed new_call_info es, last_attempt-eq es)

observe-tracking_id :
    (c : CallInfo) (es : List RpcStats)
    → (observe c es).tracking_id ≡ (
        if some_of is_begin es
        then seen_tracking_id [] (last_attempt es)
        else seen_tracking_id c.tracking_id es)
unfolding observe handle_rpc
observe-tracking_id c [] = refl
observe-tracking_id c (e ∷ es) = ground (arith, observe-tracking_id (handle_rpc c e) es)

-- The tracking id reported for a call, over any history of events, is the last one that the last
-- attempt received, and empty if that attempt received none.
tracking_id-observe :
    (es : List RpcStats)
    → (observe new_call_info es).tracking_id ≡ seen_tracking_id [] (last_attempt es)
unfolding new_call_info
tracking_id-observe es = ground (arith, observe-tracking_id new_call_info es, last_attempt-eq es)

observe-append :
    (c : CallInfo) (xs ys : List RpcStats) → observe c (xs ++ ys) ≡ observe (observe c xs) ys
unfolding observe
observe-append c [] ys = refl
observe-append c (x ∷ xs) ys = observe-append (handle_rpc c x) xs ys
