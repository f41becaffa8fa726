-- ===== src/StopReconcile/Asking.antt =====
-- What the request has that `stop-orders reconcile` matches against the broker's list.
use mathlib.Core.Path.{subst}
use tinvest.Prelude.{
  ◌≡◌, inl, inr, refl, ap, ◌∙◌, true, false, ◌||◌, Option, none, some, codes, text_eq,
  text_eq_sound, is_empty, Bool-cases,
}
use tinvest.Ledger.{Entry}
use tinvest.StopMatch.{StopOrderPayload, Stamps, MatchError, validate_stop_match_payload}
use tinvest.StopMatch.Complete.{IsComplete, either_false, validate_stop_match_payload-IsComplete}
use tinvest.Reconcile.{Payloads, Target, Resolution, target_mismatch}
use tinvest.StopReconcile.{
  kind_stop_order_place, StopPayloads, asks, checked_request, read_request, named_request,
  stop_request,
}

-- An entry that asks: a placement of a stop order whose journaled request is complete.
pub record IsAsking (stops : StopPayloads) (at : Stamps) (e : Entry) (p : StopOrderPayload)
    : Type 0 where
  pub is_stop : e.intent.kind ≡ codes "stoporder.place"
  pub account_given : is_empty e.intent.account_id ≡ false
  pub order_given : is_empty e.order_id ≡ false
  pub is_read : stops e.payload ≡ some p
  pub complete : IsComplete at p

pub stop_request-IsAsking :
    (read : Payloads) (stops : StopPayloads) (at : Stamps) (target : Target) (e : Entry)
    (p : StopOrderPayload)
    → stop_request read stops at target e ≡ asks p
    → IsAsking stops at e p
unfolding stop_request
stop_request-IsAsking read stops at target e p h =
    elim (Bool-cases (text_eq e.intent.kind kind_stop_order_place)) [
      | inr other ↦ cc (rw other at h)
      | inl own ↦ by_target own (target_mismatch read target e) (rw own at h)
    ]
  where
    by_check :
        (q : StopOrderPayload) (o : Option MatchError)
        → validate_stop_match_payload at q ≡ o
        → checked_request q o ≡ asks p
        → (q ≡ p) × (validate_stop_match_payload at q ≡ none)
    by_check q none is k = (same k, is)
      where
        same : asks q ≡ asks p → q ≡ p
        same k = cc
    by_check q (some x) is k = cc k

    by_read :
        (o : Option StopOrderPayload)
        → stops e.payload ≡ o
        → read_request at o ≡ asks p
        → (stops e.payload ≡ some p) × (validate_stop_match_payload at p ≡ none)
    by_read none is k = cc k
    by_read (some q) is k =
        let (same, valid) = by_check q (validate_stop_match_payload at q) refl k in
        (is ∙ ap some same, subst (λ x. validate_stop_match_payload at x ≡ none) same valid)

    by_target :
        text_eq e.intent.kind kind_stop_order_place ≡ true
        → (o : Option Resolution) → named_request stops at e o ≡ asks p
        → IsAsking stops at e p
    by_target own (some r) k = cc k
    by_target own none k = elim (Bool-cases (is_empty e.intent.account_id || is_empty e.order_id)) [
      | inl lacking ↦ cc (rw lacking at k)
      | inr given ↦
          let (account, order) =
            either_false (is_empty e.intent.account_id) (is_empty e.order_id) given in
          let (is, valid) = by_read (stops e.payload) refl (rw given at k) in
          record {
            is_stop = text_eq_sound e.intent.kind (codes "stoporder.place") own;
            account_given = account;
            order_given = order;
            is_read = is;
            complete = validate_stop_match_payload-IsComplete at p valid;
          }
    ]
