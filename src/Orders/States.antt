-- ===== src/Orders/States.antt =====
-- internal/broker/orders/status.go: the lifecycle names against the final states.
use tinvest.Prelude.{◌≡◌, refl, ◌||◌, codes, text_eq}
use tinvest.Orders.{ReportStatus, lifecycle, is_terminal, is_rejected}

-- For every status, a number past the contract's included: the state is final exactly when its
-- lifecycle name is filled, cancelled or rejected, and rejected exactly when the name is rejected;
-- so the JSON name decides both.
lifecycle-is_terminal :
    (s : ReportStatus)
    → (is_terminal s ≡ (
        text_eq (lifecycle s) (codes "filled")
        || text_eq (lifecycle s) (codes "cancelled")
        || text_eq (lifecycle s) (codes "rejected")))
      × (is_rejected s ≡ text_eq (lifecycle s) (codes "rejected"))
unfolding lifecycle is_terminal is_rejected
lifecycle-is_terminal ReportStatus.unspecified = (refl, refl)
lifecycle-is_terminal ReportStatus.fill = (refl, refl)
lifecycle-is_terminal ReportStatus.rejected = (refl, refl)
lifecycle-is_terminal ReportStatus.cancelled = (refl, refl)
lifecycle-is_terminal ReportStatus.new = (refl, refl)
lifecycle-is_terminal ReportStatus.partially_fill = (refl, refl)
lifecycle-is_terminal (ReportStatus.other n) = (refl, refl)
