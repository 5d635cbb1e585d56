-- ===== src/Risk/Tests.antt =====
-- Two transfers that the risk engine scores.
use pstu_final.Base.{◌≡◌, ◌≤◌, ◌<◌, ◌↔◌, refl}
use pstu_final.Base.Int.{ℤ, pos, ◌*ℤ◌}
use pstu_final.Store.Rows.{VerificationStatus, RiskLevel}
use pstu_final.Risk.{
  RiskContext, evaluate, large_share, large_amount, young_sender, unverified_sender, young_receiver,
  round_amount, high_velocity,
}
use pstu_final.Risk.Score.{points_of, evaluate_scores}

abbrev context : ℤ → VerificationStatus → RiskContext
context amount status = record {
  amount_minor = amount;
  sender_balance_before_minor = pos 1_000;
  sender_created_at = 0;
  receiver_created_at = 0;
  sender_verification_status = status;
  sender_recent_transfer_count = 2;
  now = 1_700_000_000_000;
}

-- Verified and small, and not verified and a large share of the balance.
abbrev plain_transfer : RiskContext
plain_transfer = context (pos 100) VerificationStatus.verified

abbrev odd_transfer : RiskContext
odd_transfer = context (pos 900) VerificationStatus.unverified

odd-level : (evaluate odd_transfer).level ≡ RiskLevel.medium
unfolding evaluate large_share large_amount young_sender unverified_sender young_receiver
    round_amount high_velocity ◌*ℤ◌
odd-level = refl

evaluate_scores_example :
    ((evaluate odd_transfer).score ≡ points_of odd_transfer)
    × ((evaluate odd_transfer).score ≤ 120)
    × ((evaluate odd_transfer).level ≡ RiskLevel.high ↔ 50 ≤ (evaluate odd_transfer).score)
    × ((evaluate odd_transfer).level ≡ RiskLevel.low ↔ (evaluate odd_transfer).score < 25)
evaluate_scores_example = evaluate_scores odd_transfer
