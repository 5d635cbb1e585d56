-- ===== src/Risk.antt =====
-- The deterministic risk engine: apps/api/src/risk/risk-engine.service.ts. The seven rules stand in
-- the order of the source, with its weights and texts.
pub mod Score
pub mod Tests
use mathlib.Core.List.{foldl}
use pstu_final.Base.{
  ℕ, ◌+◌, ◌-◌, ◌*◌, ◌%◌, String, Bool, true, false, ◌&&◌, List, [], ◌∷◌, map, ltb, leb, ◌==◌,
  if◌then◌else◌, select_where,
}
use pstu_final.Base.Int.{ℤ, pos, pos_part, ◌*ℤ◌, ltb_ℤ, leb_ℤ}
use pstu_final.Store.Rows.{VerificationStatus, RiskLevel}

abbrev pub one_day_ms : ℕ
one_day_ms = 24 * 60 * 60 * 1000

-- BDT 500,000
abbrev pub large_absolute_amount_minor : ℤ
large_absolute_amount_minor = pos 50_000_000

-- BDT 50,000
abbrev pub round_amount_step_minor : ℕ
round_amount_step_minor = 5_000_000

abbrev pub high_velocity_threshold : ℕ
high_velocity_threshold = 5

abbrev pub high_velocity_window_minutes : ℕ
high_velocity_window_minutes = 10

abbrev pub medium_threshold : ℕ
medium_threshold = 25

abbrev pub high_threshold : ℕ
high_threshold = 50

pub record RiskContext : Type 0 where
  pub amount_minor : ℤ
  pub sender_balance_before_minor : ℤ
  pub sender_created_at : ℕ
  pub receiver_created_at : ℕ
  pub sender_verification_status : VerificationStatus
  pub sender_recent_transfer_count : ℕ
  pub now : ℕ

pub record RiskEvaluation : Type 0 where
  pub score : ℕ
  pub level : RiskLevel
  pub reasons : List String

pub record RiskRule : Type 0 where
  pub weight : ℕ
  pub reason : String
  pub fires : RiskContext → Bool

abbrev pub is_verified : VerificationStatus → Bool
is_verified VerificationStatus.verified = true
is_verified VerificationStatus.unverified = false
is_verified VerificationStatus.rejected = false

-- amount * 10 ≥ balance * 7, on a balance above 0
unfoldable pub large_share : RiskContext → Bool
large_share ctx =
    ltb_ℤ (pos 0) ctx.sender_balance_before_minor
    && leb_ℤ (ctx.sender_balance_before_minor *ℤ 7) (ctx.amount_minor *ℤ 10)

unfoldable pub large_amount : RiskContext → Bool
large_amount ctx = leb_ℤ large_absolute_amount_minor ctx.amount_minor

-- The difference stops at 0, which is below a day as a negative difference is.
unfoldable pub young_sender : RiskContext → Bool
young_sender ctx = ltb (ctx.now - ctx.sender_created_at) one_day_ms

unfoldable pub unverified_sender : RiskContext → Bool
unverified_sender ctx = if is_verified ctx.sender_verification_status then false else true

unfoldable pub young_receiver : RiskContext → Bool
young_receiver ctx = ltb (ctx.now - ctx.receiver_created_at) one_day_ms

-- The amount is at least the step, so it is its positive part.
unfoldable pub round_amount : RiskContext → Bool
round_amount ctx =
    leb_ℤ (pos round_amount_step_minor) ctx.amount_minor
    && pos_part ctx.amount_minor % round_amount_step_minor == 0

unfoldable pub high_velocity : RiskContext → Bool
high_velocity ctx = leb high_velocity_threshold ctx.sender_recent_transfer_count

abbrev pub rules : List RiskRule
rules =
    record {
      weight = 25;
      reason = "Amount is a large share of the sender's available balance.";
      fires = large_share;
    }
    ∷ record { weight = 20; reason = "Transfer amount is unusually large."; fires = large_amount }
    ∷ record {
      weight = 15;
      reason = "Sender account was created less than 24 hours ago.";
      fires = young_sender;
    }
    ∷ record {
      weight = 15;
      reason = "Sender has not completed NID verification.";
      fires = unverified_sender;
    }
    ∷ record {
      weight = 10;
      reason = "Receiver account was created less than 24 hours ago.";
      fires = young_receiver;
    }
    ∷ record {
      weight = 10;
      reason = "Amount is a suspiciously round figure.";
      fires = round_amount;
    }
    ∷ record {
      weight = 25;
      reason = "Sender has made several transfers in a short time window.";
      fires = high_velocity;
    }
    ∷ []

abbrev pub level_of : ℕ → RiskLevel
level_of score =
    if leb high_threshold score
    then RiskLevel.high
    else if leb medium_threshold score
    then RiskLevel.medium
    else RiskLevel.low

unfoldable pub evaluate : RiskContext → RiskEvaluation
evaluate ctx =
    let fired = select_where (λ rule. rule.fires ctx) rules in
    let total = foldl (λ (sum : ℕ) (rule : RiskRule). sum + rule.weight) 0 fired in
    record { score = total; level = level_of total; reasons = map (λ rule. rule.reason) fired }
