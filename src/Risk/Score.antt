-- ===== src/Risk/Score.antt =====
-- The score of a transfer, its bounds and its levels (risk-engine.service.ts, `evaluate`).
use mathlib.Core.List.{foldl}
use pstu_final.Base.{
  Bool, not, ◌%◌, ◌&&◌, ◌==◌, ◌∙◌, ltb, leb, Bool-cases, inl, inr, ◌↔◌, ◌<◌, ℕ, ◌+◌, ◌≤◌, ◌≡◌, refl,
  List, [], ◌∷◌, arith, if◌then◌else◌, select_where,
}
use pstu_final.Base.Int.{pos, pos_part, ltb_ℤ, leb_ℤ, ◌*ℤ◌}
use pstu_final.Store.Rows.{RiskLevel}
use pstu_final.Risk.{
  RiskContext, RiskRule, is_verified, rules, evaluate, level_of, large_share, large_amount,
  young_sender, unverified_sender, young_receiver, round_amount, high_velocity,
}

-- The weights of the rules that fire.
abbrev weigh : RiskContext → List RiskRule → ℕ
weigh ctx [] = 0
weigh ctx (r ∷ rs) = (if r.fires ctx then r.weight else 0) + weigh ctx rs

abbrev weights : List RiskRule → ℕ
weights [] = 0
weights (r ∷ rs) = r.weight + weights rs

foldl-weigh :
    (ctx : RiskContext) (rs : List RiskRule) (n : ℕ)
    → foldl
        (λ (sum : ℕ) (rule : RiskRule). sum + rule.weight)
        n
        (select_where (λ rule. rule.fires ctx) rs)
      ≡ n + weigh ctx rs
foldl-weigh ctx [] n = omega arith
foldl-weigh ctx (r ∷ rs) n = elim (Bool-cases (r.fires ctx)) [
  | inl fired ↦ let rest = foldl-weigh ctx rs (n + r.weight) in rw fired (omega (arith, rest))
  | inr silent ↦ let rest = foldl-weigh ctx rs n in rw silent (omega (arith, rest))
]

evaluate-weigh : (ctx : RiskContext) → (evaluate ctx).score ≡ weigh ctx rules
unfolding evaluate
evaluate-weigh ctx = omega (arith, foldl-weigh ctx rules 0)

weigh_le : (ctx : RiskContext) (rs : List RiskRule) → weigh ctx rs ≤ weights rs
weigh_le ctx [] = omega arith
weigh_le ctx (r ∷ rs) = ground (arith, weigh_le ctx rs)

level_high : (n : ℕ) → (level_of n ≡ RiskLevel.high) ↔ (50 ≤ n)
level_high n = ground arith

level_low : (n : ℕ) → (level_of n ≡ RiskLevel.low) ↔ (n < 25)
level_low n = ground arith

evaluate-level : (ctx : RiskContext) → (evaluate ctx).level ≡ level_of (evaluate ctx).score
unfolding evaluate
evaluate-level ctx = refl

young_sender_lem :
    (ctx : RiskContext) → young_sender ctx ≡ ltb ctx.now (ctx.sender_created_at + 86_400_000)
unfolding young_sender
young_sender_lem ctx = ground arith

young_receiver_lem :
    (ctx : RiskContext) → young_receiver ctx ≡ ltb ctx.now (ctx.receiver_created_at + 86_400_000)
unfolding young_receiver
young_receiver_lem ctx = ground arith

abbrev points : Bool → ℕ → ℕ
points signal weight = if signal then weight else 0

-- The points of a transfer, signal by signal, in minor units and milliseconds.
abbrev pub points_of : RiskContext → ℕ
points_of ctx =
    points
      (ltb_ℤ (pos 0) ctx.sender_balance_before_minor
        && leb_ℤ (ctx.sender_balance_before_minor *ℤ 7) (ctx.amount_minor *ℤ 10))
      25
    + (points (leb_ℤ (pos 50_000_000) ctx.amount_minor) 20
        + (points (ltb ctx.now (ctx.sender_created_at + 86_400_000)) 15
            + (points (not (is_verified ctx.sender_verification_status)) 15
                + (points (ltb ctx.now (ctx.receiver_created_at + 86_400_000)) 10
                    + (points
                          (leb_ℤ (pos 5_000_000) ctx.amount_minor
                            && pos_part ctx.amount_minor % 5_000_000 == 0)
                          10
                        + points (leb 5 ctx.sender_recent_transfer_count) 25)))))

rules-points_of : (ctx : RiskContext) → weigh ctx rules ≡ points_of ctx
unfolding large_share large_amount unverified_sender round_amount high_velocity
rules-points_of ctx = rw (young_sender_lem ctx, young_receiver_lem ctx) (ground arith)

-- The score of a transfer is the sum of its points: 25 for an amount of at least seven tenths of a
-- positive balance, 20 from 50,000,000 minor units on, 15 for a sender's account younger than 24
-- hours, 15 for a sender who is not verified, 10 for such a receiver's account, 10 for a multiple of
-- 5,000,000 minor units that is not below it, and 25 from five recent transfers on; it is at most
-- 120, and the level is HIGH from 50, LOW below 25 and MEDIUM between.
pub evaluate_scores :
    (ctx : RiskContext)
    → ((evaluate ctx).score ≡ points_of ctx)
      × ((evaluate ctx).score ≤ 120)
      × ((evaluate ctx).level ≡ RiskLevel.high ↔ 50 ≤ (evaluate ctx).score)
      × ((evaluate ctx).level ≡ RiskLevel.low ↔ (evaluate ctx).score < 25)
evaluate_scores ctx = (
  evaluate-weigh ctx ∙ rules-points_of ctx,
  rw evaluate-weigh (weigh_le ctx rules),
  rw evaluate-level (level_high (evaluate ctx).score),
  rw evaluate-level (level_low (evaluate ctx).score),
)
