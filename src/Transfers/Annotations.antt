-- ===== src/Transfers/Annotations.antt =====
-- What a settlement writes beside the money: the risk assessment, the events and the audit rows.
use pstu_final.Base.{ℕ, ◌≡◌, arith}
use pstu_final.Store.Rows.{TransferSource}
use pstu_final.Store.Dto.{RiskAssessmentDto}
use pstu_final.Store.Tx.{Db, ok, ◌>>=◌}
use pstu_final.Platform.{Platform, Env}
use pstu_final.Outbox.{insert_event}
use pstu_final.Audit.{record_audit}
use pstu_final.Transfers.Settle.{
  SettleInput, Parties, assess_risk, announce, insert_assessment, count_recent,
}

-- `s'` differs from `s` in the tables beside the money alone.
abbrev pub SameMoney : Db → Db → Type 0
SameMoney s s' =
    s' ≡ record s { assessments = s'.assessments; audit = s'.audit; outbox = s'.outbox }

module _ (p : Platform) (e : Env) where
  pub assess_risk-SameMoney :
      (input : SettleInput) (w : Parties) (id : ℕ) (s : Db) {r : RiskAssessmentDto} {s' : Db}
      → assess_risk p e input w id s ≡ (ok r, s')
      → SameMoney s s'
  unfolding assess_risk insert_assessment count_recent record_audit insert_event ◌>>=◌
  assess_risk-SameMoney input w id s h = ground arith

  pub announce-SameMoney :
      (input : SettleInput) (source : TransferSource) (w : Parties) (id : ℕ) (s : Db) {u : Unit {0}}
      {s' : Db}
      → announce p e input source w id s ≡ (ok u, s')
      → SameMoney s s'
  unfolding announce record_audit insert_event ◌>>=◌
  announce-SameMoney input source w id s h = ground arith
