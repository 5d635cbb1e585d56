-- ===== src/Limits.antt =====
-- The rolling send limits: apps/api/src/limits/transaction-limit.service.ts and
-- apps/api/src/limits/transaction-limit.repository.ts.
use pstu_final.Base.{ℕ, ◌-◌, ◌*◌, Bool, true, false, ◌&&◌, List, [], ◌∷◌, leb, ◌==◌, if◌then◌else◌}
use pstu_final.Base.Int.{ℤ, pos, ◌+ℤ◌, ◌-ℤ◌, ltb_ℤ, leb_ℤ}
use pstu_final.Store.Failure.{app, ErrorCode}
use pstu_final.Store.Rows.{Transfer, TransferStatus}
use pstu_final.Store.Tx.{Tx, throw_if, gets, ◌>>=◌, ◌>>◌}
use pstu_final.Platform.{Platform, Env, Reading}

abbrev pub day_ms : ℕ
day_ms = 24 * 60 * 60 * 1000

pub record SentTotals : Type 0 where
  pub daily_minor : ℤ
  pub weekly_minor : ℤ
  pub monthly_minor : ℤ

pub record Windows : Type 0 where
  pub daily_since : ℕ
  pub weekly_since : ℕ
  pub monthly_since : ℕ

-- A window that would begin before 1970 begins at 0: no row is older.
unfoldable pub windows_since : ℕ → Windows
windows_since now = record {
  daily_since = now - day_ms;
  weekly_since = now - 7 * day_ms;
  monthly_since = now - 30 * day_ms;
}

abbrev pub is_succeeded : TransferStatus → Bool
is_succeeded TransferStatus.succeeded = true
is_succeeded TransferStatus.pending = false
is_succeeded TransferStatus.failed = false

-- The WHERE clause: what a user has sent since a time.
abbrev pub sent_since : ℕ → ℕ → Transfer → Bool
sent_since user since t =
    t.sender_user_id == user && is_succeeded t.status && leb since t.created_at

-- SUM(amount_minor), 0 over no row. Of a list of transfers.
abbrev pub sum_amounts : (Transfer → Bool) → List Transfer → ℤ
sum_amounts test [] = pos 0
sum_amounts test (t ∷ ts) = (if test t then t.amount_minor else pos 0) +ℤ sum_amounts test ts

-- The rows since the monthly bound, summed three times with their FILTER.
unfoldable pub sum_sent_by_window : ℕ → Windows → List Transfer → SentTotals
sum_sent_by_window user w ts = record {
  daily_minor =
      sum_amounts (λ t. sent_since user w.monthly_since t && leb w.daily_since t.created_at) ts;
  weekly_minor =
      sum_amounts (λ t. sent_since user w.monthly_since t && leb w.weekly_since t.created_at) ts;
  monthly_minor =
      sum_amounts (λ t. sent_since user w.monthly_since t && leb w.monthly_since t.created_at) ts;
}

unfoldable pub assert_window : ℤ → ℤ → ℤ → Tx (Unit {0})
assert_window used amount limit =
    throw_if (if leb_ℤ (used +ℤ amount) limit then false else true)
      (app 409 ErrorCode.transfer_limit_exceeded)

-- LimitWindowDto
pub record LimitWindowDto : Type 0 where
  pub limit_minor : ℤ
  pub used_minor : ℤ
  pub remaining_minor : ℤ

unfoldable pub to_window_dto : ℤ → ℤ → LimitWindowDto
to_window_dto used limit =
    let remaining = limit -ℤ used in
    record {
      limit_minor = limit;
      used_minor = used;
      remaining_minor = if ltb_ℤ (pos 0) remaining then remaining else pos 0;
    }

pub record LimitUsageDto : Type 0 where
  pub daily : LimitWindowDto
  pub weekly : LimitWindowDto
  pub monthly : LimitWindowDto

module _ (p : Platform) (e : Env) where
  unfoldable pub assert_within_limits : ℕ → ℤ → Tx (Unit {0})
  unfolding assert_window
  assert_within_limits sender amount = do
    totals ←
        gets (λ s. sum_sent_by_window sender (windows_since (e.clock Reading.limits)) s.transfers)
    assert_window totals.daily_minor amount p.daily_transfer_limit_minor
    assert_window totals.weekly_minor amount p.weekly_transfer_limit_minor
    assert_window totals.monthly_minor amount p.monthly_transfer_limit_minor

  unfoldable pub get_usage : ℕ → Tx LimitUsageDto
  unfolding to_window_dto
  get_usage user = gets (λ s.
      let totals = sum_sent_by_window user (windows_since (e.clock Reading.limits)) s.transfers in
      record {
        daily = to_window_dto totals.daily_minor p.daily_transfer_limit_minor;
        weekly = to_window_dto totals.weekly_minor p.weekly_transfer_limit_minor;
        monthly = to_window_dto totals.monthly_minor p.monthly_transfer_limit_minor;
      })
