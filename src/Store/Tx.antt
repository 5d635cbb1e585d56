-- ===== src/Store/Tx.antt =====
-- The database and the calls on it. A call returns or throws, and what it wrote before it threw
-- stands until `transaction` rolls it back (PrismaService.$transaction,
-- apps/api/src/database/prisma.service.ts).
use pstu_final.Base.{ℕ, Bool, Option, none, some, List, [], if◌then◌else◌}
use pstu_final.Store.Failure.{Failure}
use pstu_final.Store.Rows.{
  User, Wallet, Transfer, LedgerEntry, RiskAssessment, MoneyRequest, OutboxEvent, AuditEvent,
  Notification, AuthSession,
}
use pstu_final.Store.Dto.{IdempotencyRecord}

-- A row lock taken by SELECT … FOR UPDATE.
pub data Lock : Type 0 where
  wallet_row : ℕ → Lock
  money_request_row : ℕ → Lock
  idempotency_row : ℕ → Lock
  outbox_row : ℕ → Lock

-- `locks` lists the row locks of the running transaction, the first taken first.
pub record Db : Type 0 where
  pub users : List User
  pub wallets : List Wallet
  pub transfers : List Transfer
  pub ledger : List LedgerEntry
  pub assessments : List RiskAssessment
  pub requests : List MoneyRequest
  pub records : List IdempotencyRecord
  pub outbox : List OutboxEvent
  pub audit : List AuditEvent
  pub notifications : List Notification
  pub sessions : List AuthSession
  pub locks : List Lock

pub data Result (A : Type 0) : Type 0 where
  ok : A → Result A
  err : Failure → Result A

abbrev pub Tx : Type 0 → Type 0
Tx A = Db → Result A × Db

module _ {A : Type 0} where
  abbrev pub pure : A → Tx A
  pure a s = (ok a, s)

  abbrev pub throw : Failure → Tx A
  throw e s = (err e, s)

  abbrev pub gets : (Db → A) → Tx A
  gets f s = (ok (f s), s)

  -- `if (!value) throw …`
  abbrev pub or_throw : Option A → Failure → Tx A
  or_throw none e = throw e
  or_throw (some a) e = pure a

abbrev pub modify : (Db → Db) → Tx (Unit {0})
modify f s = (ok tt, f s)

-- `if (condition) throw …`
abbrev pub throw_if : Bool → Failure → Tx (Unit {0})
throw_if c e s = (if c then err e else ok tt, s)

infixl 5 ◌>>=◌ ◌>>◌
unfoldable pub ◌>>=◌ : {A B : Type 0} → Tx A → (A → Tx B) → Tx B
◌>>=◌ m f s = let (r, s') = m s in elim r [ ok a ↦ f a s' | err e ↦ (err e, s') ]

abbrev pub ◌>>◌ : {A B : Type 0} → Tx A → Tx B → Tx B
m >> k = m >>= λ _. k

abbrev pub settled : {A : Type 0} → Db → Result A × Db → Result A × Db
settled before (ok a, s) = (ok a, record s { locks = [] })
settled before (err e, s) = (err e, record before { locks = [] })

-- COMMIT after a return, ROLLBACK after a throw; either way the locks are released.
unfoldable pub transaction : {A : Type 0} → Tx A → Tx A
transaction m s = settled s (m (record s { locks = [] }))

-- The same, written as a value: what an attempt that the database kills leaves behind.
unfoldable pub rolled_back : {A : Type 0} → Failure → Tx A
rolled_back e s = (err e, record s { locks = [] })
