-- ===== src/Http/Tests.antt =====
-- A transfer of a suspended user at the guard, and a key that is no UUID.
use pstu_final.Base.{ℕ, String, Option, none, some, [], ◌∷◌, ◌≡◌, refl, str_eq, if◌then◌else◌}
use pstu_final.Base.Int.{pos}
use pstu_final.Base.Text.{matches_uuid_pattern}
use pstu_final.Store.Failure.{app, validation_error}
use pstu_final.Store.Rows.{UserStatus}
use pstu_final.Store.Tx.{Db, Tx, err, ◌>>=◌}
use pstu_final.Store.Dto.{Body}
use pstu_final.Audit.{record_detached}
use pstu_final.Fixtures.{test_platform, test_env, test_db, test_user, direct, pay_bob}
use pstu_final.Transfers.Service.{create_direct_transfer}
use pstu_final.Http.{
  Exception, guarded, jwt_guard, find_status, refuse_inactive, inactive_failure, idempotency_key,
  resolve_exception,
}
use pstu_final.Http.Guarded.{Passage, guarded-Passage}

abbrev verifier : String → Option ℕ
verifier token = if str_eq token "alice" then some 1 else none

abbrev suspended : Db
suspended = record test_db {
  users = record (test_user 1) { status = UserStatus.suspended } ∷ test_user 2 ∷ [];
}

abbrev pays : ℕ → Tx Body
pays id =
    create_direct_transfer test_platform direct (record (pay_bob (pos 100)) { actor_user_id = id })

blocks :
    (guarded verifier (test_env 800) "/transfers" pays (some "alice") suspended).0
    ≡ err inactive_failure
unfolding guarded jwt_guard find_status refuse_inactive record_detached ◌>>=◌
blocks = refl

no_uuid :
    idempotency_key test_platform (some "abc") test_db ≡ (err (app 400 validation_error), test_db)
unfolding idempotency_key ◌>>=◌ matches_uuid_pattern
no_uuid = refl

oversized :
    resolve_exception (Exception.middleware none (some 413))
    ≡ record { status = 413; code = validation_error }
unfolding resolve_exception
oversized = refl

guarded-Passage_example :
    Passage verifier pays suspended
      (some "alice")
      (guarded verifier (test_env 800) "/transfers" pays (some "alice") suspended)
guarded-Passage_example =
    guarded-Passage verifier pays suspended (test_env 800) "/transfers" (some "alice")
