-- ===== src/Auth/Tests.antt =====
-- Runs of the operations on one account.
use pstu_final.Base.{
  String, none, some, [], ◌∷◌, ◌==◌, ◌≡◌, ◌≢◌, refl, ap, any, find_where, length, str_eq,
  if◌then◌else◌, false,
}
use pstu_final.Store.Rows.{User, AuthSession}
use pstu_final.Store.Tx.{Db, Result, ok, err, transaction, ◌>>=◌}
use pstu_final.Platform.{Platform}
use pstu_final.Audit.{record_detached}
use pstu_final.Fixtures.{test_platform, test_env, test_db}
use pstu_final.Transfers.Outcome.{OnlyAudited}
use pstu_final.Auth.Credentials.{Credentials, hash_refresh_token, generate_refresh_token}
use pstu_final.Auth.Accounts.{create_user, create_wallet}
use pstu_final.Auth.Sessions.{find_by_token_hash, create_session_row, revoke, is_active_of}
use pstu_final.Auth.Service.{
  IssuedSession, Registered, RegisterInput, LoginInput, unauthorized, register, login, refresh,
  refresh_session, logout,
}
use pstu_final.Auth.Rotation.{with_hash, rotated}
use pstu_final.Auth.Once.{refresh_once, refresh_session_race}
use pstu_final.Auth.LoggedOut.{logout_ends}
use pstu_final.Auth.Admission.{Answer, login-Answer}
use pstu_final.Auth.Opening.{
  Registration, EachHasWallet, register-Registration, register-EachHasWallet,
}

-- A digest that tells lengths apart.
abbrev platform : Platform
platform = record test_platform {
  sha256 =
      λ codes. if length codes == 5 then "five" else if length codes == 6 then "six" else "more";
}

-- A password is its own hash.
abbrev credentials : String → Credentials
credentials token = record {
  citext = λ t. t;
  argon2_hash = λ t. t;
  argon2_verify = λ hash plain. some (str_eq hash plain);
  dummy_hash = "nobody";
  sign_access_token = λ id. "signed";
  random_token = token;
  refresh_token_ttl_days = 7;
}

abbrev session : AuthSession
session = record {
  id = 5;
  user_id = 1;
  refresh_token_hash = "five";
  user_agent = none;
  created_at = 0;
  expires_at = 1_800_000_000_000;
  revoked_at = none;
}

abbrev signed_in : Db
signed_in = record test_db { sessions = session ∷ [] }

abbrev first : Result IssuedSession × Db
first = refresh platform (credentials "second") (test_env 400) (some "token") none signed_in

first_issues : first.0 ≡ ok (record { access_token = "signed"; refresh_token = "second" })
unfolding refresh find_by_token_hash hash_refresh_token transaction revoke create_session_row
    generate_refresh_token record_detached ◌>>=◌
first_issues = refl

refresh_once_example :
    (x : AuthSession) × (find_where
        (with_hash (hash_refresh_token platform "token"))
        signed_in.sessions
      ≡ some x)
    × (x.revoked_at ≡ none)
    × ((refresh platform (credentials "third") (test_env 500) (some "token") none first.1).0
        ≡ err unauthorized)
    × (any
          (is_active_of x.user_id)
          (refresh platform
            (credentials "third")
            (test_env 500)
            (some "token")
            none
            first.1).1.sessions
        ≡ false)
refresh_once_example =
    refresh_once platform (credentials "second") (credentials "third") (test_env 400) (test_env 500)
      "token" none none signed_in (record { access_token = "signed"; refresh_token = "second" })
      first.1 (ap (λ r. (r, first.1)) first_issues)

abbrev one_run : Result IssuedSession × Db
one_run = refresh_session platform (credentials "second") (test_env 400) session none signed_in

new_id : any (λ (x : AuthSession). x.id == 517) one_run.1.sessions ≡ false
unfolding refresh_session transaction revoke create_session_row generate_refresh_token
    record_detached ◌>>=◌
new_id = refl

first_hash :
    any (with_hash (generate_refresh_token platform (credentials "second")).hash) signed_in.sessions
    ≡ false
unfolding generate_refresh_token
first_hash = refl

new_hash :
    any
      (with_hash (generate_refresh_token platform (credentials "the third")).hash)
      one_run.1.sessions
    ≡ false
unfolding refresh_session transaction revoke create_session_row generate_refresh_token
    record_detached ◌>>=◌
new_hash = refl

refresh_session_race_example :
    (one_run.0 ≡ ok (record { access_token = "signed"; refresh_token = "second" }))
    × ((refresh_session platform (credentials "the third") (test_env 500) session none one_run.1).0
        ≡ ok (record { access_token = "signed"; refresh_token = "the third" }))
    × (◌≢◌ {A = String} "second" "the third")
    × ((refresh_session platform
          (credentials "the third")
          (test_env 500)
          session
          none
          one_run.1).1.sessions
        ≡ rotated platform (credentials "the third") (test_env 500) session none (
            rotated platform (credentials "second") (test_env 400) session none signed_in.sessions))
refresh_session_race_example =
    refresh_session_race platform (credentials "second") (credentials "the third") (test_env 400)
      (test_env 500) session none none signed_in one_run.1 refl refl refl refl refl refl first_hash
      new_id new_hash

abbrev logged_out : Result (Unit {0}) × Db
logged_out = logout platform (test_env 400) (some "token") signed_in

logout_ends_example :
    (logged_out.0 ≡ ok tt)
    × ((refresh platform (credentials "second") (test_env 500) (some "token") none logged_out.1).0
        ≡ err unauthorized)
    × ((logout platform (test_env 600) (some "token") logged_out.1).1.sessions
        ≡ logged_out.1.sessions)
logout_ends_example =
    logout_ends platform (credentials "second") (test_env 400) (test_env 500) (test_env 600)
      (some "token") none signed_in

abbrev credentials_given : LoginInput
credentials_given = record { email = "someone@example.com"; password = "hash" }

abbrev logged_in : Result User × Db
logged_in = login (credentials "second") (test_env 400) credentials_given test_db

login-Answer_example :
    Answer (credentials "second") credentials_given test_db logged_in.0
    × OnlyAudited test_db logged_in.1
login-Answer_example = login-Answer (credentials "second") (test_env 400) credentials_given test_db

abbrev newcomer : String → RegisterInput
newcomer email = record { email = email; password = "long enough"; display_name = "New" }

abbrev opening : Result Registered × Db
opening =
    register platform (credentials "second") (test_env 400) (newcomer "new@example.com") test_db

opening_adds : length opening.1.users ≡ 3
unfolding register transaction create_user create_wallet record_detached ◌>>=◌
opening_adds = refl

register-Registration_example :
    Registration platform
      (credentials "second")
      (test_env 400)
      (newcomer "new@example.com")
      test_db
      opening.1
      opening.0
register-Registration_example =
    register-Registration platform (credentials "second") (test_env 400)
      (newcomer "new@example.com") test_db opening.0 opening.1 refl

register-EachHasWallet_example : EachHasWallet opening.1
register-EachHasWallet_example =
    register-EachHasWallet platform (credentials "second") (test_env 400)
      (newcomer "new@example.com") test_db opening.0 opening.1 (refl, (refl, tt)) refl
