-- ===== src/Auth/Credentials.antt =====
-- What authentication takes from outside the repository: CITEXT, argon2, the JWT signer, the random
-- bytes of a token (apps/api/src/auth/password.service.ts and token.service.ts), and how long a
-- refresh token lives (apps/api/src/config/app-config.service.ts).
use pstu_final.Base.{ℕ, ◌+◌, ◌*◌, String, Bool, false, Option, none, some}
use pstu_final.Base.Text.{codes}
use pstu_final.Platform.{Platform, Env, Reading}

pub record Credentials : Type 0 where
  -- the text by which CITEXT compares
  pub citext : String → String
  -- argon2.hash with the salt of this run
  pub argon2_hash : String → String
  -- argon2.verify, which throws on a text that is no hash
  pub argon2_verify : String → String → Option Bool
  -- the hash that `onModuleInit` has made of a password that nobody has
  pub dummy_hash : String
  -- jwt.sign({ sub }) with the configured secret and lifetime, at the time of this run
  pub sign_access_token : ℕ → String
  -- randomBytes(32).toString('base64url') of this run
  pub random_token : String
  pub refresh_token_ttl_days : ℕ

-- What `generateRefreshToken` returns.
pub record RefreshToken : Type 0 where
  pub token : String
  pub hash : String

module _ (c : Credentials) where
  -- PasswordService.verify
  unfoldable pub verify : String → String → Bool
  verify hash plain = elim (c.argon2_verify hash plain) [ none ↦ false | some valid ↦ valid ]

module _ (p : Platform) where
  unfoldable pub hash_refresh_token : String → String
  hash_refresh_token token = p.sha256 (codes token)

module _ (p : Platform) (c : Credentials) where
  unfoldable pub generate_refresh_token : RefreshToken
  unfolding hash_refresh_token
  generate_refresh_token = record {
    token = c.random_token;
    hash = hash_refresh_token p c.random_token;
  }

module _ (c : Credentials) where
  unfoldable pub refresh_token_expiry_date : Env → ℕ
  refresh_token_expiry_date e =
      e.clock Reading.session_expiry + c.refresh_token_ttl_days * 24 * 60 * 60 * 1000
