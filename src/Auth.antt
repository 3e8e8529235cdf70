-- ===== src/Auth.antt =====
-- Authentication (src/modules/auth, src/modules/session, src/modules/tokens): what the services
-- keep, and what they use of third parties: the database client, the signed tokens of
-- @nestjs/jwt, the hashes of argon2, the one-time passwords of otplib, and the response's cookies.
-- Identifiers, tokens and hashes are numbers.
pub mod Sessions
pub mod Refresh
pub mod TwoFactor
pub mod Login
pub mod Recovery
mod Tests
use payflow_x.Prelude.{ℕ, Bool, Option, String}
use payflow_x.Http.{Action}
use payflow_x.Db.{Table}

-- The columns of `User` that the services read.
pub record User : Type 0 where
  pub email : ℕ
  pub password : Option ℕ
  pub two_factor_enabled : Bool
  pub two_factor_secret : Option ℕ

-- `Session`
pub record Session : Type 0 where
  pub user_id : ℕ
  pub refresh_token : ℕ
  pub refresh_token_version : ℕ
  pub is_active : Bool
  pub last_used_at : ℕ
  pub expires_at : ℕ

pub data Cookie : Type 0 where
  access_token refresh_token two_factor_pending trusted_device : Cookie

-- The payloads that are signed: of a session, of the second step of a login, of a trusted device.
pub data Payload : Type 0 where
  session_payload : ℕ → ℕ → ℕ → Payload
  pending_payload trusted_payload : ℕ → Payload

-- The two secrets: that of access tokens and `JWT_REFRESH_SECRET`.
pub data Secret : Type 0 where
  access_secret refresh_secret : Secret

-- The state `S` is all that the services change: the database and the response.
pub record Backend (S : Type 0) : Type 0 where
  pub users : Table S User
  pub user_by_email : ℕ → S → Option ℕ
  pub sessions : Table S Session
  pub fresh_id : S → ℕ
  pub now : S → ℕ
  pub set_cookie : Cookie → ℕ → S → S
  pub clear_cookie : Cookie → S → S
  pub sign : Secret → Payload → S → ℕ
  pub is_signed : Secret → ℕ → S → Bool
  pub hash : ℕ → S → ℕ
  pub is_hash_of : ℕ → ℕ → Bool

-- The identity that a login answers with.
abbrev pub Answer : Type 0
Answer = ℕ × User
