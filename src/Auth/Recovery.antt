-- ===== src/Auth/Recovery.antt =====
-- One-time tokens in the cache and the recovery of a password (src/modules/tokens/tokens.service.ts
-- and src/modules/auth/password-recovery.service.ts). The cache is a parameter that may throw;
-- users are looked up and updated by parameters; an e-mail is a state change that may throw.
pub mod Absence
pub mod Once
use payflow_x.Prelude.{ℕ, ◌+◌, ◌*◌, ◌/◌, Bool, true, false, not, ◌==◌, Option, none, some, String}
use payflow_x.Http.{
  bad_request, unauthorized, text, quoting, http, Error, Action, pure, throw, catching,
  is_unauthorized, throw_if, ◌>>=◌, ◌>>◌,
}

-- `AuthorizationTokenEnum` (src/common/enums/authorization-token.enum.ts)
pub data TokenType : Type 0 where
  confirm_email confirm_backup_email confirm_phone confirm_backup_phone : TokenType
  recovery_password two_factor : TokenType

-- The cached value, less the user and the type that its key repeats, with the cache's operations.
-- `random` is `Math.random()` in millionths.
pub record Cache (S : Type 0) : Type 0 where
  pub set : TokenType → ℕ → ℕ → ℕ → Action S (Unit {0})
  pub get : TokenType → ℕ → Action S (Option ℕ)
  pub del : TokenType → ℕ → Action S (Unit {0})
  pub random : S → ℕ

-- `Math.floor(100000 + Math.random() * 900000)`
abbrev pub random_token : ℕ → ℕ
random_token r = (100_000 * 1_000_000 + r * 900_000) / 1_000_000

abbrev pub invalid_or_expired : Error
invalid_or_expired = http unauthorized (text "Invalid or expired token")

abbrev pub type_name : TokenType → String
type_name confirm_email = "confirm_email"
type_name confirm_backup_email = "confirm_backup_email"
type_name confirm_phone = "confirm_phone"
type_name confirm_backup_phone = "confirm_backup_phone"
type_name recovery_password = "recovery_password"
type_name two_factor = "two_factor"

-- "Failed to generate … token" and its likes, the type quoted.
abbrev pub token_failed : String → TokenType → Error
token_failed message type = http bad_request (quoting message (type_name type))

abbrev pub default_ttl : ℕ
default_ttl = 900_000

abbrev pub recovery_ttl : ℕ
recovery_ttl = 600_000

-- `!payload || payload.token !== token`
unfoldable pub is_token : Option ℕ → ℕ → Bool
is_token none token = false
is_token (some held) token = held == token

module _ {S : Type 0} (c : Cache S) where
  unfoldable pub generate_token : TokenType → ℕ → ℕ → Action S ℕ
  generate_token type user_id ttl s =
      let token = random_token (c.random s) in
      catching (do c.set type user_id token ttl; pure token)
        (λ e. throw (token_failed "Failed to generate token" type)) s

  -- An `UnauthorizedException` is thrown again.
  unfoldable pub validation_error : TokenType → Bool → Error → Action S (Unit {0})
  validation_error type true e = throw e
  validation_error type false e = throw (token_failed "Failed to validate token" type)

  unfoldable pub validate_body : TokenType → ℕ → ℕ → Action S (Unit {0})
  unfolding is_token
  validate_body type user_id token = do
    payload ← c.get type user_id
    throw_if (not (is_token payload token)) invalid_or_expired

  unfoldable pub validate_token : TokenType → ℕ → ℕ → Action S (Unit {0})
  unfolding validate_body validation_error
  validate_token type user_id token =
      catching (validate_body type user_id token) (λ e. validation_error type (is_unauthorized e) e)

  unfoldable pub revoke_token : TokenType → ℕ → Action S Bool
  revoke_token type user_id =
      catching (do c.del type user_id; pure true)
        (λ e. throw (token_failed "Failed to revoke token" type))

  module _ (find_user : ℕ → Action S ℕ) (set_password : ℕ → ℕ → Action S (Unit {0}))
      (send_code : ℕ → ℕ → Action S (Unit {0})) where
    -- A user that is not found is no error here.
    unfoldable pub send_if_found : Option ℕ → ℕ → Action S (Unit {0})
    unfolding generate_token
    send_if_found none email = pure tt
    send_if_found (some user_id) email = do
      code ← generate_token recovery_password user_id recovery_ttl
      send_code email code

    unfoldable pub forgot_password : ℕ → Action S (Unit {0})
    unfolding send_if_found
    forgot_password email = do
      user ← catching (do user_id ← find_user email; pure (some user_id)) (λ e. pure none)
      send_if_found user email

    unfoldable pub verify_otp : ℕ → ℕ → Action S Bool
    unfolding validate_token
    verify_otp email code = do
      user_id ← find_user email
      validate_token recovery_password user_id code
      pure true

    -- The token is good: the password is set and the token revoked.
    unfoldable pub set_and_revoke : ℕ → ℕ → Action S (Unit {0})
    unfolding revoke_token
    set_and_revoke user_id password = do
      set_password user_id password
      revoke_token recovery_password user_id
      pure tt

    unfoldable pub reset_for : ℕ → ℕ → ℕ → Action S (Unit {0})
    unfolding validate_token set_and_revoke
    reset_for code password user_id = do
      validate_token recovery_password user_id code
      set_and_revoke user_id password

    unfoldable pub reset_password : ℕ → ℕ → ℕ → Action S (Unit {0})
    unfolding reset_for
    reset_password email code password = do
      user_id ← find_user email
      reset_for code password user_id
