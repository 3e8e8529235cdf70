-- ===== src/Auth/Refresh.antt =====
-- The rotation of a session's refresh token, and the end of a session (`refresh` and `logout` of
-- src/modules/auth/auth.service.ts).
pub mod Steps
pub mod Rotation
use payflow_x.Prelude.{
  ℕ, suc, ◌-◌, Bool, true, false, not, ◌&&◌, ◌||◌, ◌==◌, leb, Option, none, some, String,
}
use payflow_x.Prelude.Result.{ok, err}
use payflow_x.Http.{
  bad_request, unauthorized, text, http, Error, Action, pure, throw, gets, catching,
  is_unauthorized, throw_if, ◌>>=◌, ◌>>◌,
}
use payflow_x.Auth.{Backend, Session}
use payflow_x.Auth.Sessions.{
  find_session, delete_session, clear_token_cookies, generate_tokens, update_session,
  set_token_cookies,
}

abbrev pub session_invalid : Error
session_invalid = http unauthorized (text "Session invalid or inactive")

abbrev pub token_invalid : Error
token_invalid = http unauthorized (text "Invalid refresh token credentials. Session revoked.")

abbrev pub concurrent_request : Error
concurrent_request = http unauthorized (text "Concurrent request in progress. Retry syncing.")

abbrev pub breach_suspected : Error
breach_suspected = http unauthorized (text "Security breach suspected. Session revoked.")

abbrev pub refresh_failed : Error
refresh_failed = http bad_request (text "There was an error refreshing tokens.")

abbrev pub logout_failed : Error
logout_failed = http bad_request (text "There was an error logging out.")

module _ {S : Type 0} (b : Backend S) (grace_ms : ℕ) where
  -- `.catch(() => null)` after the deletion of the session, the cookies, and the answer.
  unfoldable pub revoke : ℕ → ℕ → Error → Action S (Unit {0})
  unfolding delete_session clear_token_cookies
  revoke session_id user_id e = do
    catching (delete_session b session_id user_id >> pure tt) (λ x. pure tt)
    clear_token_cookies b
    throw e

  -- The new tokens of the session.
  unfoldable pub rotate : ℕ → ℕ → ℕ → Action S (Unit {0})
  unfolding generate_tokens update_session set_token_cookies
  rotate user_id session_id next_version = do
    tokens ← gets (generate_tokens b user_id session_id next_version)
    hashed ← gets (b.hash tokens.1)
    update_session b session_id user_id
        λ row. record row { refresh_token = hashed; refresh_token_version = next_version }
    set_token_cookies b tokens.0 tokens.1

  -- The version is another than the token's; `true` is within the grace period.
  unfoldable pub mismatched : Bool → ℕ → ℕ → Action S (Unit {0})
  unfolding revoke
  mismatched true user_id session_id = throw concurrent_request
  mismatched false user_id session_id = revoke session_id user_id breach_suspected

  -- The session is there and active; the Booleans say whether the token is the one whose hash is
  -- stored, and whether the versions agree.
  unfoldable pub refresh_checked : Bool → Bool → Bool → ℕ → ℕ → ℕ → Action S (Unit {0})
  unfolding revoke rotate mismatched
  refresh_checked false same in_grace user_id session_id version =
      revoke session_id user_id token_invalid
  refresh_checked true false in_grace user_id session_id version =
      mismatched in_grace user_id session_id
  refresh_checked true true in_grace user_id session_id version =
      rotate user_id session_id (suc version)

  unfoldable pub refresh_found : Option Session → ℕ → ℕ → ℕ → ℕ → Action S (Unit {0})
  unfolding refresh_checked
  refresh_found none user_id session_id version token = throw session_invalid
  refresh_found (some session) user_id session_id version token = do
    throw_if (not session.is_active) session_invalid
    now ← gets b.now
    refresh_checked (b.is_hash_of session.refresh_token token)
        (session.refresh_token_version == version) (leb (now - session.last_used_at) grace_ms)
        user_id session_id version

  -- `error instanceof UnauthorizedException` is thrown again, all else becomes one error.
  unfoldable pub rethrown : Bool → Error → Action S (Unit {0})
  rethrown true e = throw e
  rethrown false e = throw refresh_failed

  -- `findOne(...).catch(() => null)`
  unfoldable pub look_up : ℕ → ℕ → Action S (Option Session)
  unfolding find_session
  look_up session_id user_id =
      catching (do found ← find_session b session_id user_id; pure (some found)) (λ e. pure none)

  -- The `try` of `refresh`.
  unfoldable pub refresh_body : ℕ → ℕ → ℕ → ℕ → Action S (Unit {0})
  unfolding refresh_found look_up
  refresh_body user_id session_id version token = do
    session ← look_up session_id user_id
    refresh_found session user_id session_id version token

  unfoldable pub refresh : ℕ → ℕ → ℕ → ℕ → Action S (Unit {0})
  unfolding refresh_body rethrown
  refresh user_id session_id version token =
      catching (refresh_body user_id session_id version token) (λ e. rethrown (is_unauthorized e) e)

  unfoldable pub logout : ℕ → ℕ → Action S (Unit {0})
  unfolding delete_session clear_token_cookies
  logout user_id session_id =
      catching (do delete_session b session_id user_id; clear_token_cookies b)
        (λ e. throw logout_failed)
