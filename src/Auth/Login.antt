-- ===== src/Auth/Login.antt =====
-- Registration and the ways to log in (`register`, `login` and `oauthLogin` of
-- src/modules/auth/auth.service.ts). The creation of a user, with its own checks, is a parameter.
pub mod SecondFactor
use payflow_x.Prelude.{ℕ, Bool, true, false, not, Option, none, some}
use payflow_x.Http.{
  bad_request, unauthorized, not_found, text, http, Error, Action, pure, throw, gets, modify,
  assert_found, catching, throw_if, ◌>>=◌, ◌>>◌,
}
use payflow_x.Auth.{
  Backend, User, Answer, two_factor_pending, access_secret, refresh_secret, pending_payload,
}
use payflow_x.Auth.Sessions.{create_session_with_tokens}

abbrev pub no_password : Error
no_password =
    http unauthorized (
      text "No password set. Sign in with your OAuth provider or use 'Forgot Password' to set one.")

abbrev pub invalid_credentials : Error
invalid_credentials = http unauthorized (text "Invalid credentials")

-- The OAuth providers of `AuthProviderEnum`.
pub data Provider : Type 0 where
  google apple : Provider

abbrev pub oauth_failed : Provider → Error
oauth_failed google = http bad_request (text "There was an error with google login.")
oauth_failed apple = http bad_request (text "There was an error with apple login.")

-- What `login` answers: the user, or that a second factor is needed.
pub data Login : Type 0 where
  logged_in : Answer → Login
  requires_two_factor : Login

-- A row with its key.
abbrev named : ℕ → Option User → Option Answer
named id none = none
named id (some user) = some (id, user)

module _ {S : Type 0} (b : Backend S) where
  -- `usersService.findOne({ email })`
  unfoldable pub find_by_id : Option ℕ → Action S Answer
  find_by_id none s = throw (http not_found (text "User")) s
  find_by_id (some id) s = assert_found (named id (b.users.find_unique id s)) (text "User") s

  unfoldable pub find_by_email : ℕ → Action S Answer
  unfolding find_by_id
  find_by_email email s = find_by_id (b.user_by_email email s) s

  -- The pending cookie of the second step.
  unfoldable pub ask_second_factor : ℕ → Action S Login
  ask_second_factor user_id = do
    pending ← gets (b.sign access_secret (pending_payload user_id))
    modify (b.set_cookie two_factor_pending pending)
    pure requires_two_factor

  unfoldable pub log_in : Answer → Action S Login
  unfolding create_session_with_tokens
  log_in user = do create_session_with_tokens b user.0; pure (logged_in user)

  -- The `try` on the cookie of a trusted device, whose failure falls through to the second factor.
  unfoldable pub try_trusted : Option ℕ → Answer → Action S Login
  unfolding ask_second_factor log_in
  try_trusted none user = ask_second_factor user.0
  try_trusted (some token) user =
      catching
        (do
          signed ← gets (b.is_signed refresh_secret token)
          throw_if (not signed) invalid_credentials
          log_in user)
        (λ e. ask_second_factor user.0)

  -- The user has a password, and the Booleans say whether it is the given one and whether the
  -- second factor is on.
  unfoldable pub login_checked : Bool → Bool → Option ℕ → Answer → Action S Login
  unfolding try_trusted log_in
  login_checked false two_factor trusted user = throw invalid_credentials
  login_checked true true trusted user = try_trusted trusted user
  login_checked true false trusted user = log_in user

  unfoldable pub login_with : Option ℕ → ℕ → Option ℕ → Answer → Action S Login
  unfolding login_checked
  login_with none password trusted user = throw no_password
  login_with (some hashed) password trusted user =
      login_checked (b.is_hash_of hashed password) user.1.two_factor_enabled trusted user

  unfoldable pub login : ℕ → ℕ → Option ℕ → Action S Login
  unfolding find_by_email login_with
  login email password trusted = do
    user ← find_by_email email
    login_with user.1.password password trusted user

  module _ (create_user : ℕ → Action S Answer) where
    unfoldable pub register : ℕ → Action S Answer
    unfolding create_session_with_tokens
    register email = do user ← create_user email; create_session_with_tokens b user.0; pure user

    existing_or_created : Option Answer → ℕ → Action S Answer
    existing_or_created none email = create_user email
    existing_or_created (some user) email = pure user

    unfoldable pub oauth_login : Provider → ℕ → Action S Answer
    unfolding find_by_email existing_or_created create_session_with_tokens
    oauth_login provider email =
        catching
          (do
            found ← catching (do user ← find_by_email email; pure (some user)) (λ e. pure none)
            user ← existing_or_created found email
            create_session_with_tokens b user.0
            pure user)
          (λ e. throw (oauth_failed provider))
