-- ===== src/Auth/Sessions.antt =====
-- The sessions of a user and the tokens that stand for them (src/modules/session/session.service.ts
-- and src/modules/auth/session-token.service.ts).
use payflow_x.Prelude.{ℕ, ◌+◌, ◌*◌, true, ◌==◌, Option, none, some, if◌then◌else◌}
use payflow_x.Http.{
  bad_request, text, http, Error, Action, pure, throw, gets, modify, assert_found, catching, ◌>>=◌,
  ◌>>◌,
}
use payflow_x.Auth.{
  Backend, Session, access_token, refresh_token, access_secret, refresh_secret, session_payload,
}

abbrev pub session_error : Error
session_error = http bad_request (text "There was an error creating the session.")

-- The lifetime of a session and of its refresh token: seven days.
abbrev pub session_ms : ℕ
session_ms = 7 * 24 * 60 * 60 * 1000

-- `where: { id, userId }`
unfoldable pub owned_by : ℕ → Option Session → Option Session
owned_by user_id none = none
owned_by user_id (some session) = if session.user_id == user_id then some session else none

module _ {S : Type 0} (b : Backend S) where
  -- `SessionService.findOne`
  unfoldable pub find_session : ℕ → ℕ → Action S Session
  unfolding owned_by
  find_session id user_id s =
      assert_found (owned_by user_id (b.sessions.find_unique id s)) (text "Session") s

  -- `SessionService.create`: the database draws the identifier and starts the version at 0. The
  -- listeners of "session.created" run apart from the request.
  unfoldable pub create_session : ℕ → ℕ → ℕ → Action S ℕ
  create_session user_id token expires_at = do
    id ← gets b.fresh_id
    last_used_at ← gets b.now
    b.sessions.create id (record {
      user_id = user_id;
      refresh_token = token;
      refresh_token_version = 0;
      is_active = true;
      last_used_at = last_used_at;
      expires_at = expires_at;
    })
    pure id

  -- `lastUsedAt` is marked `@updatedAt`, so every update sets it.
  unfoldable pub write_session : ℕ → (Session → Session) → Action S Session
  write_session id f s = b.sessions.update id (λ row. record (f row) { last_used_at = b.now s }) s

  -- `SessionService.update` with the fields that its callers give.
  unfoldable pub update_session : ℕ → ℕ → (Session → Session) → Action S Session
  unfolding find_session write_session
  update_session id user_id f = do find_session id user_id; write_session id f

  -- `SessionService.delete`
  unfoldable pub delete_session : ℕ → ℕ → Action S Session
  unfolding find_session
  delete_session id user_id = do find_session id user_id; b.sessions.delete id

  -- `generateTokens`: the access token and the refresh token.
  unfoldable pub generate_tokens : ℕ → ℕ → ℕ → S → ℕ × ℕ
  generate_tokens user_id session_id version s =
      let payload = session_payload user_id session_id version in
      (b.sign access_secret payload s, b.sign refresh_secret payload s)

  unfoldable pub set_token_cookies : ℕ → ℕ → Action S (Unit {0})
  set_token_cookies access refresh = do
    modify (b.set_cookie access_token access)
    modify (b.set_cookie refresh_token refresh)

  unfoldable pub clear_token_cookies : Action S (Unit {0})
  clear_token_cookies = do
    modify (b.clear_cookie access_token)
    modify (b.clear_cookie refresh_token)

  -- `createSessionWithTokens`; the placeholder "pending" is the number 0.
  unfoldable pub create_session_with_tokens : ℕ → Action S ℕ
  unfolding create_session generate_tokens update_session set_token_cookies
  create_session_with_tokens user_id =
      catching
        (do
          now ← gets b.now
          id ← create_session user_id 0 (now + session_ms)
          tokens ← gets (generate_tokens user_id id 0)
          hashed ← gets (b.hash tokens.1)
          update_session id user_id λ row. record row { refresh_token = hashed }
          set_token_cookies tokens.0 tokens.1
          pure id)
        (λ e. throw session_error)
