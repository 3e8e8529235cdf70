-- ===== src/Auth/Refresh/Rotation.antt =====
-- A refresh token is good for one refresh: what a rotation leaves, and what a replay does.
use payflow_x.Prelude.{
  ℕ, ◌≡◌, ◌≢◌, refl, ◌∙◌, ap, Bool, true, false, ◌==◌, ==_refl, none, some, leb, ◌-◌,
}
use payflow_x.Prelude.Result.{ok, err}
use payflow_x.Http.{pure, ◌>>=◌, catching_ok, catching_err, bind_from, is_unauthorized}
use payflow_x.Auth.{Backend, Session}
use payflow_x.Auth.Sessions.{find_session}
use payflow_x.Auth.Refresh.{
  refresh, refresh_body, look_up, refresh_found, refresh_checked, rethrown, token_invalid,
}
use payflow_x.Auth.Refresh.Steps.{
  IsBackend, next_token, rotated, find_session_found, rotate_found, revoke_found, other_code,
}

module _ {S : Type 0} (b : Backend S) (grace_ms : ℕ) (law : IsBackend b) where
  -- A session that a refresh finds: the user's own, and active.
  abbrev pub Holds : ℕ → ℕ → S → Session → Type 0
  Holds u i s row =
      (b.sessions.find_unique i s ≡ some row) × (row.user_id ≡ u) × (row.is_active ≡ true)

  found_checked :
      (u i v token : ℕ) (s : S) (row : Session) {hashed same : Bool}
      → row.is_active ≡ true
      → b.is_hash_of row.refresh_token token ≡ hashed
      → (row.refresh_token_version == v) ≡ same
      → refresh_found b grace_ms (some row) u i v token s
        ≡ refresh_checked b grace_ms hashed same (leb (b.now s - row.last_used_at) grace_ms) u i v s
  unfolding refresh_found
  found_checked u i v token s row active eh es = rw (active, eh, es) refl

  body_found :
      (u i v token : ℕ) (s : S) (row : Session)
      → Holds u i s row
      → refresh_body b grace_ms u i v token s ≡ refresh_found b grace_ms (some row) u i v token s
  unfolding refresh_body look_up
  body_found u i v token s row (found, own, active) =
      bind_from (look_up b grace_ms i u) (λ session. refresh_found b grace_ms session u i v token) s
        (catching_ok (find_session b i u >>= λ found. pure (some found)) (λ e. pure none) s
          (bind_from (find_session b i u) (λ found. pure (some found)) s
            (find_session_found b grace_ms law u i s row found own)))

  -- A refresh with the token that the session holds, at its version, succeeds, and the session
  -- then holds the hash of a new token at the next version.
  pub refresh-Holds :
      (u i v token : ℕ) (s : S) (row : Session)
      → Holds u i s row
      → row.refresh_token ≡ b.hash token s
      → row.refresh_token_version ≡ v
      → (s' : S) × (refresh b grace_ms u i v token s ≡ (ok tt, s'))
        × Holds u i s' (rotated b grace_ms law u i v s row)
  unfolding refresh refresh_checked
  refresh-Holds u i v token s row (found, own, active) held version =
      let (s', done, found') = rotate_found b grace_ms law u i v s row found own in
      let known : b.is_hash_of row.refresh_token token ≡ true =
        ap (λ h. b.is_hash_of h token) held ∙ law.hash_iff token token s ∙ ==_refl token in
      let current : (row.refresh_token_version == v) ≡ true =
        ap (λ w. w == v) version ∙ ==_refl v in
      (
        s',
        catching_ok (refresh_body b grace_ms u i v token)
            (λ e. rethrown b grace_ms (is_unauthorized e) e) s
            (body_found u i v token s row (found, own, active)
              ∙ found_checked u i v token s row active known current
              ∙ done),
        (found', own, active),
      )

  -- A refresh with a token that is not the one whose hash is stored is refused, and deletes the
  -- session, whatever version it claims and however soon it comes.
  pub refresh_foreign :
      (u i v token other_token : ℕ) (s s0 : S) (row : Session)
      → Holds u i s row
      → row.refresh_token ≡ b.hash other_token s0
      → token ≢ other_token
      → (s' : S) × (refresh b grace_ms u i v token s ≡ (err token_invalid, s'))
        × (b.sessions.find_unique i s' ≡ none)
  unfolding refresh refresh_checked rethrown
  refresh_foreign u i v token other_token s s0 row (found, own, active) held ne =
      let (s', done, gone) = revoke_found b grace_ms law u i token_invalid s row found own in
      let unknown : b.is_hash_of row.refresh_token token ≡ false =
        ap (λ h. b.is_hash_of h token) held
        ∙ law.hash_iff other_token token s0
        ∙ other_code token other_token ne in
      (
        s',
        catching_err (refresh_body b grace_ms u i v token)
            (λ e. rethrown b grace_ms (is_unauthorized e) e) s
            (body_found u i v token s row (found, own, active)
              ∙ found_checked u i v token s row active unknown refl
              ∙ done),
        gone,
      )

  -- A refresh token is good for one refresh: after a refresh has succeeded, a second one with the
  -- same token is refused as stolen and ends the session, if the new token is another one.
  pub refresh_replayed :
      (u i v token : ℕ) (s : S) (row : Session)
      → Holds u i s row
      → row.refresh_token ≡ b.hash token s
      → row.refresh_token_version ≡ v
      → token ≢ next_token b grace_ms law u i v s
      → (s1 s2 : S) × (refresh b grace_ms u i v token s ≡ (ok tt, s1))
        × (refresh b grace_ms u i v token s1 ≡ (err token_invalid, s2))
        × (b.sessions.find_unique i s2 ≡ none)
  refresh_replayed u i v token s row holds held version ne =
      let (s1, done, holds1) = refresh-Holds u i v token s row holds held version in
      let (s2, refused, gone) =
        refresh_foreign u i v token (next_token b grace_ms law u i v s) s1 s
          (rotated b grace_ms law u i v s row) holds1 refl ne in
      (s1, s2, done, refused, gone)
