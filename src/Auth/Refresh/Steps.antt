-- ===== src/Auth/Refresh/Steps.antt =====
-- The steps of a refresh on a session that is there: the database and cookie writes, the rotation,
-- and the revocation.
use payflow_x.Prelude.{
  ℕ, suc, ◌≡◌, ◌≢◌, refl, ◌∙◌, ap, false, ◌==◌, ==_refl, none, some, arith, if◌then◌else◌,
}
use payflow_x.Prelude.Result.{ok, err}
use payflow_x.Http.{Error, pure, throw, ◌>>◌, catching, catching_ok, bind_from}
use payflow_x.Db.{IsTable}
use payflow_x.Auth.{
  Backend, Session, Cookie, access_token, refresh_token, refresh_secret, session_payload,
}
use payflow_x.Auth.Sessions.{
  owned_by, find_session, update_session, write_session, delete_session, generate_tokens,
  set_token_cookies, clear_token_cookies,
}
use payflow_x.Auth.Refresh.{rotate, revoke}

-- What the code relies on: the session table's writes, that cookies are no rows, and that a hash
-- is that of one token.
pub record IsBackend {S : Type 0} (b : Backend S) : Type 0 where
  pub sessions_table : IsTable b.sessions
  pub find-set_cookie :
      (k : ℕ) (c : Cookie) (x : ℕ) (s : S)
      → b.sessions.find_unique k (b.set_cookie c x s) ≡ b.sessions.find_unique k s
  pub find-clear_cookie :
      (k : ℕ) (c : Cookie) (s : S)
      → b.sessions.find_unique k (b.clear_cookie c s) ≡ b.sessions.find_unique k s
  pub hash_iff : (x y : ℕ) (s : S) → b.is_hash_of (b.hash x s) y ≡ (x == y)

if_same : {A : Type 0} (x y : A) (i : ℕ) → (if i == i then x else y) ≡ x
if_same x y i = ap (λ t. if t then x else y) (==_refl i)

pub other_code : (x y : ℕ) → x ≢ y → (y == x) ≡ false
other_code x y ne = ground (arith, ne)

module _ {S : Type 0} (b : Backend S) (grace_ms : ℕ) (law : IsBackend b) where
  -- The refresh token of the next version.
  abbrev pub next_token : ℕ → ℕ → ℕ → S → ℕ
  next_token u i v s = b.sign refresh_secret (session_payload u i (suc v)) s

  -- The session's row after a rotation.
  abbrev pub rotated : ℕ → ℕ → ℕ → S → Session → Session
  rotated u i v s row = record row {
    refresh_token = b.hash (next_token u i v s) s;
    refresh_token_version = suc v;
    last_used_at = b.now s;
  }

  owned_found :
      (u i : ℕ) (s : S) (row : Session)
      → b.sessions.find_unique i s ≡ some row
      → row.user_id ≡ u
      → owned_by u (b.sessions.find_unique i s) ≡ some row
  unfolding owned_by
  owned_found u i s row found own = rw (found, own, ==_refl u) refl

  pub find_session_found :
      (u i : ℕ) (s : S) (row : Session)
      → b.sessions.find_unique i s ≡ some row
      → row.user_id ≡ u
      → find_session b i u s ≡ (ok row, s)
  unfolding find_session
  find_session_found u i s row found own = rw (owned_found u i s row found own) refl

  update_session_found :
      (u i : ℕ) (f : Session → Session) (s : S) (row : Session)
      → b.sessions.find_unique i s ≡ some row
      → row.user_id ≡ u
      → (s' : S) × (update_session b i u f s ≡ (ok (record (f row) { last_used_at = b.now s }), s'))
        × (b.sessions.find_unique i s' ≡ some (record (f row) { last_used_at = b.now s }))
  unfolding update_session write_session
  update_session_found u i f s row found own =
      let (s', done, writes) =
        law.sessions_table.update_found i (λ r. record (f r) { last_used_at = b.now s }) row s
          found in
      (
        s',
        bind_from (find_session b i u) (λ x. write_session b i f) s
              (find_session_found u i s row found own)
            ∙ done,
        writes i ∙ if_same _ _ i,
      )

  delete_session_found :
      (u i : ℕ) (s : S) (row : Session)
      → b.sessions.find_unique i s ≡ some row
      → row.user_id ≡ u
      → (s' : S) × (delete_session b i u s ≡ (ok row, s')) × (b.sessions.find_unique i s' ≡ none)
  unfolding delete_session
  delete_session_found u i s row found own =
      let (s', done, writes) = law.sessions_table.delete_found i row s found in
      (
        s',
        bind_from (find_session b i u) (λ x. b.sessions.delete i) s
              (find_session_found u i s row found own)
            ∙ done,
        writes i ∙ if_same _ _ i,
      )

  set_token_cookies_lem :
      (x y k : ℕ) (s : S)
      → (s' : S) × (set_token_cookies b x y s ≡ (ok tt, s'))
        × (b.sessions.find_unique k s' ≡ b.sessions.find_unique k s)
  unfolding set_token_cookies
  set_token_cookies_lem x y k s =
      (_, refl, law.find-set_cookie k refresh_token y _ ∙ law.find-set_cookie k access_token x s)

  clear_token_cookies_lem :
      (k : ℕ) (s : S)
      → (s' : S) × (clear_token_cookies b s ≡ (ok tt, s'))
        × (b.sessions.find_unique k s' ≡ b.sessions.find_unique k s)
  unfolding clear_token_cookies
  clear_token_cookies_lem k s =
      (_, refl, law.find-clear_cookie k refresh_token _ ∙ law.find-clear_cookie k access_token s)

  pub rotate_found :
      (u i v : ℕ) (s : S) (row : Session)
      → b.sessions.find_unique i s ≡ some row
      → row.user_id ≡ u
      → (s' : S) × (rotate b grace_ms u i (suc v) s ≡ (ok tt, s'))
        × (b.sessions.find_unique i s' ≡ some (rotated u i v s row))
  unfolding rotate generate_tokens
  rotate_found u i v s row found own =
      let f : Session → Session = λ r. record r {
        refresh_token = b.hash (next_token u i v s) s;
        refresh_token_version = suc v;
      } in
      let (s1, done, found1) = update_session_found u i f s row found own in
      let tokens = generate_tokens b u i (suc v) s in
      let (s2, set, found2) = set_token_cookies_lem tokens.0 tokens.1 i s1 in
      (
        s2,
        bind_from (update_session b i u f) (λ x. set_token_cookies b tokens.0 tokens.1) s done
            ∙ set,
        found2 ∙ found1,
      )

  pub revoke_found :
      (u i : ℕ) (e : Error) (s : S) (row : Session)
      → b.sessions.find_unique i s ≡ some row
      → row.user_id ≡ u
      → (s' : S) × (revoke b grace_ms i u e s ≡ (err e, s')) × (b.sessions.find_unique i s' ≡ none)
  unfolding revoke
  revoke_found u i e s row found own =
      let (s1, done, gone) = delete_session_found u i s row found own in
      let (s2, cleared, found2) = clear_token_cookies_lem i s1 in
      let deleted : (delete_session b i u >> pure tt) s ≡ (ok tt, s1) =
        bind_from (delete_session b i u) (λ x. pure tt) s done in
      let caught : catching (delete_session b i u >> pure tt) (λ x. pure tt) s ≡ (ok tt, s1) =
        catching_ok (delete_session b i u >> pure tt) (λ x. pure tt) s deleted in
      (
        s2,
        bind_from (catching (delete_session b i u >> pure tt) (λ x. pure tt))
              (λ x. clear_token_cookies b >> throw e) s caught
            ∙ bind_from (clear_token_cookies b) (λ x. throw e) s1 cleared,
        found2 ∙ gone,
      )
