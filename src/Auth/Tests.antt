-- ===== src/Auth/Tests.antt =====
-- The authentication services over a list of sessions.
use payflow_x.Prelude.{
  Bool, ◌&&◌, ◌≢◌, ◌⊎◌, inl, inr, if◌then◌else◌, ℕ, zero, suc, ◌+◌, ◌≡◌, ◌≤◌, refl, sym, ap, true,
  false, ◌==◌, Option, none, some, List, [], ◌∷◌, arith,
}
use payflow_x.Prelude.Result.{Result, ok, err}
use payflow_x.Http.{Error, Action, other, throw}
use payflow_x.Db.Listed.{list_table, list_table-IsTable}
use payflow_x.Auth.{
  Backend, Session, User, Payload, session_payload, pending_payload, trusted_payload,
}
use payflow_x.Auth.Login.{login, find_by_email, find_by_id}
use payflow_x.Auth.Login.SecondFactor.{OpensNothing, login-OpensNothing}
use payflow_x.Auth.Recovery.{
  Cache, TokenType, recovery_password, confirm_email, confirm_backup_email, confirm_phone,
  confirm_backup_phone, two_factor, validation_error, validate_token, reset_password, reset_for,
  set_and_revoke, validate_body, is_token, revoke_token,
}
use payflow_x.Auth.Recovery.Absence.{IsCache}
use payflow_x.Auth.Recovery.Once.{Later, reset_password_once}
use payflow_x.Auth.Refresh.{refresh, token_invalid}
use payflow_x.Auth.Refresh.Steps.{IsBackend, rotated}
use payflow_x.Auth.Refresh.Rotation.{Holds, refresh-Holds, refresh_foreign, refresh_replayed}
use payflow_x.Prelude.Lists.{All, replicate}
use payflow_x.Auth.TwoFactor.{
  CodeStore, rate_limit_max, Limits, find_secret, find_user, enabled_secret,
}
use payflow_x.Auth.TwoFactor.Answers.{Call, IsTimely, answered, answered_bounded}

abbrev number : Payload → ℕ
number (session_payload u i v) = 100 + v
number (pending_payload u) = 1
number (trusted_payload u) = 2

-- Nothing is kept but the sessions.
abbrev backend : Backend (List (ℕ × Session))
backend = record {
  users = record {
    find_unique = λ k s. none;
    create = λ k r. throw (other "none");
    update = λ k f. throw (other "none");
    delete = λ k. throw (other "none");
  };
  user_by_email = λ e s. none;
  sessions = list_table;
  fresh_id = λ s. 9;
  now = λ s. 1000;
  set_cookie = λ c x s. s;
  clear_cookie = λ c s. s;
  sign = λ k p s. number p;
  is_signed = λ k x s. true;
  hash = λ x s. x + 1;
  is_hash_of = λ h x. h == x + 1;
}

backend-IsBackend : IsBackend backend
backend-IsBackend = record {
  sessions_table = list_table-IsTable;
  find-set_cookie = λ k c x s. refl;
  find-clear_cookie = λ k c s. refl;
  hash_iff = λ x y s. ground arith;
}

abbrev session : Session
session = record {
  user_id = 1;
  refresh_token = 101;
  refresh_token_version = 0;
  is_active = true;
  last_used_at = 900;
  expires_at = 5000;
}

abbrev sessions : List (ℕ × Session)
sessions = (4, session) ∷ []

refresh-Holds_example :
    (s' : List (ℕ × Session)) × (refresh backend 10 1 4 0 100 sessions ≡ (ok tt, s'))
    × Holds backend 10 backend-IsBackend 1 4 s'
        (rotated backend 10 backend-IsBackend 1 4 0 sessions session)
refresh-Holds_example =
    refresh-Holds backend 10 backend-IsBackend 1 4 0 100 sessions session (refl, refl, refl) refl
      refl

refresh_foreign_example :
    (s' : List (ℕ × Session)) × (refresh backend 10 1 4 0 55 sessions ≡ (err token_invalid, s'))
    × (backend.sessions.find_unique 4 s' ≡ none)
refresh_foreign_example =
    refresh_foreign backend 10 backend-IsBackend 1 4 0 55 100 sessions sessions session
      (refl, refl, refl) refl (ground arith)

refresh_replayed_example :
    (s1 s2 : List (ℕ × Session)) × (refresh backend 10 1 4 0 100 sessions ≡ (ok tt, s1))
    × (refresh backend 10 1 4 0 100 s1 ≡ (err token_invalid, s2))
    × (backend.sessions.find_unique 4 s2 ≡ none)
refresh_replayed_example =
    refresh_replayed backend 10 backend-IsBackend 1 4 0 100 sessions session (refl, refl, refl) refl
      refl (ground arith)

abbrev member : User
member = record {
  email = 8;
  password = some 31;
  two_factor_enabled = true;
  two_factor_secret = some 12;
}

-- The same with one user, who has a second factor.
abbrev staffed : Backend (List (ℕ × Session))
staffed = record backend {
  users = record {
    find_unique = λ k s. some member;
    create = λ k r. throw (other "none");
    update = λ k f. throw (other "none");
    delete = λ k. throw (other "none");
  };
  user_by_email = λ e s. some 3;
}

staffed-IsBackend : IsBackend staffed
staffed-IsBackend = record {
  sessions_table = list_table-IsTable;
  find-set_cookie = λ k c x s. refl;
  find-clear_cookie = λ k c s. refl;
  hash_iff = λ x y s. ground arith;
}

-- No code is right.
abbrev codes_store : CodeStore (List (ℕ × Session))
codes_store = record {
  unused_codes = λ u s. [];
  mark_used = λ i. throw (other "none");
  delete_codes = λ u. throw (other "none");
  create_codes = λ u hashes. throw (other "none");
  hash_code = λ code s. 0;
  is_hash_of_code = λ hash code. false;
  is_valid_otp = λ code secret s. false;
  generate_secret = λ s. 1;
  random_text = λ i s. [];
}

-- Nobody has tried yet but long ago.
abbrev limits : Limits
limits u = 7 ∷ []

abbrev call : Call (List (ℕ × Session))
call = record { found = sessions; code = [] }

call-IsTimely : IsTimely staffed codes_store 500 2 call
unfolding find_secret find_user enabled_secret
call-IsTimely = (member, 12, refl, (omega arith, omega arith))

timely : (n : ℕ) → All (IsTimely staffed codes_store 500 2) (replicate n call)
timely zero = tt
timely (suc n) = (call-IsTimely, timely n)

answered_bounded_example : answered staffed codes_store (replicate 7 call) 2 limits ≤ rate_limit_max
answered_bounded_example =
    answered_bounded staffed codes_store 500 2 (replicate 7 call) limits (timely 7) refl

login-OpensNothing_example :
    OpensNothing staffed staffed-IsBackend sessions (login staffed 8 30 none sessions)
unfolding find_by_email find_by_id
login-OpensNothing_example =
    login-OpensNothing staffed staffed-IsBackend 8 30 (3, member) sessions refl refl

-- Only the recovery code of the user 3 is kept.
abbrev is_recovery : TokenType → Bool
is_recovery recovery_password = true
is_recovery _ = false

abbrev is_kept : TokenType → ℕ → Bool
is_kept type u = is_recovery type && (u == 3)

abbrev held : TokenType → ℕ → Option ℕ → Option ℕ
held type u s = if is_kept type u then s else none

abbrev cache : Cache (Option ℕ)
cache = record {
  set = λ type u token ttl s. (ok tt, if is_kept type u then some token else s);
  get = λ type u s. (ok (held type u s), s);
  del = λ type u s. (ok tt, if is_kept type u then none else s);
  random = λ s. 0;
}

abbrev find_member : ℕ → Action (Option ℕ) ℕ
find_member email s = (ok 3, s)

abbrev set_password : ℕ → ℕ → Action (Option ℕ) (Unit {0})
set_password u password s = (ok tt, s)

found_held :
    (type : TokenType) (u x : ℕ) (s s' : Option ℕ)
    → cache.get type u s ≡ (ok (some x), s')
    → held type u s ≡ some x
found_held type u x s s' h = of_ok (held type u s) (some x) (ap (λ p. p.0) h)
  where
    of_ok : (o o' : Option ℕ) → ◌≡◌ {A = Result Error (Option ℕ)} (ok o) (ok o') → o ≡ o'
    of_ok o o' e = cc

deleted_gone :
    (b : Bool) (s s' : Option ℕ)
    → ◌≡◌ {A = Result Error (Unit {0}) × Option ℕ} (ok tt, if b then none else s) (ok tt, s')
    → (if b then s' else none) ≡ none
deleted_gone true s s' h = sym (ap (λ p. p.1) h)
deleted_gone false s s' h = refl

delete_keeps :
    (b k : Bool) (s : Option ℕ)
    → (if k then s else none) ≡ none
    → (if k then (if b then none else s) else none) ≡ none
delete_keeps b k s h = ground (arith, h)

-- The kept key is that of the user 3.
set_keeps :
    (type : TokenType) (v token u : ℕ) (s : Option ℕ)
    → (type ≢ recovery_password) ⊎ (v ≢ u)
    → held recovery_password u s ≡ none
    → held recovery_password u (if is_kept type v then some token else s) ≡ none
set_keeps recovery_password v token u s (inl ne) h = absurd (ne refl)
set_keeps recovery_password v token u s (inr ne) h = ground (arith, ne, h)
set_keeps confirm_email v token u s ne h = h
set_keeps confirm_backup_email v token u s ne h = h
set_keeps confirm_phone v token u s ne h = h
set_keeps confirm_backup_phone v token u s ne h = h
set_keeps two_factor v token u s ne h = h

cache-IsCache : IsCache cache held find_member set_password set_password
cache-IsCache = record {
  get_held = found_held;
  del_gone = λ type u s s' h. deleted_gone (is_kept type u) s s' h;
  get_leaves = λ type v u s h. h;
  del_leaves = λ type v u s h. delete_keeps (is_kept type v) (is_kept recovery_password u) s h;
  set_leaves = λ type v token ttl u s ne h. set_keeps type v token u s ne h;
  find_leaves = λ email u s h. h;
  password_leaves = λ v password u s h. h;
  send_leaves = λ email code u s h. h;
}

-- After the reset the code is asked for once more, and it is gone.
reset_password_once_example :
    (e : Error) × ((validate_token cache recovery_password 3 555 none).0 ≡ err e)
    × (reset_for cache find_member set_password set_password 555 43 3 none
        ≡ (err e, (validate_token cache recovery_password 3 555 none).1))
unfolding reset_password reset_for set_and_revoke validate_token validate_body is_token revoke_token
    validation_error
reset_password_once_example =
    reset_password_once cache held find_member set_password set_password cache-IsCache 8 555 42 3
      555 43 (some 555) none none refl refl (Later.validates recovery_password 3 555 Later.at_once)
