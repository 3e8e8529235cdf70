-- ===== src/Auth/TwoFactor.antt =====
-- The second factor of a login (src/modules/auth/two-factor.service.ts): its codes, the limit on
-- attempts, and the verification that opens a session. Codes are texts; the store of backup codes,
-- their hashes, otplib and the random bytes are parameters.
pub mod Limits
pub mod Answers
use payflow_x.Prelude.{
  ℕ, zero, suc, ◌+◌, ◌-◌, ◌*◌, Bool, true, false, not, ◌&&◌, ◌||◌, ◌==◌, ltb, leb, Option, none,
  some, is_some, List, [], ◌∷◌, ◌++◌, map, if◌then◌else◌,
}
use payflow_x.Prelude.Lists.{length, filter}
use payflow_x.Prelude.Result.{ok, err}
use payflow_x.Text.{Text}
use payflow_x.Http.{
  bad_request, unauthorized, too_many_requests, text, http, Error, Action, pure, throw, gets,
  modify, assert_found, throw_if, ◌>>=◌, ◌>>◌,
}
use payflow_x.Auth.{
  Backend, User, Answer, two_factor_pending, trusted_device, refresh_secret, trusted_payload,
}
use payflow_x.Auth.Sessions.{create_session_with_tokens}

abbrev pub backup_code_length : ℕ
backup_code_length = 8

abbrev pub backup_code_count : ℕ
backup_code_count = 10

abbrev pub rate_limit_max : ℕ
rate_limit_max = 5

abbrev pub rate_limit_window : ℕ
rate_limit_window = 15 * 60 * 1000

-- `rateLimitMap`, a missing key being the empty list.
abbrev pub Limits : Type 0
Limits = ℕ → List ℕ

abbrev pub put : ℕ → List ℕ → Limits → Limits
put user_id times limits = λ u. if u == user_id then times else limits u

-- The filter of `isRateLimited`.
abbrev pub recent : ℕ → List ℕ → List ℕ
recent now = filter (λ t. ltb (now - t) rate_limit_window)

unfoldable pub is_rate_limited : ℕ → ℕ → Limits → Bool × Limits
is_rate_limited now user_id limits =
    let times = recent now (limits user_id) in
    (leb rate_limit_max (length times), put user_id times limits)

unfoldable pub record_attempt : ℕ → ℕ → Limits → Limits
record_attempt now user_id limits = put user_id (limits user_id ++ now ∷ []) limits

-- `-` and `_` are 45 and 95; a small letter becomes a capital.
abbrev is_kept : ℕ → Bool
is_kept c = not ((c == 45) || (c == 95))

abbrev upper : ℕ → ℕ
upper c = if leb 97 c && leb c 122 then c - 32 else c

unfoldable pub first : ℕ → Text → Text
first zero cs = []
first (suc n) [] = []
first (suc n) (c ∷ cs) = c ∷ first n cs

-- `generateBackupCode` of the base64url text of the random bytes.
unfoldable pub backup_code_of : Text → Text
unfolding first
backup_code_of encoded = first backup_code_length (map upper (filter is_kept encoded))

-- The backup codes of the database and what their checks use; a code is its row and its hash.
pub record CodeStore (S : Type 0) : Type 0 where
  pub unused_codes : ℕ → S → List (ℕ × ℕ)
  pub mark_used : ℕ → Action S (Unit {0})
  pub delete_codes : ℕ → Action S (Unit {0})
  pub create_codes : ℕ → List ℕ → Action S (Unit {0})
  pub hash_code : Text → S → ℕ
  pub is_hash_of_code : ℕ → Text → Bool
  pub is_valid_otp : Text → ℕ → S → Bool
  pub generate_secret : S → ℕ
  pub random_text : ℕ → S → Text

abbrev pub not_enabled : Error
not_enabled = http bad_request (text "Two-factor is not enabled")

abbrev pub not_generated : Error
not_generated = http bad_request (text "Call /auth/2fa/generate first")

abbrev pub invalid_code : Error
invalid_code = http unauthorized (text "Invalid two-factor code")

abbrev pub invalid_backup_code : Error
invalid_backup_code = http unauthorized (text "Invalid backup code")

abbrev pub too_many_attempts : Error
too_many_attempts = http too_many_requests (text "Too many 2FA attempts. Try again in 15 minutes.")

-- The loop of `verifyTwoFactor`: the first unused code that the given one matches.
unfoldable pub first_match : (ℕ → Text → Bool) → Text → List (ℕ × ℕ) → Option ℕ
first_match is_hash_of code [] = none
first_match is_hash_of code ((id, hashed) ∷ rest) =
    let later = first_match is_hash_of code rest in
    if is_hash_of hashed code then some id else later

module _ {S : Type 0} (b : Backend S) (c : CodeStore S) where
  unfoldable pub find_user : ℕ → Action S User
  find_user id s = assert_found (b.users.find_unique id s) (text "User") s

  -- The codes of one call: the plain texts from the given index on.
  unfoldable pub generate_codes : ℕ → ℕ → S → List Text
  unfolding backup_code_of
  generate_codes zero i s = []
  generate_codes (suc n) i s = backup_code_of (c.random_text i s) ∷ generate_codes n (suc i) s

  -- The new codes, stored by their hashes.
  unfoldable pub store_codes : ℕ → Action S (List Text)
  unfolding generate_codes
  store_codes user_id = do
    codes ← gets (generate_codes backup_code_count 0)
    hashed ← gets λ s. map (λ code. c.hash_code code s) codes
    c.create_codes user_id hashed
    pure codes

  unfoldable pub generate_two_factor : ℕ → Action S ℕ
  unfolding find_user
  generate_two_factor user_id = do
    user ← find_user user_id
    secret ← gets c.generate_secret
    b.users.update user_id λ row. record row { two_factor_secret = some secret }
    pure secret

  unfoldable pub enable_with : Option ℕ → ℕ → Text → Action S (List Text)
  unfolding store_codes
  enable_with none user_id code = throw not_generated
  enable_with (some secret) user_id code = do
    valid ← gets (c.is_valid_otp code secret)
    throw_if (not valid) invalid_code
    b.users.update user_id λ row. record row { two_factor_enabled = true }
    store_codes user_id

  unfoldable pub enable_two_factor : ℕ → Text → Action S (List Text)
  unfolding find_user enable_with
  enable_two_factor user_id code = do
    user ← find_user user_id
    enable_with user.two_factor_secret user_id code

  -- `!user.twoFactorEnabled || !user.twoFactorSecret`
  unfoldable pub enabled_secret : User → Action S ℕ
  enabled_secret user = do
    throw_if (not user.two_factor_enabled) not_enabled
    elim user.two_factor_secret [ none ↦ throw not_enabled | some secret ↦ pure secret ]

  unfoldable pub disable_two_factor : ℕ → Text → Action S (Unit {0})
  unfolding find_user enabled_secret
  disable_two_factor user_id code = do
    user ← find_user user_id
    secret ← enabled_secret user
    valid ← gets (c.is_valid_otp code secret)
    throw_if (not valid) invalid_code
    b.users.update user_id
        λ row. record row { two_factor_enabled = false; two_factor_secret = none }
    c.delete_codes user_id

  unfoldable pub regenerate_backup_codes : ℕ → Action S (List Text)
  unfolding store_codes
  regenerate_backup_codes user_id = do c.delete_codes user_id; store_codes user_id

  use_match : Option ℕ → Action S (Unit {0})
  use_match none = throw invalid_backup_code
  use_match (some id) = c.mark_used id

  -- `true` is a backup code, by its length.
  check_code : Bool → ℕ → ℕ → Text → Action S (Unit {0})
  unfolding first_match use_match
  check_code true user_id secret code = do
    codes ← gets (c.unused_codes user_id)
    use_match (first_match c.is_hash_of_code code codes)
  check_code false user_id secret code = do
    valid ← gets (c.is_valid_otp code secret)
    throw_if (not valid) invalid_code

  -- After the code is accepted: the cookies and the session.
  unfoldable pub open_session : ℕ → User → Action S Answer
  unfolding create_session_with_tokens
  open_session user_id user = do
    modify (b.clear_cookie two_factor_pending)
    create_session_with_tokens b user_id
    trusted ← gets (b.sign refresh_secret (trusted_payload user_id))
    modify (b.set_cookie trusted_device trusted)
    pure (user_id, user)

  -- The attempt is counted before the code is checked, and only if the limit lets it through.
  unfoldable pub verify_limited : Bool → ℕ → ℕ → User → ℕ → Text → Action (Limits × S) Answer
  unfolding record_attempt check_code open_session
  verify_limited true now user_id user secret code (limits, s) =
      (err too_many_attempts, (limits, s))
  verify_limited false now user_id user secret code (limits, s) =
      let (r, s') =
        (check_code (length code == backup_code_length) user_id secret code
            >> open_session user_id user)
          s in
      (r, (record_attempt now user_id limits, s'))

  unfoldable pub verify_user : ℕ → User → ℕ → Text → Action (Limits × S) Answer
  unfolding is_rate_limited verify_limited
  verify_user user_id user secret code (limits, s) =
      let (limited, limits') = is_rate_limited (b.now s) user_id limits in
      verify_limited limited (b.now s) user_id user secret code (limits', s)

  -- The user and the secret of the second factor.
  unfoldable pub find_secret : ℕ → Action S (User × ℕ)
  unfolding find_user enabled_secret
  find_secret user_id = do
    user ← find_user user_id
    secret ← enabled_secret user
    pure {A = User × ℕ} (user, secret)

  unfoldable pub verify_two_factor : ℕ → Text → Action (Limits × S) Answer
  unfolding find_secret verify_user
  verify_two_factor user_id code (limits, s) = elim (find_secret user_id s).0 [
    | err e ↦ (err e, (limits, (find_secret user_id s).1))
    | ok found ↦ verify_user user_id found.0 found.1 code (limits, (find_secret user_id s).1)
  ]
