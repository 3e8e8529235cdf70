-- ===== src/Guards.antt =====
-- The guards on requests: the address of a request (src/common/utils/ip.util.ts), the bot test of
-- src/modules/auth/guards/recaptcha.guard.ts and the token test of src/common/guards/csrf.guard.ts.
-- The remote service, the token test of csrf-csrf and the environment are parameters.
pub mod Bots
mod Tests
use payflow_x.Prelude.{
  ℕ, ◌+◌, ◌*◌, ◌-◌, Bool, true, false, not, ◌&&◌, ◌||◌, List, [], ◌∷◌, Option, none, some, ◌==◌,
  leb, if◌then◌else◌, or_else,
}
use payflow_x.Text.{Text, codes, is_digit, value, truthy}
use payflow_x.Amount.{span_digits}
use payflow_x.Http.{
  Kind, bad_request, forbidden, text, http, Error, Action, pure, throw, throw_if, catching, ◌>>=◌,
  ◌>>◌,
}

-- A header that may stand once or several times.
pub data Header : Type 0 where
  absent : Header
  once : Text → Header
  several : List Text → Header

-- What the guards read of a request.
pub record Request : Type 0 where
  pub forwarded_for : Header
  pub ip : Option Text
  pub remote_address : Option Text
  pub method : Text
  pub recaptcha_token : Option Text

-- `Array.isArray(forwarded) ? forwarded[0] : forwarded`
unfoldable pub forwarded_str : Header → Option Text
forwarded_str absent = none
forwarded_str (once t) = some t
forwarded_str (several []) = none
forwarded_str (several (t ∷ ts)) = some t

-- `extractIp`
unfoldable pub extract_ip : Request → Text
unfolding forwarded_str
extract_ip req =
    or_else (forwarded_str req.forwarded_for) (or_else req.ip (or_else req.remote_address []))

abbrev pub same_text : Text → Text → Bool
same_text [] [] = true
same_text [] (b ∷ u) = false
same_text (a ∷ t) [] = false
same_text (a ∷ t) (b ∷ u) = (a == b) && same_text t u

abbrev pub starts_with : Text → Text → Bool
starts_with [] t = true
starts_with (a ∷ p) [] = false
starts_with (a ∷ p) (b ∷ t) = (a == b) && starts_with p t

abbrev pub without_prefix : Text → Text → Text
without_prefix [] t = t
without_prefix (a ∷ p) [] = []
without_prefix (a ∷ p) (b ∷ t) = without_prefix p t

-- `t.replace(p, "")` for a text `p` that is not empty: its first place only.
abbrev pub replace_first : Text → Text → Text
replace_first p [] = []
replace_first p (c ∷ t) =
    let rest = replace_first p t in
    if starts_with p (c ∷ t) then without_prefix p (c ∷ t) else c ∷ rest

-- `t.split(".")[1]`, where the text has a dot.
abbrev pub up_to_dot : Text → Text
up_to_dot [] = []
up_to_dot (c ∷ t) = let rest = up_to_dot t in if c == b'.' then [] else c ∷ rest

abbrev pub second_part : Text → Text
second_part [] = []
second_part (c ∷ t) = let rest = second_part t in if c == b'.' then up_to_dot t else rest

-- White space of `parseInt`, among the codes below 256.
abbrev pub is_space : ℕ → Bool
is_space c = (leb 9 c && leb c 13) || (c == 32) || (c == 160)

-- `parseInt(t, 10)`, where it is a number that is not negative: none for NaN and below zero, which
-- both fail the two comparisons.
abbrev pub leading_number : Text → Option ℕ
leading_number [] = none
leading_number (c ∷ d) = some (value (c ∷ d))

abbrev pub parse_int : Text → Option ℕ
unfolding span_digits
parse_int [] = none
parse_int (c ∷ t) =
    let rest = parse_int t in
    if is_space c then rest else leading_number (span_digits (if c == b'+' then t else c ∷ t)).0

abbrev pub is_private_second : Option ℕ → Bool
is_private_second none = false
is_private_second (some second) = leb 16 second && leb second 31

-- `isPrivateIp`, of the text without its prefix.
unfoldable pub is_private_clean : Text → Bool
is_private_clean clean =
    same_text clean (codes "127.0.0.1")
    || same_text clean (codes "::1")
    || same_text clean (codes "localhost")
    || starts_with (codes "10.") clean
    || starts_with (codes "192.168.") clean
    || (starts_with (codes "172.") clean && is_private_second (parse_int (second_part clean)))

unfoldable pub is_private_ip : Text → Bool
unfolding is_private_clean
is_private_ip ip = is_private_clean (replace_first (codes "::ffff:") ip)

abbrev pub token_required : Error
token_required = http bad_request (text "ReCAPTCHA token is required")

abbrev pub bot_protection : Error
bot_protection = http forbidden (text "Bot protection triggered. Request rejected.")

-- What the service answers of a token.
pub record Verdict (F : Type 0) : Type 0 where
  pub success : Bool
  pub score : Option F

-- `error instanceof BadRequestException || error instanceof ForbiddenException`
abbrev pub is_refusal : Error → Bool
is_refusal (http bad_request name) = true
is_refusal (http forbidden name) = true
is_refusal _ = false

-- The environment of the guard, and the call of the service, which may throw.
pub record Recaptcha (S F : Type 0) : Type 0 where
  pub secret : Option Text
  pub threshold : F
  pub no_score : F
  pub less : F → F → Bool
  pub siteverify : Text → Text → Text → Action S (Verdict F)

module _ {S F : Type 0} (r : Recaptcha S F) where
  -- `!data.success || (data.score ?? 0) < this.threshold`
  unfoldable pub is_bot : Verdict F → Bool
  is_bot verdict = not verdict.success || r.less (or_else verdict.score r.no_score) r.threshold

  -- The `catch`: the guard's own refusals are thrown again, any other error is logged.
  unfoldable pub rethrown : Bool → Error → Action S Bool
  rethrown true e = throw e
  rethrown false e = pure false

  unfoldable pub on_error : Error → Action S Bool
  unfolding rethrown
  on_error e = rethrown (is_refusal e) e

  unfoldable pub judged : Bool → Action S Bool
  judged bot = do throw_if bot bot_protection; pure true

  unfoldable pub verify : Text → Text → Text → Action S Bool
  unfolding is_bot on_error judged
  verify secret token ip =
      catching (r.siteverify secret token ip >>= λ verdict. judged (is_bot verdict)) on_error

  unfoldable pub check_token : Text → Option Text → Text → Action S Bool
  unfolding verify
  check_token secret none ip = throw token_required
  check_token secret (some token) ip = verify secret token ip

  unfoldable pub check_secret : Option Text → Request → Text → Action S Bool
  unfolding check_token
  check_secret none req ip = pure true
  check_secret (some secret) req ip = check_token secret (truthy req.recaptcha_token) ip

  -- A private address, or not.
  unfoldable pub check_address : Bool → Request → Action S Bool
  unfolding check_secret
  check_address true req = pure true
  check_address false req = check_secret (truthy r.secret) req (extract_ip req)

  -- `RecaptchaGuard.canActivate`
  unfoldable pub can_activate_recaptcha : Request → Action S Bool
  unfolding check_address
  can_activate_recaptcha req = check_address (is_private_ip (extract_ip req)) req

abbrev pub is_safe_method : Text → Bool
is_safe_method method =
    same_text method (codes "GET")
    || same_text method (codes "HEAD")
    || same_text method (codes "OPTIONS")

-- `CsrfGuard.canActivate`; the Booleans are `CSRF_ENABLED` and the mark `SkipCsrf`.
unfoldable pub can_activate_csrf :
    {S : Type 0} → Bool → Bool → (Request → Bool) → Request → Action S Bool
can_activate_csrf enabled skip validate_request req = do
  throw_if (enabled && not skip && not (is_safe_method req.method) && not (validate_request req))
      (http forbidden (text "Invalid CSRF token"))
  pure true
