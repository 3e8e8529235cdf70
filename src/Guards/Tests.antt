-- ===== src/Guards/Tests.antt =====
-- A request with a token, and one with a forged header.
use payflow_x.Prelude.{ℕ, ◌≡◌, refl, true, some, none, ltb}
use payflow_x.Prelude.Result.{ok}
use payflow_x.Text.{codes}
use payflow_x.Http.{pure}
use payflow_x.Guards.{
  Request, Recaptcha, absent, can_activate_recaptcha, check_address, check_secret, check_token,
  verify, judged, is_bot, is_private_ip, is_private_clean, extract_ip, forwarded_str,
}
use payflow_x.Guards.Bots.{Passes, can_activate_recaptcha-Passes}

-- Scores are percents.
abbrev service : Recaptcha ℕ ℕ
service = record {
  secret = some (codes "key");
  threshold = 50;
  no_score = 0;
  less = ltb;
  siteverify = λ secret token ip. pure (record { success = true; score = some 90 });
}

abbrev person : Request
person = record {
  forwarded_for = absent;
  ip = some (codes "8.8.8.8");
  remote_address = none;
  method = codes "POST";
  recaptcha_token = some (codes "t");
}

person_passes : can_activate_recaptcha service person 3 ≡ (ok true, 3)
unfolding can_activate_recaptcha check_address check_secret check_token verify judged is_bot
    is_private_ip is_private_clean extract_ip forwarded_str
person_passes = refl

can_activate_recaptcha-Passes_example : Passes service person 3 3
can_activate_recaptcha-Passes_example =
    can_activate_recaptcha-Passes service person 3 3 person_passes
