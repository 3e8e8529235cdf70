-- ===== src/Guards/Bots.antt =====
-- Which requests pass the bot test.
use payflow_x.Prelude.{
  arith, ◌≡◌, refl, sym, ap, ◌∙◌, inl, inr, Bool, true, false, [], ◌++◌, Option, none, some,
  or_else, Bool-cases, Option-cases,
}
use payflow_x.Prelude.Result.{Result, ok, err, Result-cases}
use payflow_x.Text.{Text, codes, truthy}
use payflow_x.Http.{Error, Action, bind_from, bind_err, catching_ok, catching_err, pair_ext, ◌>>=◌}
use payflow_x.Guards.{
  once, Request, Recaptcha, Verdict, extract_ip, forwarded_str, is_private_ip, is_private_clean,
  is_bot, on_error, is_refusal, rethrown, judged, check_address, bot_protection, verify,
  check_token, check_secret, can_activate_recaptcha,
}

forged_is_private : (rest : Text) → is_private_ip (codes "10." ++ rest) ≡ true
unfolding is_private_ip is_private_clean
forged_is_private rest = refl

module _ {S F : Type 0} (r : Recaptcha S F) where
  -- Whatever the service would say of it, and also without a token, a request whose own header
  -- X-Forwarded-For begins with "10." passes the bot test, and the service is not asked.
  pub forged_passes :
      (req : Request) (rest : Text) (s : S)
      → req.forwarded_for ≡ once (codes "10." ++ rest)
      → can_activate_recaptcha r req s ≡ (ok true, s)
  unfolding can_activate_recaptcha check_address extract_ip forwarded_str
  forged_passes req rest s h =
      ap
        (λ x.
          check_address r
            (is_private_ip
              (or_else (forwarded_str x) (or_else req.ip (or_else req.remote_address []))))
            req s)
        h
      ∙ ap {B = Result Error Bool × S} (λ b. check_address r b req s) (forged_is_private rest)

  -- The three ways to pass.
  pub data Passes (req : Request) (s s' : S) : Type 0 where
    private_address : is_private_ip (extract_ip req) ≡ true → Passes req s s'
    no_secret : truthy r.secret ≡ none → Passes req s s'
    verified :
        (secret token : Text) (verdict : Verdict F)
        → truthy r.secret ≡ some secret
        → truthy req.recaptcha_token ≡ some token
        → r.siteverify secret token (extract_ip req) s ≡ (ok verdict, s')
        → verdict.success ≡ true
        → r.less (or_else verdict.score r.no_score) r.threshold ≡ false
        → Passes req s s'

  caught : (b : Bool) (e : Error) (s : S) {s' : S} → rethrown r b e s ≡ (ok true, s') → ⊥
  unfolding rethrown
  caught true e s h = cc
  caught false e s h = cc

  returned :
      {A : Type 0} {a : A} {s s' : S} → ◌≡◌ {A = Result Error A × S} (ok a, s) (ok a, s') → s ≡ s'
  returned h = ap (λ p. p.1) h

  verify_passed :
      (secret token ip : Text) (s : S) {s' : S}
      → verify r secret token ip s ≡ (ok true, s')
      → (verdict : Verdict F) × (r.siteverify secret token ip s ≡ (ok verdict, s'))
        × (is_bot r verdict ≡ false)
  unfolding verify judged on_error rethrown
  verify_passed secret token ip s {s'} h =
      let m = r.siteverify secret token ip in
      let k : Verdict F → Action S Bool = λ verdict. judged r (is_bot r verdict) in
      elim (Result-cases (m s).0) [
        | inl (verdict, e) ↦
            let asked = pair_ext (m s) e refl in
            elim (Bool-cases (is_bot r verdict)) [
              | inl bot ↦
                  let thrown : (m >>= k) s ≡ (err bot_protection, (m s).1) =
                    bind_from m k s asked ∙ ap (λ b. judged r b (m s).1) bot in
                  absurd (
                    caught true bot_protection (m s).1
                      (sym (catching_err (m >>= k) (on_error r) s thrown) ∙ h))
              | inr human ↦
                  let answered : (m >>= k) s ≡ (ok true, (m s).1) =
                    bind_from m k s asked ∙ ap (λ b. judged r b (m s).1) human in
                  let same = returned (sym (catching_ok (m >>= k) (on_error r) s answered) ∙ h) in
                  (
                    verdict,
                    asked ∙ ap {B = Result Error (Verdict F) × S} (λ t. (ok verdict, t)) same,
                    human,
                  )
            ]
        | inr (e, failed) ↦
            let thrown = bind_err m k s (pair_ext (m s) failed refl) in
            absurd (
              caught (is_refusal e) e (m s).1
                (sym (catching_err (m >>= k) (on_error r) s thrown) ∙ h))
      ]

  human_of :
      (verdict : Verdict F)
      → is_bot r verdict ≡ false
      → (verdict.success ≡ true) × (r.less (or_else verdict.score r.no_score) r.threshold ≡ false)
  unfolding is_bot
  human_of verdict h =
      let success : verdict.success ≡ true = ground (arith, h) in
      let score : r.less (or_else verdict.score r.no_score) r.threshold ≡ false =
        ground (arith, h) in
      (success, score)

  token_passed :
      (secret : Text) (o : Option Text) (ip : Text) (s : S) {s' : S}
      → check_token r secret o ip s ≡ (ok true, s')
      → (token : Text) × (o ≡ some token) × (verify r secret token ip s ≡ (ok true, s'))
  unfolding check_token
  token_passed secret none ip s h = absurd (cc)
  token_passed secret (some token) ip s h = (token, refl, h)

  -- A request passes the bot test only from a private address, or where no secret is configured, or
  -- with a token of which the service, asked about the address of the request, says that it
  -- succeeds with a score not below the threshold.
  pub can_activate_recaptcha-Passes :
      (req : Request) (s s' : S) → can_activate_recaptcha r req s ≡ (ok true, s') → Passes req s s'
  unfolding can_activate_recaptcha check_address check_secret
  can_activate_recaptcha-Passes req s s' h = elim (Bool-cases (is_private_ip (extract_ip req))) [
    | inl private ↦ private_address private
    | inr public ↦ elim (Option-cases (truthy r.secret)) [
      | inl e ↦ no_secret e
      | inr (secret, e) ↦
          let checked : check_token r secret (truthy req.recaptcha_token) (extract_ip req) s
              ≡ (ok true, s') =
            sym (
              ap {B = Result Error Bool × S} (λ b. check_address r b req s) public
              ∙ ap {B = Result Error Bool × S} (λ o. check_secret r o req (extract_ip req) s) e)
            ∙ h in
          let (token, given, passed) =
            token_passed secret (truthy req.recaptcha_token) (extract_ip req) s checked in
          let (verdict, asked, human) = verify_passed secret token (extract_ip req) s passed in
          let (success, score) = human_of verdict human in
          verified secret token verdict e given asked success score
    ]
  ]
