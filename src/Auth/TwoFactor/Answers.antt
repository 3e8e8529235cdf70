-- ===== src/Auth/TwoFactor/Answers.antt =====
-- The limit on attempts, as the callers of `verifyTwoFactor` see it.
use payflow_x.Prelude.{
  ℕ, suc, ◌≤◌, ◌≡◌, ap, ◌∙◌, Bool, true, false, List, [], ◌∷◌, map, arith, Bool-cases, inl, inr,
  if◌then◌else◌,
}
use payflow_x.Prelude.Lists.{All}
use payflow_x.Prelude.Result.{Result, ok, err}
use payflow_x.Text.{Text}
use payflow_x.Http.{Error, http, too_many_requests}
use payflow_x.Auth.{Backend, User, Answer}
use payflow_x.Auth.TwoFactor.{
  CodeStore, Limits, find_secret, verify_user, verify_two_factor, rate_limit_max,
}
use payflow_x.Auth.TwoFactor.Limits.{
  IsWithin, since, admit, checked, checked_bounded, verify_user-admit,
}

-- `error instanceof HttpException && error.getStatus() === 429`
abbrev pub is_too_many : {A : Type 0} → Result Error A → Bool
is_too_many (err (http too_many_requests name)) = true
is_too_many _ = false

-- A call: the state that it finds, and the code.
pub record Call (S : Type 0) : Type 0 where
  pub found : S
  pub code : Text

module _ {S : Type 0} (b : Backend S) (c : CodeStore S) where
  -- How many of the calls for a user, one after another, are answered otherwise than that there were
  -- too many attempts. The database may change between them as it likes.
  unfoldable pub answered : List (Call S) → ℕ → Limits → ℕ
  answered [] user_id limits = 0
  answered (call ∷ calls) user_id limits =
      let r = verify_two_factor b c user_id call.code (limits, call.found) in
      let later = answered calls user_id r.1.0 in if is_too_many r.0 then later else suc later

  -- The call finds the user with a second factor, at a time of the window.
  abbrev pub IsTimely : ℕ → ℕ → Call S → Type 0
  IsTimely from u call =
      (user : User) × (secret : ℕ) × (find_secret b c u call.found
        ≡ (ok (user, secret), call.found))
      × IsWithin from (b.now call.found)

  abbrev times_of : List (Call S) → List ℕ
  times_of calls = map (λ call. b.now call.found) calls

  times-IsWithin :
      (from u : ℕ) (calls : List (Call S))
      → All (IsTimely from u) calls
      → All (IsWithin from) (times_of calls)
  times-IsWithin from u [] h = tt
  times-IsWithin from u (call ∷ calls) ((user, secret, found, within), h) =
      (within, times-IsWithin from u calls h)

  verified :
      (u : ℕ) (call : Call S) (limits : Limits) (user : User) (secret : ℕ)
      → find_secret b c u call.found ≡ (ok (user, secret), call.found)
      → verify_two_factor b c u call.code (limits, call.found)
        ≡ verify_user b c u user secret call.code (limits, call.found)
  unfolding verify_two_factor
  verified u call limits user secret found =
      ap {A = Result Error (User × ℕ) × S}
        (λ p. elim p.0 as (λ x. Result Error Answer × (Limits × S)) [
          | err e ↦ (err e, (limits, p.1))
          | ok x ↦ verify_user b c u x.0 x.1 call.code (limits, p.1)
        ])
        found

  -- Only codes that are let through to their check are answered otherwise.
  answered-checked :
      (from u : ℕ) (calls : List (Call S)) (limits : Limits)
      → All (IsTimely from u) calls
      → answered calls u limits ≤ checked (times_of calls) u limits
  unfolding answered checked
  answered-checked from u [] limits h = omega arith
  answered-checked from u (call ∷ calls) limits ((user, secret, found, within), h) =
      let r = verify_two_factor b c u call.code (limits, call.found) in
      let same = verified u call limits user secret found in
      let (kept, refuses) = verify_user-admit b c u user secret call.code limits call.found in
      let after : r.1.0 ≡ (admit (b.now call.found) u limits).1 = ap (λ p. p.1.0) same ∙ kept in
      let rest = answered-checked from u calls (admit (b.now call.found) u limits).1 h in
      let rest' : answered calls u r.1.0
          ≤ checked (times_of calls) u (admit (b.now call.found) u limits).1 =
        omega (arith, rest, ap (λ l. answered calls u l) after) in
      elim (Bool-cases (admit (b.now call.found) u limits).0) [
        | inl through ↦ ground (arith, through, rest')
        | inr refused ↦
            let answer : is_too_many r.0 ≡ true =
              ap (λ p. is_too_many p.0) same ∙ ap (λ p. is_too_many p.0) (refuses refused) in
            ground (arith, refused, answer, rest')
      ]

  -- Of the calls of verifyTwoFactor that come for a user with a second factor within any fifteen
  -- minutes, at most five are answered otherwise than with "too many attempts", however many come, in
  -- whatever order the clock gives their times and whatever happens to the database between them,
  -- when the user's earlier attempts lie before those minutes.
  pub answered_bounded :
      (from u : ℕ) (calls : List (Call S)) (limits : Limits)
      → All (IsTimely from u) calls
      → since from (limits u) ≡ 0
      → answered calls u limits ≤ rate_limit_max
  answered_bounded from u calls limits timely h = omega (
    arith,
    answered-checked from u calls limits timely,
    checked_bounded from u (times_of calls) limits (times-IsWithin from u calls timely) h,
  )
