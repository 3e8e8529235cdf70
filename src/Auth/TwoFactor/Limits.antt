-- ===== src/Auth/TwoFactor/Limits.antt =====
-- The limit on attempts: at most five codes of a user are checked in any fifteen minutes.
use payflow_x.Prelude.{
  ℕ, suc, ◌+◌, ◌<◌, ◌≤◌, ◌≡◌, refl, ap, ◌∙◌, Bool, true, false, ==_refl, leb, List, [], ◌∷◌, ◌++◌,
  arith, if◌then◌else◌, Bool-cases, inl, inr,
}
use payflow_x.Prelude.Lists.{length, All}
use payflow_x.Prelude.Result.{err}
use payflow_x.Text.{Text}
use payflow_x.Auth.{Backend, User}
use payflow_x.Auth.TwoFactor.{
  CodeStore, verify_user, verify_limited, too_many_attempts, Limits, put, recent, is_rate_limited,
  record_attempt, rate_limit_window, rate_limit_max,
}

-- What `verifyTwoFactor` does to the limits at a time: whether the code is checked, and the limits
-- after that.
admit_unless : Bool → ℕ → ℕ → Limits → Bool × Limits
unfolding record_attempt
admit_unless true now user_id limits = (false, limits)
admit_unless false now user_id limits = (true, record_attempt now user_id limits)

unfoldable pub admit : ℕ → ℕ → Limits → Bool × Limits
unfolding is_rate_limited admit_unless
admit now user_id limits =
    admit_unless (is_rate_limited now user_id limits).0 now user_id
      (is_rate_limited now user_id limits).1

-- How many codes of a user are checked, of those that come at the given times in turn.
unfoldable pub checked : List ℕ → ℕ → Limits → ℕ
unfolding admit
checked [] user_id limits = 0
checked (now ∷ times) user_id limits =
    let later = checked times user_id (admit now user_id limits).1 in
    if (admit now user_id limits).0 then suc later else later

-- The attempts of a list from the given time on.
abbrev pub since : ℕ → List ℕ → ℕ
since from [] = 0
since from (t ∷ ts) = let rest = since from ts in if leb from t then suc rest else rest

abbrev pub IsWithin : ℕ → ℕ → Type 0
IsWithin from now = (from ≤ now) × (now < from + rate_limit_window)

since-length : (from : ℕ) (ts : List ℕ) → since from ts ≤ length ts
since-length from [] = ground arith
since-length from (t ∷ ts) = ground (arith, since-length from ts)

since-append :
    (from now : ℕ) (ts : List ℕ) → from ≤ now → since from (ts ++ now ∷ []) ≡ suc (since from ts)
since-append from now [] h = ground arith
since-append from now (t ∷ ts) h = ground (arith, since-append from now ts h)

since-recent :
    (from now : ℕ) (ts : List ℕ) → IsWithin from now → since from (recent now ts) ≡ since from ts
since-recent from now [] h = refl
since-recent from now (t ∷ ts) h = ground (arith, since-recent from now ts h)

put_self : (u : ℕ) (ts : List ℕ) (limits : Limits) → put u ts limits u ≡ ts
put_self u ts limits = ap (λ t. if t then ts else limits u) (==_refl u)

admit_refused :
    (now u : ℕ) (limits : Limits)
    → leb rate_limit_max (length (recent now (limits u))) ≡ true
    → ((admit now u limits).0 ≡ false) × ((admit now u limits).1 u ≡ recent now (limits u))
unfolding admit is_rate_limited admit_unless
admit_refused now u limits h = rw h (refl, put_self u _ limits)

admit_let_through :
    (now u : ℕ) (limits : Limits)
    → leb rate_limit_max (length (recent now (limits u))) ≡ false
    → ((admit now u limits).0 ≡ true)
      × ((admit now u limits).1 u ≡ recent now (limits u) ++ now ∷ [])
unfolding admit is_rate_limited admit_unless record_attempt
admit_let_through now u limits h =
    let step = ap (λ t. admit_unless t now u (put u (recent now (limits u)) limits)) h in
    (
      ap (λ r. r.0) step,
      ap (λ r. r.1 u) step
          ∙ put_self u _ (put u (recent now (limits u)) limits)
          ∙ ap (λ ts. ts ++ now ∷ []) (put_self u _ limits),
    )

checked-since :
    (from u : ℕ) (times : List ℕ) (limits : Limits)
    → All (IsWithin from) times
    → since from (limits u) ≤ rate_limit_max
    → checked times u limits + since from (limits u) ≤ rate_limit_max
unfolding checked
checked-since from u [] limits within h = omega (arith, h)
checked-since from u (now ∷ times) limits (w, within) h =
    let kept = since-recent from now (limits u) w in
    let short = since-length from (recent now (limits u)) in
    let l' = (admit now u limits).1 in
    elim (Bool-cases (leb rate_limit_max (length (recent now (limits u))))) [
      | inl full ↦
          let (refused, after) = admit_refused now u limits full in
          let same : since from (l' u) ≡ since from (limits u) = ap (since from) after ∙ kept in
          let rest = checked-since from u times l' within (ground (arith, same)) in
          rw refused (ground (arith, same, rest))
      | inr free ↦
          let (checks, after) = admit_let_through now u limits free in
          let more : since from (l' u) ≡ suc (since from (limits u)) =
            ap (since from) after ∙ since-append from now _ w.0 ∙ ap suc kept in
          let rest =
            checked-since from u times l' within (ground (arith, more, kept, short, free)) in
          rw checks (ground (arith, more, rest))
    ]

-- Of the codes that come for a user within any fifteen minutes, at most five are checked, however
-- many come and in whatever order the clock gives their times, when the user's earlier attempts
-- lie before those minutes.
pub checked_bounded :
    (from u : ℕ) (times : List ℕ) (limits : Limits)
    → All (IsWithin from) times
    → since from (limits u) ≡ 0
    → checked times u limits ≤ rate_limit_max
checked_bounded from u times limits within h =
    ground (arith, checked-since from u times limits within (ground (arith, h)), h)

module _ {S : Type 0} (b : Backend S) (c : CodeStore S) where
  -- The verification of a code goes by these limits: it leaves the limits that `admit` gives, and
  -- throws at once where `admit` refuses.
  pub verify_user-admit :
      (u : ℕ) (user : User) (secret : ℕ) (code : Text) (limits : Limits) (s : S)
      → ((verify_user b c u user secret code (limits, s)).1.0 ≡ (admit (b.now s) u limits).1)
        × ((admit (b.now s) u limits).0 ≡ false
            → verify_user b c u user secret code (limits, s)
              ≡ (err too_many_attempts, ((admit (b.now s) u limits).1, s)))
  unfolding verify_user verify_limited admit admit_unless is_rate_limited
  verify_user-admit u user secret code limits s =
      elim (Bool-cases (leb rate_limit_max (length (recent (b.now s) (limits u))))) [
        | inl full ↦ rw full (refl, λ h. refl)
        | inr free ↦ rw free (refl, λ h. ground (arith))
      ]
