-- ===== src/Kyc/Steps.antt =====
-- What each part of the verification service does to the user's status.
use payflow_x.Prelude.{
  ℕ, ◌≡◌, ◌≢◌, refl, sym, ◌∙◌, ap, Option, none, some, arith, inl, inr, Option-cases,
}
use mathlib.Core.Path.{subst}
use payflow_x.Prelude.Result.{ok, err}
use payflow_x.Http.{Error, pure, ◌>>◌, bind_from}
use payflow_x.Db.{Table, IsTable}
use payflow_x.Kyc.{
  KycStatus, pending, in_review, approved, rejected, KycReviewAction, Kyc, outcome, fresh,
  submit_from, review_from, get_status, existing_or_new, approve_if, auto_approve, is_waiting,
  is_in_review,
}
use payflow_x.Kyc.Machine.{
  status_of, submitted, reviewed, timed_out, next, dropped, user_status, Answers,
}

module _ {Rows : Type 0} (t : Table Rows Kyc) where
  module _ (law : IsTable t) where
    write_found :
        (u : ℕ) (f : Kyc → Kyc) (r : Kyc) (q : KycStatus) (s0 s : Rows)
        → t.find_unique u s ≡ some r
        → (f r).status ≡ q
        → ((j : ℕ) → j ≢ u → t.find_unique j s ≡ t.find_unique j s0)
        → Answers t u (some q) s0 (dropped (t.update u f s))
    write_found u f r q s0 s found e same =
        let (s', done, writes) = law.update_found u f r s found in
        rw done (refl, ground (arith, writes u), λ j ne. ground (arith, writes j, same j ne))

    get_status_found :
        (u : ℕ) (s : Rows) (r : Kyc) → t.find_unique u s ≡ some r → get_status t u s ≡ (ok r, s)
    unfolding get_status existing_or_new
    get_status_found u s r found = ap (λ o. existing_or_new t o u s) found

    refused_found : (u : ℕ) (e : Error) (s : Rows) → Answers t u none s (err e, s)
    refused_found u e s = ((e, refl), refl, λ j ne. refl)

    pub submit_from-Answers :
        (u d now : ℕ) (q : KycStatus) (s s0 : Rows) (r : Kyc)
        → t.find_unique u s ≡ some r
        → user_status t u s ≡ user_status t u s0
        → ((j : ℕ) → j ≢ u → t.find_unique j s ≡ t.find_unique j s0)
        → Answers t u (next (submitted d) q) s0 (dropped (submit_from t u d now q s))
    unfolding submit_from
    submit_from-Answers u d now pending s s0 r found eq same =
        write_found u _ r in_review s0 s found refl same
    submit_from-Answers u d now rejected s s0 r found eq same =
        write_found u _ r in_review s0 s found refl same
    submit_from-Answers u d now in_review s s0 r found eq same = ((_, refl), eq, same)
    submit_from-Answers u d now approved s s0 r found eq same = ((_, refl), eq, same)

    pub review_from-Answers :
        (u : ℕ) (a : KycReviewAction) (now : ℕ) (q : KycStatus) (s s0 : Rows) (r : Kyc)
        → t.find_unique u s ≡ some r
        → user_status t u s ≡ user_status t u s0
        → ((j : ℕ) → j ≢ u → t.find_unique j s ≡ t.find_unique j s0)
        → Answers t u (next (reviewed a) q) s0 (dropped (review_from t u a now q s))
    unfolding review_from
    review_from-Answers u a now in_review s s0 r found eq same =
        write_found u _ r (outcome a) s0 s found refl same
    review_from-Answers u a now pending s s0 r found eq same = ((_, refl), eq, same)
    review_from-Answers u a now approved s s0 r found eq same = ((_, refl), eq, same)
    review_from-Answers u a now rejected s s0 r found eq same = ((_, refl), eq, same)

    -- After `getStatus` the user has a row, of the same status as before.
    unfoldable pub Got : ℕ → Rows → Type 0
    Got u s0 =
        (r : Kyc) × (s : Rows) × (get_status t u s0 ≡ (ok r, s))
        × (t.find_unique u s ≡ some r)
        × (r.status ≡ user_status t u s0)
        × ((j : ℕ) → j ≢ u → t.find_unique j s ≡ t.find_unique j s0)

    pub get_status-Got : (u : ℕ) (s0 : Rows) → Got u s0
    unfolding Got get_status existing_or_new
    get_status-Got u s0 = elim (Option-cases (t.find_unique u s0)) [
      | inr (r, found) ↦ (
        r,
        s0,
        ap (λ o. existing_or_new t o u s0) found,
        found,
        sym (ap status_of found),
        λ j ne. refl,
      )
      | inl none_found ↦
          let (s, done, writes) = law.create_new u fresh s0 none_found in
          (
            fresh,
            s,
            ap (λ o. existing_or_new t o u s0) none_found ∙ done,
            ground (arith, writes u),
            sym (ap status_of none_found),
            λ j ne. ground (arith, writes j, ne),
          )
    ]

    pub approve_if-Answers :
        (u now : ℕ) (s : Rows) (r : Kyc) (q : KycStatus)
        → t.find_unique u s ≡ some r
        → r.status ≡ q
        → Answers t u (next timed_out q) s (approve_if t (is_in_review q) u now s)
    unfolding approve_if
    approve_if-Answers u now s r pending found e = (refl, ap status_of found ∙ e, λ j ne. refl)
    approve_if-Answers u now s r approved found e = (refl, ap status_of found ∙ e, λ j ne. refl)
    approve_if-Answers u now s r rejected found e = (refl, ap status_of found ∙ e, λ j ne. refl)
    approve_if-Answers u now s r in_review found e =
        let (s', done, writes) = law.update_found u _ r s found in
        let answer : (t.update u (λ row. record row { status = approved; reviewed_at = some now })
                >> pure tt)
              s
            ≡ (ok tt, s') =
          bind_from (t.update u _) (λ _. pure tt) s done in
        rw answer (refl, ground (arith, writes u), λ j ne. ground (arith, writes j, ne))

    pub timed_out_with :
        (u now : ℕ) (s : Rows) (o : Option Kyc)
        → t.find_unique u s ≡ o
        → Answers t u (next timed_out (status_of o)) s (approve_if t (is_waiting o) u now s)
        → Answers t u (next timed_out (user_status t u s)) s (auto_approve t u now s)
    unfolding auto_approve
    timed_out_with u now s o e h =
        subst
          (λ x. Answers t u (next timed_out (status_of x)) s (approve_if t (is_waiting x) u now s))
          (sym e) h
