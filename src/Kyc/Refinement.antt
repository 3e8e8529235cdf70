-- ===== src/Kyc/Refinement.antt =====
-- The verification service and its guard go by the state machine.
use payflow_x.Prelude.{
  ℕ, ◌≡◌, refl, sym, ◌∙◌, ap, ◌↔◌, true, Option, none, some, List, [], ◌∷◌, map, arith, inl, inr,
  Option-cases,
}
use payflow_x.Prelude.Result.{Result, ok}
use payflow_x.Http.{Error, bind_from}
use payflow_x.Db.{Table, IsTable}
use payflow_x.Kyc.{
  KycStatus, approved, Kyc, get_status, approve_if, submit, review, can_activate, allows,
  is_waiting,
}
use payflow_x.Kyc.Machine.{
  status_of, Event, submitted, reviewed, timed_out, next, dropped, settle, run_machine, handle,
  handle_all, user_status, Answers, Obeys, Answers-Obeys,
}
use payflow_x.Kyc.Steps.{
  Got, get_status-Got, submit_from-Answers, review_from-Answers, approve_if-Answers, timed_out_with,
}

module _ {Rows : Type 0} (t : Table Rows Kyc) where
  module _ (law : IsTable t) where
    handle-Answers :
        (ev : Event) (u now : ℕ) (s : Rows)
        → Answers t u (next ev (user_status t u s)) s (handle t ev u now s)
    unfolding handle submit review is_waiting approve_if Got
    handle-Answers (submitted d) u now s =
        let (r, s', got, found, eq, same) = get_status-Got t law u s in
        rw ((ap dropped (bind_from (get_status t u) _ s got)), (sym eq))
          (submit_from-Answers t law u d now r.status s' s r found (ap status_of found ∙ eq) same)
    handle-Answers (reviewed a) u now s =
        let (r, s', got, found, eq, same) = get_status-Got t law u s in
        rw ((ap dropped (bind_from (get_status t u) _ s got)), (sym eq))
          (review_from-Answers t law u a now r.status s' s r found (ap status_of found ∙ eq) same)
    handle-Answers timed_out u now s = elim (Option-cases (t.find_unique u s)) [
      | inl e ↦ timed_out_with t law u now s none e (refl, ap status_of e, λ j ne. refl)
      | inr (r, e) ↦
          timed_out_with t law u now s (some r) e
            (approve_if-Answers t law u now s r r.status e refl)
    ]

    -- Each request does what the machine says about the user's status: where the machine has no
    -- next state the request throws and the status stays, else it returns and the user has the
    -- next status; the rows of the other users are never changed.
    pub handle-Obeys :
        (ev : Event) (u now : ℕ) (s : Rows)
        → Obeys t u (next ev (user_status t u s)) s (handle t ev u now s)
    handle-Obeys ev u now s =
        Answers-Obeys t u (next ev (user_status t u s)) s (handle t ev u now s)
          (handle-Answers ev u now s)

    Answers-settle :
        (u : ℕ) (o : Option KycStatus) (s : Rows) (x : Result Error (Unit {0}) × Rows)
        → Answers t u o s x
        → user_status t u x.1 ≡ settle o (user_status t u s)
    Answers-settle u none s x h = h.1
    Answers-settle u (some q) s x h = h.1

    handle_all-run_machine :
        (evs : List (Event × ℕ)) (u : ℕ) (s : Rows)
        → user_status t u (handle_all t evs u s)
          ≡ run_machine (map (λ e. e.0) evs) (user_status t u s)
    unfolding handle_all
    handle_all-run_machine [] u s = refl
    handle_all-run_machine ((ev, now) ∷ rest) u s =
        handle_all-run_machine rest u (handle t ev u now s).1
        ∙ ap (run_machine (map (λ e. e.0) rest))
            (Answers-settle u (next ev (user_status t u s)) s _ (handle-Answers ev u now s))

    allows_iff : (o : Option Kyc) → (allows o ≡ ok true) ↔ (status_of o ≡ approved)
    unfolding allows
    allows_iff none = ground (arith)
    allows_iff (some kyc) = ground (arith)

    -- After any sequence of submissions, reviews and timers of a user, the guard lets that user
    -- through exactly if the machine's run over the same sequence has come to approved.
    pub can_activate-run_machine :
        (evs : List (Event × ℕ)) (u : ℕ) (s : Rows)
        → ((can_activate t u (handle_all t evs u s)).0 ≡ ok true)
          ↔ (run_machine (map (λ e. e.0) evs) (user_status t u s) ≡ approved)
    unfolding can_activate
    can_activate-run_machine evs u s =
        let (f, g) = allows_iff (t.find_unique u (handle_all t evs u s)) in
        (
          λ h. sym (handle_all-run_machine evs u s) ∙ f h,
          λ h. g (handle_all-run_machine evs u s ∙ h),
        )
