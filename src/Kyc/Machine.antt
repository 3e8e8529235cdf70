-- ===== src/Kyc/Machine.antt =====
-- The state machine that the verification service implements, over any database client.
use payflow_x.Prelude.{
  ℕ, ◌≡◌, ◌≢◌, ap, Option, none, some, List, [], ◌∷◌, arith, ◌==◌, inl, inr, Bool-cases,
}
use payflow_x.Prelude.Result.{Result, ok, err}
use payflow_x.Http.{Error, Action}
use payflow_x.Db.{Table, Writes}
use payflow_x.Kyc.{
  KycStatus, pending, in_review, approved, rejected, KycReviewAction, Kyc, outcome, submit, review,
  auto_approve,
}

-- A user with no row is pending.
abbrev pub status_of : Option Kyc → KycStatus
status_of none = pending
status_of (some kyc) = kyc.status

-- What may happen to the verification of one user.
pub data Event : Type 0 where
  submitted : ℕ → Event
  reviewed : KycReviewAction → Event
  timed_out : Event

-- The machine: the next state, or that the request is refused.
abbrev pub next : Event → KycStatus → Option KycStatus
next (submitted d) pending = some in_review
next (submitted d) rejected = some in_review
next (submitted d) in_review = none
next (submitted d) approved = none
next (reviewed a) in_review = some (outcome a)
next (reviewed a) pending = none
next (reviewed a) approved = none
next (reviewed a) rejected = none
next timed_out in_review = some approved
next timed_out pending = some pending
next timed_out approved = some approved
next timed_out rejected = some rejected

-- The machine on a sequence of requests, those that it refuses skipped.
abbrev pub settle : Option KycStatus → KycStatus → KycStatus
settle none q = q
settle (some q') q = q'

abbrev pub run_machine : List Event → KycStatus → KycStatus
run_machine [] q = q
run_machine (ev ∷ evs) q = run_machine evs (settle (next ev q) q)

-- The row that a request answers with is not looked at here.
abbrev pub dropped : {S A : Type 0} → Result Error A × S → Result Error (Unit {0}) × S
dropped (ok a, s) = (ok tt, s)
dropped (err e, s) = (err e, s)

module _ {Rows : Type 0} (t : Table Rows Kyc) where
  unfoldable pub handle : Event → ℕ → ℕ → Action Rows (Unit {0})
  handle (submitted d) user_id now s = dropped (submit t user_id d now s)
  handle (reviewed a) user_id now s = dropped (review t user_id a now s)
  handle timed_out user_id now s = auto_approve t user_id now s

  -- The requests of a user in turn, each with its time; what they throw goes to the caller.
  unfoldable pub handle_all : List (Event × ℕ) → ℕ → Rows → Rows
  handle_all [] u s = s
  handle_all ((ev, now) ∷ rest) u s = handle_all rest u (handle ev u now s).1

  abbrev pub user_status : ℕ → Rows → KycStatus
  user_status u s = status_of (t.find_unique u s)

  -- The machine's answer: the request is refused and no status changes, or it returns and the
  -- user's status is the given one. Other users keep their rows.
  abbrev pub Answers : ℕ → Option KycStatus → Rows → Result Error (Unit {0}) × Rows → Type 0
  Answers u none s r =
      ((e : Error) × (r.0 ≡ err e))
      × (user_status u r.1 ≡ user_status u s)
      × ((j : ℕ) → j ≢ u → t.find_unique j r.1 ≡ t.find_unique j s)
  Answers u (some q) s r =
      (r.0 ≡ ok tt)
      × (user_status u r.1 ≡ q)
      × ((j : ℕ) → j ≢ u → t.find_unique j r.1 ≡ t.find_unique j s)

  abbrev pub Obeys : ℕ → Option KycStatus → Rows → Result Error (Unit {0}) × Rows → Type 0
  Obeys u none s r =
      ((e : Error) × (r.0 ≡ err e))
      × (user_status u r.1 ≡ user_status u s)
      × Writes t u (t.find_unique u r.1) s r.1
  Obeys u (some q) s r =
      (r.0 ≡ ok tt) × (user_status u r.1 ≡ q) × Writes t u (t.find_unique u r.1) s r.1

  other_rows-Writes :
      (u : ℕ) (s s' : Rows)
      → ((j : ℕ) → j ≢ u → t.find_unique j s' ≡ t.find_unique j s)
      → Writes t u (t.find_unique u s') s s'
  other_rows-Writes u s s' h j = elim (Bool-cases (u == j)) [
    | inl e ↦ rw e (ap (λ x. t.find_unique x s') (ground arith))
    | inr ne ↦ rw ne (h j λ e. ground arith)
  ]

  pub Answers-Obeys :
      (u : ℕ) (o : Option KycStatus) (s : Rows) (r : Result Error (Unit {0}) × Rows)
      → Answers u o s r
      → Obeys u o s r
  Answers-Obeys u none s r (e, q, h) = (e, q, other_rows-Writes u s r.1 h)
  Answers-Obeys u (some q) s r (e, eq, h) = (e, eq, other_rows-Writes u s r.1 h)
