-- ===== src/Kyc.antt =====
-- Identity verification (src/modules/kyc): the states of a verification, the service that moves
-- them, its timer, and the guard. Rows are keyed by the user; times are milliseconds.
pub mod Machine
pub mod Steps
pub mod Refinement
mod Tests
use payflow_x.Prelude.{
  ℕ, ◌+◌, String, Bool, true, false, not, Option, none, some, List, [], ◌∷◌, ◌++◌,
}
use payflow_x.Prelude.Result.{Result, ok, err}
use payflow_x.Http.{
  bad_request, forbidden, text, quoting, http, Error, Action, pure, throw, gets, lift, ◌>>=◌, ◌>>◌,
  throw_if,
}
use payflow_x.Db.{Table}

-- `KycStatusEnum`
pub data KycStatus : Type 0 where
  pending in_review approved rejected : KycStatus

pub data KycReviewAction : Type 0 where
  approve reject : KycReviewAction

-- `KycVerification`
pub record Kyc : Type 0 where
  pub status : KycStatus
  pub document_type : Option ℕ
  pub submitted_at : Option ℕ
  pub reviewed_at : Option ℕ

-- `SUBMITTABLE_STATES.includes(status)`
abbrev pub is_submittable : KycStatus → Bool
is_submittable pending = true
is_submittable in_review = false
is_submittable approved = false
is_submittable rejected = true

abbrev pub is_in_review : KycStatus → Bool
is_in_review in_review = true
is_in_review _ = false

abbrev pub is_approved : KycStatus → Bool
is_approved approved = true
is_approved _ = false

abbrev pub auto_approve_delay_ms : ℕ
auto_approve_delay_ms = 30_000

abbrev pub fresh : Kyc
fresh = record { status = pending; document_type = none; submitted_at = none; reviewed_at = none }

-- `action === "approve" ? "APPROVED" : "REJECTED"`
abbrev pub outcome : KycReviewAction → KycStatus
outcome approve = approved
outcome reject = rejected

abbrev pub status_name : KycStatus → String
status_name pending = "PENDING"
status_name in_review = "IN_REVIEW"
status_name approved = "APPROVED"
status_name rejected = "REJECTED"

abbrev pub cannot_submit : KycStatus → Error
cannot_submit s = http bad_request (quoting "Cannot submit KYC from status" (status_name s))

abbrev pub cannot_review : KycStatus → Error
cannot_review s = http bad_request (quoting "Cannot review KYC from status" (status_name s))

abbrev pub kyc_required : Error
kyc_required = http forbidden (text "KYC verification required to perform this action")

-- The `if (!kyc || kyc.status !== "IN_REVIEW") return;` of `autoApprove`.
unfoldable pub is_waiting : Option Kyc → Bool
is_waiting none = false
is_waiting (some kyc) = is_in_review kyc.status

-- `KycGuard.canActivate` (src/modules/kyc/guards/kyc.guard.ts)
unfoldable pub allows : Option Kyc → Result Error Bool
allows none = err kyc_required
allows (some kyc) = elim (is_approved kyc.status) [ true ↦ ok true | false ↦ err kyc_required ]

module _ {Rows : Type 0} (t : Table Rows Kyc) where
  unfoldable pub existing_or_new : Option Kyc → ℕ → Action Rows Kyc
  existing_or_new (some kyc) user_id = pure kyc
  existing_or_new none user_id = t.create user_id fresh

  unfoldable pub get_status : ℕ → Action Rows Kyc
  unfolding existing_or_new
  get_status user_id s = existing_or_new (t.find_unique user_id s) user_id s

  -- What `submit` does on a verification of this status.
  unfoldable pub submit_from : ℕ → ℕ → ℕ → KycStatus → Action Rows Kyc
  submit_from user_id document_type now status = do
    throw_if (not (is_submittable status)) (cannot_submit status)
    t.update user_id λ row. record row {
      status = in_review;
      document_type = some document_type;
      submitted_at = some now;
      reviewed_at = none;
    }

  -- `submit`; the timer that it sets is the event `timed_out` of Kyc/Machine.
  unfoldable pub submit : ℕ → ℕ → ℕ → Action Rows Kyc
  unfolding get_status submit_from
  submit user_id document_type now = do
    kyc ← get_status user_id
    submit_from user_id document_type now kyc.status

  unfoldable pub approve_if : Bool → ℕ → ℕ → Action Rows (Unit {0})
  approve_if false user_id now = pure tt
  approve_if true user_id now = do
    t.update user_id λ row. record row { status = approved; reviewed_at = some now }
    pure tt

  unfoldable pub auto_approve : ℕ → ℕ → Action Rows (Unit {0})
  unfolding is_waiting approve_if
  auto_approve user_id now s = approve_if (is_waiting (t.find_unique user_id s)) user_id now s

  -- What `review` does on a verification of this status.
  unfoldable pub review_from : ℕ → KycReviewAction → ℕ → KycStatus → Action Rows Kyc
  review_from user_id action now status = do
    throw_if (not (is_in_review status)) (cannot_review status)
    t.update user_id λ row. record row { status = outcome action; reviewed_at = some now }

  unfoldable pub review : ℕ → KycReviewAction → ℕ → Action Rows Kyc
  unfolding get_status review_from
  review user_id action now = do kyc ← get_status user_id; review_from user_id action now kyc.status

  -- `KycGuard.canActivate` after its `findUnique`.
  unfoldable pub can_activate : ℕ → Action Rows Bool
  unfolding allows
  can_activate user_id s = (allows (t.find_unique user_id s), s)
