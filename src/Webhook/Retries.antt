-- ===== src/Webhook/Retries.antt =====
-- How often a delivery is tried, and how it ends.
use payflow_x.Prelude.{
  ℕ, ◌+◌, ◌≡◌, refl, Bool, true, false, ◌||◌, inl, inr, Bool-cases, Option, none, some, List, [],
  ◌∷◌, arith,
}
use payflow_x.Prelude.Lists.{length, length-map}
use payflow_x.Webhook.{
  Delivery, DeliveryStatus, delivered, failed, Target, Timer, is_ok, retry_if, follow,
  schedule_retry, attempted, deliver, deliver_all, max_attempts,
}

-- The attempts that a delivery takes: up to the first that is answered well, three at most.
abbrev pub tries : Bool → Bool → ℕ
tries true second = 1
tries false true = 2
tries false false = 3

-- The status of the newest row.
abbrev pub newest : List Delivery → Option DeliveryStatus
newest [] = none
newest (d ∷ ds) = some d.status

abbrev pub ending : Bool → DeliveryStatus
ending true = delivered
ending false = failed

-- What a delivery comes to, given which of its attempts are answered well.
abbrev pub IsSettled : Bool → Bool → Bool → List Delivery → List Delivery × Option Timer → Type 0
IsSettled first second third rows r =
    (r.1 ≡ none)
    × (length r.0 ≡ tries first second + length rows)
    × (newest r.0 ≡ some (ending (first || second || third)))

-- A delivery with its retries makes no fourth attempt and leaves no timer; it stops at the first
-- attempt that is answered well, writes a row for each attempt, and its newest row says delivered
-- exactly if one of the three was answered well.
pub deliver_all-IsSettled :
    (t : Target) (answer : ℕ → Option ℕ) (now : ℕ) (rows : List Delivery)
    → IsSettled
        (is_ok (answer 0))
        (is_ok (answer 1))
        (is_ok (answer 2))
        rows
        (deliver_all max_attempts t answer 0 now rows)
unfolding deliver_all deliver retry_if follow schedule_retry attempted
deliver_all-IsSettled t answer now rows = elim (Bool-cases (is_ok (answer 0))) [
  | inl a ↦ rw a (refl, omega arith, refl)
  | inr a ↦ elim (Bool-cases (is_ok (answer 1))) [
    | inl b ↦ rw (a, b) (refl, simp length-map (omega arith), refl)
    | inr b ↦ elim (Bool-cases (is_ok (answer 2))) [
      | inl c ↦ rw (a, b, c) (refl, simp length-map (omega arith), refl)
      | inr c ↦ rw (a, b, c) (refl, simp length-map (omega arith), refl)
    ]
  ]
]
