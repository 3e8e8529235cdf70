-- ===== src/Webhook/Dispatching.antt =====
-- What an event comes to, over all endpoints.
use payflow_x.Prelude.{
  ℕ, ◌+◌, ◌≡◌, refl, ap, ◌∙◌, Bool, true, false, inl, inr, Bool-cases, Option, none, some, List, [],
  ◌∷◌, map, arith,
}
use payflow_x.Webhook.{
  Delivery, DeliveryStatus, delivered, failed, Target, Timer, Endpoint, is_ok, retry_if, retry_at,
  schedule_retry, attempted, deliver, target_of, dispatch_event,
}

-- A row without the time of its next retry.
pub record Attempt : Type 0 where
  pub target : Target
  pub status : DeliveryStatus
  pub attempts : ℕ
  pub response_status : Option ℕ

abbrev pub attempt_of : Delivery → Attempt
attempt_of d = record {
  target = record { endpoint = d.endpoint; event = d.event; payload = d.payload };
  status = d.status;
  attempts = d.attempts;
  response_status = d.response_status;
}

abbrev pub status_of : Bool → DeliveryStatus
status_of true = delivered
status_of false = failed

abbrev pub first_attempt : Target → Option ℕ → Attempt
first_attempt t response = record {
  target = t;
  status = status_of (is_ok response);
  attempts = 1;
  response_status = response;
}

-- The first attempts for the active endpoints, the last one on top.
abbrev pub attempts_on : Bool → Attempt → List Attempt → List Attempt
attempts_on false a rows = rows
attempts_on true a rows = a ∷ rows

abbrev pub first_attempts : ℕ → ℕ → (ℕ → Option ℕ) → List Endpoint → List Attempt → List Attempt
first_attempts event payload answer [] rows = rows
first_attempts event payload answer (e ∷ es) rows =
    first_attempts event payload answer es
      (attempts_on e.active (first_attempt (target_of event payload e) (answer e.id)) rows)

-- One retry, a minute later, for each active endpoint that has not answered well.
abbrev pub retry_for : Bool → Bool → Target × Timer → List (Target × Timer) → List (Target × Timer)
retry_for true false timer rest = timer ∷ rest
retry_for _ _ timer rest = rest

abbrev pub first_retries : ℕ → ℕ → (ℕ → Option ℕ) → (ℕ → ℕ) → List Endpoint → List (Target × Timer)
first_retries event payload answer clock [] = []
first_retries event payload answer clock (e ∷ es) =
    retry_for e.active (is_ok (answer e.id))
      (target_of event payload e, record { at = clock e.id + 60_000; attempt = 1 })
      (first_retries event payload answer clock es)

attempt_of-retry_at :
    (t : Target) (time : ℕ) (d : Delivery) → attempt_of (retry_at t time d) ≡ attempt_of d
attempt_of-retry_at t time d = ground arith

retries_keep_attempts :
    (t : Target) (time : ℕ) (rows : List Delivery)
    → map attempt_of (map (retry_at t time) rows) ≡ map attempt_of rows
retries_keep_attempts t time [] = refl
retries_keep_attempts t time (d ∷ rows) =
    ap (λ a. a ∷ map attempt_of (map (retry_at t time) rows)) (attempt_of-retry_at t time d)
    ∙ ap (λ r. attempt_of d ∷ r) (retries_keep_attempts t time rows)

abbrev timer_unless : Bool → ℕ → Option Timer
timer_unless true now = none
timer_unless false now = some (record { at = now + 60_000; attempt = 1 })

deliver_first :
    (t : Target) (response : Option ℕ) (now : ℕ) (rows : List Delivery)
    → (map attempt_of (deliver t 0 response now rows).0
        ≡ first_attempt t response ∷ map attempt_of rows)
      × ((deliver t 0 response now rows).1 ≡ timer_unless (is_ok response) now)
unfolding deliver retry_if attempted schedule_retry
deliver_first t response now rows = elim (Bool-cases (is_ok response)) [
  | inl good ↦ rw good (refl, refl)
  | inr bad ↦ rw bad (
    retries_keep_attempts t (now + 60_000) (
        record {
          endpoint = t.endpoint;
          event = t.event;
          payload = t.payload;
          status = failed;
          attempts = 1;
          response_status = response;
          next_retry_at = none;
        }
        ∷ rows),
    refl,
  )
]

-- The dispatch of an event makes one first attempt for each active endpoint, in their order and
-- whatever the others answer, with the status that its answer has, leaves every older row as it is
-- but for the time of its next retry, and sets one timer, a minute after the endpoint's turn, for
-- each of these attempts that is not answered well.
pub dispatch_event_lem :
    (event payload : ℕ) (answer : ℕ → Option ℕ) (clock : ℕ → ℕ) (endpoints : List Endpoint)
    (rows : List Delivery)
    → (map attempt_of (dispatch_event event payload answer clock endpoints rows).0
        ≡ first_attempts event payload answer endpoints (map attempt_of rows))
      × ((dispatch_event event payload answer clock endpoints rows).1
          ≡ first_retries event payload answer clock endpoints)
unfolding dispatch_event
dispatch_event_lem event payload answer clock [] rows = (refl, refl)
dispatch_event_lem event payload answer clock (e ∷ es) rows =
    let t = target_of event payload e in
    let first = deliver_first t (answer e.id) (clock e.id) rows in
    let skipped = dispatch_event_lem event payload answer clock es rows in
    let after =
      dispatch_event_lem event payload answer clock es
        (deliver t 0 (answer e.id) (clock e.id) rows).0 in
    (ground (arith, first, skipped, after), ground (arith, first, skipped, after))
