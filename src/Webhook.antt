-- ===== src/Webhook.antt =====
-- The delivery of webhook events (src/modules/webhook/webhook.service.ts): one delivery row for
-- each attempt, and the timers of the retries. The endpoint's answers are a parameter, a status or
-- none if `fetch` throws; times are milliseconds.
pub mod Retries
pub mod Dispatching
mod Tests
use payflow_x.Prelude.{
  ℕ, zero, suc, ◌+◌, ◌-◌, Bool, true, false, not, ◌&&◌, ◌==◌, ltb, leb, Option, none, some, List,
  [], ◌∷◌, ◌++◌, map, if◌then◌else◌,
}

abbrev pub max_attempts : ℕ
max_attempts = 3

pub data DeliveryStatus : Type 0 where
  pending delivered failed : DeliveryStatus

-- `WebhookDelivery`; the endpoint, the event and the payload are one number each.
pub record Delivery : Type 0 where
  pub endpoint : ℕ
  pub event : ℕ
  pub payload : ℕ
  pub status : DeliveryStatus
  pub attempts : ℕ
  pub response_status : Option ℕ
  pub next_retry_at : Option ℕ

-- A timer: when it fires, and the attempt that it makes.
pub record Timer : Type 0 where
  pub at : ℕ
  pub attempt : ℕ

-- The arguments that every attempt of a delivery shares.
pub record Target : Type 0 where
  pub endpoint : ℕ
  pub event : ℕ
  pub payload : ℕ

-- `response.ok`; a `fetch` that throws has no response.
abbrev pub is_ok : Option ℕ → Bool
is_ok none = false
is_ok (some status) = leb 200 status && ltb status 300

abbrev pub is_failed : DeliveryStatus → Bool
is_failed pending = false
is_failed delivered = false
is_failed failed = true

-- `delays[attempt - 1] ?? 900_000`
abbrev pub delay : ℕ → ℕ
delay attempt = if attempt == 1 then 60_000 else if attempt == 2 then 300_000 else 900_000

-- The `where` of `scheduleRetry`.
abbrev pub is_due : Target → Delivery → Bool
is_due t d =
    (d.endpoint == t.endpoint)
    && (d.event == t.event)
    && (d.payload == t.payload)
    && is_failed d.status

abbrev pub retry_at : Target → ℕ → Delivery → Delivery
retry_at t time d = if is_due t d then record d { next_retry_at = some time } else d

-- `scheduleRetry`
unfoldable pub schedule_retry : Target → ℕ → ℕ → List Delivery → List Delivery × Timer
schedule_retry t attempt now rows = (
  map (retry_at t (now + delay attempt)) rows,
  record { at = now + delay attempt; attempt = attempt },
)

-- The row of one attempt after its response.
unfoldable pub attempted : Target → ℕ → Option ℕ → Delivery
attempted t attempt response = record {
  endpoint = t.endpoint;
  event = t.event;
  payload = t.payload;
  status = if is_ok response then delivered else failed;
  attempts = attempt + 1;
  response_status = response;
  next_retry_at = none;
}

retry_if : Bool → Target → ℕ → ℕ → List Delivery → List Delivery × Option Timer
unfolding schedule_retry
retry_if false t attempt now rows = (rows, none)
retry_if true t attempt now rows =
    let (rows', timer) = schedule_retry t attempt now rows in (rows', some timer)

-- `deliver`, the newest row first.
unfoldable pub deliver : Target → ℕ → Option ℕ → ℕ → List Delivery → List Delivery × Option Timer
unfolding attempted retry_if
deliver t attempt response now rows =
    retry_if (not (is_ok response) && ltb (attempt + 1) max_attempts) t (attempt + 1) now
      (attempted t attempt response ∷ rows)

-- A delivery with its retries: `answer` gives the response to each attempt, and the timers fire in
-- turn until there is none or `turns` attempts are made.
follow :
    (ℕ → ℕ → List Delivery → List Delivery × Option Timer)
    → List Delivery × Option Timer
    → List Delivery × Option Timer
follow later (rows, none) = (rows, none)
follow later (rows, some timer) = later timer.attempt timer.at rows

unfoldable pub deliver_all :
    ℕ → Target → (ℕ → Option ℕ) → ℕ → ℕ → List Delivery → List Delivery × Option Timer
unfolding deliver follow
deliver_all zero t answer attempt now rows = (rows, some (record { at = now; attempt = attempt }))
deliver_all (suc turns) t answer attempt now rows =
    follow (deliver_all turns t answer) (deliver t attempt (answer attempt) now rows)

-- The columns of `WebhookEndpoint` that say where an event goes.
pub record Endpoint : Type 0 where
  pub id : ℕ
  pub active : Bool

abbrev pub target_of : ℕ → ℕ → Endpoint → Target
target_of event payload e = record { endpoint = e.id; event = event; payload = payload }

-- A timer, if there is one, before those of the endpoints that follow.
abbrev pub with_timer :
    Target
    → Option Timer
    → List Delivery × List (Target × Timer)
    → List Delivery × List (Target × Timer)
with_timer t none rest = rest
with_timer t (some timer) rest = (rest.0, (t, timer) ∷ rest.1)

-- `dispatch`: the first attempt for each active endpoint in turn, and the timers that are
-- set; `clock` is the time of each endpoint's turn.
unfoldable pub dispatch_event :
    ℕ
    → ℕ
    → (ℕ → Option ℕ)
    → (ℕ → ℕ)
    → List Endpoint
    → List Delivery
    → List Delivery × List (Target × Timer)
unfolding deliver
dispatch_event event payload answer clock [] rows = (rows, [])
dispatch_event event payload answer clock (e ∷ es) rows = elim e.active [
  | false ↦ dispatch_event event payload answer clock es rows
  | true ↦
      let t = target_of event payload e in
      let (rows', timer) = deliver t 0 (answer e.id) (clock e.id) rows in
      with_timer t timer (dispatch_event event payload answer clock es rows')
]
