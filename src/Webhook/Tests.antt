-- ===== src/Webhook/Tests.antt =====
-- A delivery that succeeds at its second attempt.
use payflow_x.Prelude.{
  ◌+◌, ℕ, ◌≡◌, true, false, ◌==◌, Option, none, some, List, [], ◌∷◌, map, if◌then◌else◌,
}
use payflow_x.Webhook.{Target, Endpoint, is_ok, deliver_all, max_attempts, dispatch_event}
use payflow_x.Webhook.Retries.{IsSettled, deliver_all-IsSettled}
use payflow_x.Webhook.Dispatching.{attempt_of, first_attempts, first_retries, dispatch_event_lem}

abbrev target : Target
target = record { endpoint = 1; event = 2; payload = 3 }

abbrev answer : ℕ → Option ℕ
answer attempt = if attempt == 0 then none else some 204

deliver_all-IsSettled_example :
    IsSettled
      (is_ok (answer 0))
      (is_ok (answer 1))
      (is_ok (answer 2))
      []
      (deliver_all max_attempts target answer 0 100 [])
deliver_all-IsSettled_example = deliver_all-IsSettled target answer 100 []

-- The second of three endpoints is not active; the third one is down.
abbrev endpoints : List Endpoint
endpoints =
    record { id = 1; active = true }
    ∷ record { id = 2; active = false }
    ∷ record { id = 3; active = true }
    ∷ []

abbrev answers : ℕ → Option ℕ
answers id = if id == 1 then some 200 else none

abbrev turn_at : ℕ → ℕ
turn_at id = 100 + id

dispatch_event_example :
    (map attempt_of (dispatch_event 5 6 answers turn_at endpoints []).0
      ≡ first_attempts 5 6 answers endpoints [])
    × ((dispatch_event 5 6 answers turn_at endpoints []).1
        ≡ first_retries 5 6 answers turn_at endpoints)
dispatch_event_example = dispatch_event_lem 5 6 answers turn_at endpoints []
