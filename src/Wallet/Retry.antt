-- ===== src/Wallet/Retry.antt =====
-- Optimistic retries of a database transaction
-- (src/modules/wallet/utils/with-optimistic-retry.ts). The transaction, the pause and the random
-- part of a pause are parameters; of a thrown
-- value, `view` gives the properties that the code looks at.
pub mod Attempts
pub mod Chain
mod Tests
use payflow_x.Prelude.{ℕ, suc, zero, ◌+◌, ◌-◌, ◌*◌, ◌^◌, Bool, true, false, ◌||◌, not, ◌==◌}
use payflow_x.Prelude.Result.{Result, ok, err}

abbrev pub max_retries : ℕ
max_retries = 3

abbrev pub base_delay_ms : ℕ
base_delay_ms = 5

abbrev pub max_cause_depth : ℕ
max_cause_depth = 3

-- The property `sqlState` of a thrown object: "40001", "40P01", another text, or not a text.
pub data SqlState : Type 0 where
  serialization_failure deadlock other_state no_state : SqlState

-- The property `code` of a thrown object: "P2002", another text, or not a text.
pub data Code : Type 0 where
  unique_violation other_code no_code : Code

abbrev pub is_retryable_state : SqlState → Bool
is_retryable_state serialization_failure = true
is_retryable_state deadlock = true
is_retryable_state other_state = false
is_retryable_state no_state = false

abbrev pub is_retryable_code : Code → Bool
is_retryable_code unique_violation = true
is_retryable_code other_code = false
is_retryable_code no_code = false

-- A thrown value: no object (or null), or an object with or without a cause. An object may be its
-- own cause. Whether the object is a `ConflictException` is the first field.
pub data Thrown : Type 0 where
  no_object : Thrown
  uncaused self_caused : Bool → SqlState → Code → Thrown
  caused : Bool → SqlState → Code → Thrown → Thrown

abbrev pub own_code : SqlState → Code → Bool
own_code state code = is_retryable_state state || is_retryable_code code

-- `hasRetryableCode(error, depth)`, the number of causes left to look into in place of the depth:
-- `levels` is `MAX_CAUSE_DEPTH + 1 - depth`.
unfoldable pub has_code_within : ℕ → Thrown → Bool
has_code_within zero e = false
has_code_within (suc levels) no_object = false
has_code_within (suc levels) (uncaused conflict state code) = own_code state code
has_code_within (suc levels) (self_caused conflict state code) = own_code state code
has_code_within (suc levels) (caused conflict state code cause) =
    own_code state code || has_code_within levels cause

unfoldable pub has_retryable_code : Thrown → Bool
unfolding has_code_within
has_retryable_code e = has_code_within (max_cause_depth + 1) e

-- `error instanceof ConflictException`
abbrev pub is_conflict : Thrown → Bool
is_conflict no_object = false
is_conflict (uncaused conflict state code) = conflict
is_conflict (self_caused conflict state code) = conflict
is_conflict (caused conflict state code cause) = conflict

unfoldable pub is_retryable : Thrown → Bool
unfolding has_retryable_code
is_retryable e = is_conflict e || has_retryable_code e

-- `jitter` is `Math.random() * BASE_DELAY_MS` for the attempt.
abbrev pub backoff_ms : (ℕ → ℕ) → ℕ → ℕ
backoff_ms jitter attempt = base_delay_ms * 2 ^ attempt + jitter attempt

-- The `catch` of one attempt: whether the loop goes on.
unfoldable pub goes_on : ℕ → Thrown → Bool
unfolding is_retryable
goes_on attempt e = not (not (is_retryable e) || (attempt == max_retries - 1))

module _ {S E A : Type 0} (view : E → Thrown) (transaction : S → Result E A × S) (sleep : ℕ → S → S)
    (jitter : ℕ → ℕ) where
  -- One turn of the loop, given the turns that may follow it and `lastError`.
  unfoldable pub turn : (E → S → Result E A × S) → ℕ → Result E A × S → Result E A × S
  unfolding goes_on
  turn later attempt (ok a, s) = (ok a, s)
  turn later attempt (err e, s) = elim (goes_on attempt (view e)) [
    | true ↦ later e (sleep (backoff_ms jitter attempt) s)
    | false ↦ (err e, s)
  ]

  -- The loop with `turns` turns left; `last` is `lastError`.
  unfoldable pub retry_loop : ℕ → ℕ → E → S → Result E A × S
  unfolding turn
  retry_loop zero attempt last s = (err last, s)
  retry_loop (suc turns) attempt last s =
      turn (retry_loop turns (suc attempt)) attempt (transaction s)

  -- The first turn, before which there is no `lastError`, and then the loop.
  unfoldable pub with_optimistic_retry : S → Result E A × S
  unfolding retry_loop
  with_optimistic_retry s = turn (retry_loop (max_retries - 1) 1) 0 (transaction s)
