-- ===== src/Idempotency.antt =====
-- The cache of responses by idempotency key (src/common/guards/idempotency.guard.ts) and the removal
-- of its old records (src/common/guards/idempotency-cleanup.service.ts). The handler that the guard
-- wraps, the table of records and the clock are parameters.
pub mod Replays
pub mod Cleanup
mod Tests
use payflow_x.Prelude.{ℕ, ◌+◌, ◌-◌, ◌*◌, Bool, true, false, ltb, Option, none, some}
use payflow_x.Prelude.Result.{ok, err}
use payflow_x.Http.{Error, Action, pure, gets, catching, ◌>>=◌, ◌>>◌}
use payflow_x.Db.{Table}

abbrev pub ttl_ms : ℕ
ttl_ms = 24 * 60 * 60 * 1000

-- `IdempotencyRecord`; a response is its body and its status code.
pub record Stored : Type 0 where
  pub user_id : ℕ
  pub route : ℕ
  pub response : ℕ
  pub status_code : ℕ
  pub created_at : ℕ

-- The request: the header, the user or "", and the route.
pub record Request : Type 0 where
  pub key : Option ℕ
  pub user_id : ℕ
  pub route : ℕ

module _ {S : Type 0} (t : Table S Stored) (now : S → ℕ) (handle : Action S (ℕ × ℕ)) where
  -- The `tap`: a record that is there already is left, whatever the failure.
  unfoldable pub remember : ℕ → Request → ℕ × ℕ → Action S (Unit {0})
  remember key request answer s =
      catching
        (do
          t.create key (record {
            user_id = request.user_id;
            route = request.route;
            response = answer.0;
            status_code = answer.1;
            created_at = now s;
          })
          pure tt)
        (λ e. pure tt) s

  unfoldable pub handle_and_remember : ℕ → Request → Action S (ℕ × ℕ)
  unfolding remember
  handle_and_remember key request = do answer ← handle; remember key request answer; pure answer

  forget : ℕ → Action S (Unit {0})
  forget key = catching (do t.delete key; pure tt) (λ e. pure tt)

  -- `age > TTL_MS` is `true`.
  unfoldable pub on_cached : Bool → Stored → ℕ → Request → Action S (ℕ × ℕ)
  unfolding handle_and_remember forget
  on_cached true cached key request = do forget key; handle_and_remember key request
  on_cached false cached key request = pure (cached.response, cached.status_code)

  unfoldable pub on_found : Option Stored → ℕ → Request → Action S (ℕ × ℕ)
  unfolding handle_and_remember on_cached
  on_found none key request s = handle_and_remember key request s
  on_found (some cached) key request s =
      on_cached (ltb ttl_ms (now s - cached.created_at)) cached key request s

  unfoldable pub intercept_key : Option ℕ → Request → Action S (ℕ × ℕ)
  unfolding on_found
  intercept_key none request s = handle s
  intercept_key (some key) request s = on_found (t.find_unique key s) key request s

  unfoldable pub intercept : Request → Action S (ℕ × ℕ)
  unfolding intercept_key
  intercept request = intercept_key request.key request

-- `IdempotencyCleanupService.cleanup`, with `deleteMany` of the records older than a time.
module _ {S : Type 0} (delete_older : ℕ → Action S ℕ) (now : S → ℕ) where
  unfoldable pub cleanup : Action S (Unit {0})
  cleanup s = catching (do delete_older (now s - ttl_ms); pure tt) (λ e. pure tt) s
