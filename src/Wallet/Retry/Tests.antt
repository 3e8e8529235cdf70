-- ===== src/Wallet/Retry/Tests.antt =====
-- A transaction that conflicts once.
use payflow_x.Prelude.{ℕ, suc, ◌+◌, ◌==◌, ◌≡◌, refl, true, false, arith, if◌then◌else◌}
use payflow_x.Prelude.Result.{Result, ok, err}
use payflow_x.Wallet.Retry.{
  Thrown, uncaused, caused, no_state, no_code, deadlock, other_code, with_optimistic_retry,
  has_retryable_code,
}
use payflow_x.Wallet.Retry.Chain.{has_retryable_code-chain, any_retryable, first_four, chain}
use payflow_x.Wallet.Retry.Attempts.{
  Answered, IsAtomic, with_optimistic_retry-Answered, with_optimistic_retry_once,
}

-- The first number counts the attempts, the second is the database.
abbrev transaction : ℕ × ℕ → Result Thrown ℕ × (ℕ × ℕ)
transaction (attempts, db) =
    if attempts == 0
    then (err (uncaused true no_state no_code), (1, db))
    else (ok db, (suc attempts, db + 10))

abbrev sleep : ℕ → ℕ × ℕ → ℕ × ℕ
sleep ms s = s

abbrev as_is : Thrown → Thrown
as_is e = e

abbrev jitter : ℕ → ℕ
jitter attempt = 2

abbrev database : ℕ × ℕ → ℕ
database s = s.1

transaction-IsAtomic : IsAtomic as_is transaction sleep jitter database
transaction-IsAtomic = (λ s e h. ground (arith), λ n s. refl)

with_optimistic_retry-Answered_example :
    Answered as_is transaction sleep jitter
      (0, 5)
      (with_optimistic_retry as_is transaction sleep jitter (0, 5))
with_optimistic_retry-Answered_example =
    with_optimistic_retry-Answered as_is transaction sleep jitter (0, 5)

with_optimistic_retry_once_example :
    (s0 : ℕ × ℕ) × (database s0 ≡ database (0, 5))
    × (with_optimistic_retry as_is transaction sleep jitter (0, 5) ≡ transaction s0)
with_optimistic_retry_once_example =
    with_optimistic_retry_once as_is transaction sleep jitter database transaction-IsAtomic (0, 5)

abbrev commit_failed : Thrown
commit_failed = caused false no_state other_code (uncaused false deadlock no_code)

has_retryable_code-chain_example :
    has_retryable_code commit_failed ≡ any_retryable (first_four (chain commit_failed))
has_retryable_code-chain_example = has_retryable_code-chain commit_failed
