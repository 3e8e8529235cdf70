-- ===== src/Idempotency/Cleanup.antt =====
-- What the removal of old records leaves of the cache.
use payflow_x.Prelude.{ℕ, ◌-◌, ◌≤◌, ◌≡◌, refl, ap, ◌∙◌, none, some, inl, inr, arith}
use payflow_x.Prelude.Result.{ok, Result-cases}
use payflow_x.Http.{Action, pure, catching_ok, catching_err, bind_from, bind_err, pair_ext, ◌>>◌}
use payflow_x.Db.{Table, IsTable}
use payflow_x.Idempotency.{Stored, Request, ttl_ms, cleanup, intercept}
use payflow_x.Idempotency.Replays.{cached_answers, first_answers}

module _ {S : Type 0} (t : Table S Stored) (delete_older : ℕ → Action S ℕ) (now : S → ℕ) where
  -- A record that is not older than the time stays, an older one goes, and a failure leaves all.
  pub record IsDeletion : Type 0 where
    pub recent_stays :
        (cutoff key : ℕ) (stored : Stored) (s : S)
        → t.find_unique key s ≡ some stored
        → cutoff ≤ stored.created_at
        → t.find_unique key (delete_older cutoff s).1 ≡ some stored
    pub clock_stays : (cutoff : ℕ) (s : S) → now (delete_older cutoff s).1 ≡ now s

  -- What may happen to the cache between two requests: time passes, other requests write under other
  -- keys, and the cleanup runs.
  pub data Meanwhile (key : ℕ) : S → S → Type 0 where
    nothing : {s : S} → Meanwhile key s s
    passes :
        {s s' s'' : S}
        → t.find_unique key s' ≡ t.find_unique key s
        → now s ≤ now s'
        → Meanwhile key s' s''
        → Meanwhile key s s''
    cleans : {s s'' : S} → Meanwhile key (cleanup delete_older now s).1 s'' → Meanwhile key s s''

  -- The cleanup never throws, and what it leaves is what the deletion leaves, done or failed.
  cleanup_lem : (s : S) → cleanup delete_older now s ≡ (ok tt, (delete_older (now s - ttl_ms) s).1)
  unfolding cleanup
  cleanup_lem s =
      let m = delete_older (now s - ttl_ms) in
      elim (Result-cases (m s).0) [
        | inl (n, e) ↦
            catching_ok (m >> pure tt) (λ x. pure tt) s
              (bind_from m (λ x. pure tt) s (pair_ext (m s) e refl))
        | inr (x, e) ↦
            catching_err (m >> pure tt) (λ x. pure tt) s
              (bind_err m (λ x. pure tt) s (pair_ext (m s) e refl))
      ]

  module _ (law : IsDeletion) where
    clock-cleanup : (s : S) → now (cleanup delete_older now s).1 ≡ now s
    clock-cleanup s = ap (λ r. now r.1) (cleanup_lem s) ∙ law.clock_stays (now s - ttl_ms) s

    later : {key : ℕ} {s s' : S} → Meanwhile key s s' → now s ≤ now s'
    later nothing = omega arith
    later (passes kept since m) = omega (arith, since, later m)
    later (cleans {s = s} m) = omega (arith, later m, clock-cleanup s)

    -- A record that is at most a day old at the end has been there all along.
    kept :
        {key : ℕ} {s s' : S} (stored : Stored)
        → Meanwhile key s s'
        → t.find_unique key s ≡ some stored
        → now s' - stored.created_at ≤ ttl_ms
        → t.find_unique key s' ≡ some stored
    kept stored nothing found fresh = found
    kept stored (passes same since m) found fresh = kept stored m (same ∙ found) fresh
    kept {key = key} stored (cleans {s = s} m) found fresh =
        kept stored m
          (ap (λ r. t.find_unique key r.1) (cleanup_lem s)
            ∙ law.recent_stays (now s - ttl_ms) key stored s found
                (omega (arith, fresh, later m, clock-cleanup s)))
          fresh

    -- A request with a new key whose handler answers, and leaves no record under that key, is
    -- answered the same. Whatever runs of the cleanup and writes under other keys follow, a request
    -- with the same key at most a day later gets that answer and changes nothing, the handler not run.
    pub replayed-Meanwhile :
        (handle : Action S (ℕ × ℕ))
        → IsTable t
        → (key : ℕ) (request again : Request) (answer : ℕ × ℕ) (s s1 s3 : S)
        → request.key ≡ some key
        → again.key ≡ some key
        → t.find_unique key s ≡ none
        → handle s ≡ (ok answer, s1)
        → t.find_unique key s1 ≡ none
        → Meanwhile key (intercept t now handle request s).1 s3
        → now s3 - now s1 ≤ ttl_ms
        → ((intercept t now handle request s).0 ≡ ok answer)
          × (intercept t now handle again s3 ≡ (ok answer, s3))
    replayed-Meanwhile handle table key request again answer s s1 s3 k k' none_before handled
          none_after meanwhile fresh =
        let (s2, stored, first, found, same, created) =
          first_answers t now handle table key request answer s s1 k none_before handled
            none_after in
        let young : now s3 - stored.created_at ≤ ttl_ms = ground (arith, created, fresh) in
        (
          ap (λ r. r.0) first,
          cached_answers t now handle table key again stored s3 k'
                (kept stored meanwhile (ap (λ r. t.find_unique key r.1) first ∙ found) young) young
              ∙ ap (λ a. (ok a, s3)) same,
        )
