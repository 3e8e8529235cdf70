-- ===== src/Wallet/Retry/Attempts.antt =====
-- What the retry loop does: which attempt it answers with, and that no failed attempt shows.
use payflow_x.Prelude.{
  ℕ, zero, suc, ◌+◌, ◌<◌, ◌≡◌, ◌≢◌, refl, sym, ◌∙◌, ◌⊎◌, inl, inr, true, false, arith, Bool-cases,
}
use mathlib.Core.Path.{subst}
use payflow_x.Prelude.Result.{Result, ok, err, Result-cases}
use payflow_x.Wallet.Retry.{
  Thrown, is_retryable, goes_on, turn, retry_loop, with_optimistic_retry, backoff_ms, max_retries,
}

module _ {S E A : Type 0} (view : E → Thrown) (transaction : S → Result E A × S) (sleep : ℕ → S → S)
    (jitter : ℕ → ℕ) where
  -- The state before the attempt of this number, all earlier ones having failed.
  abbrev pub reached : ℕ → S → S
  reached zero s = s
  reached (suc k) s = sleep (backoff_ms jitter k) (transaction (reached k s)).1

  -- Every attempt before this number throws an error that is retried.
  abbrev pub FailedBefore : ℕ → S → Type 0
  FailedBefore zero s = Unit {0}
  FailedBefore (suc k) s =
      FailedBefore k s
      × (e : E) × ((transaction (reached k s)).0 ≡ err e)
      × (is_retryable (view e) ≡ true)

  -- Why the loop ends with the attempt of this number.
  abbrev pub Ends : ℕ → Result E A → Type 0
  Ends k r =
      ((a : A) × (r ≡ ok a)) ⊎ ((e : E) × (r ≡ err e) × ((is_retryable (view e) ≡ false) ⊎ (k ≡ 2)))

  abbrev pub Answered : S → Result E A × S → Type 0
  Answered s r =
      (k : ℕ) × (k < max_retries) × (r ≡ transaction (reached k s)) × FailedBefore k s × Ends k r.0

  turn_ok :
      (later : E → S → Result E A × S) (n : ℕ) (p : Result E A × S) {a : A}
      → p.0 ≡ ok a
      → turn view transaction sleep jitter later n p ≡ p
  unfolding turn
  turn_ok later n (ok x, s) h = refl
  turn_ok later n (err e, s) h = cc

  turn_stop :
      (later : E → S → Result E A × S) (n : ℕ) (p : Result E A × S) {e : E}
      → p.0 ≡ err e
      → goes_on n (view e) ≡ false
      → turn view transaction sleep jitter later n p ≡ p
  unfolding turn
  turn_stop later n (ok x, s) h g = refl
  turn_stop later n (err x, s) h g = ground (arith)

  turn_on :
      (later : E → S → Result E A × S) (n : ℕ) (p : Result E A × S) {e : E}
      → p.0 ≡ err e
      → goes_on n (view e) ≡ true
      → turn view transaction sleep jitter later n p ≡ later e (sleep (backoff_ms jitter n) p.1)
  unfolding turn
  turn_on later n (ok x, s) h g = cc
  turn_on later n (err x, s) h g = ground (arith)

  ends_lem : (n : ℕ) (e : E) {r : Result E A} → r ≡ err e → goes_on n (view e) ≡ false → Ends n r
  unfolding goes_on
  ends_lem n e h g = inr (
    e,
    h,
    elim (Bool-cases (is_retryable (view e))) [ inl t ↦ inr (ground (arith)) | inr f ↦ inl f ],
  )

  goes_on_lem :
      (n : ℕ) (e : E) → goes_on n (view e) ≡ true → (is_retryable (view e) ≡ true) × (n ≢ 2)
  unfolding goes_on
  goes_on_lem n e g = (ground (arith), λ h. ground (arith))

  stays-Answered :
      (n : ℕ) (s : S) (r : Result E A × S)
      → n < max_retries
      → FailedBefore n s
      → r ≡ transaction (reached n s)
      → Ends n (transaction (reached n s)).0
      → Answered s r
  stays-Answered n s r bound failed e ends =
      (n, bound, e, failed, subst (λ x. Ends n x.0) (sym e) ends)

  turn-Answered :
      (later : E → S → Result E A × S) (n : ℕ) (s : S)
      → n < max_retries
      → FailedBefore n s
      → ((e : E) → n ≢ 2 → FailedBefore (suc n) s → Answered s (later e (reached (suc n) s)))
      → Answered s (turn view transaction sleep jitter later n (transaction (reached n s)))
  turn-Answered later n s bound failed rest = elim (Result-cases (transaction (reached n s)).0) [
    | inl (a, ea) ↦ stays-Answered n s _ bound failed (turn_ok later n _ ea) (inl (a, ea))
    | inr (e, ee) ↦ elim (Bool-cases (goes_on n (view e))) [
      | inr g ↦ stays-Answered n s _ bound failed (turn_stop later n _ ee g) (ends_lem n e ee g)
      | inl g ↦
          let (again, more) = goes_on_lem n e g in
          subst (Answered s) (sym (turn_on later n _ ee g)) (rest e more (failed, e, ee, again))
    ]
  ]

  retry_loop-Answered :
      (turns n : ℕ) (last : E) (s : S)
      → n + turns ≡ 2
      → FailedBefore n s
      → Answered s (retry_loop view transaction sleep jitter (suc turns) n last (reached n s))
  unfolding retry_loop
  retry_loop-Answered zero n last s bound failed =
      turn-Answered (retry_loop view transaction sleep jitter zero (suc n)) n s (ground arith)
        failed λ e more next. absurd (more (ground arith))
  retry_loop-Answered (suc turns) n last s bound failed =
      turn-Answered (retry_loop view transaction sleep jitter (suc turns) (suc n)) n s
        (ground arith) failed
        λ e more next. retry_loop-Answered turns (suc n) e s (ground arith) next

  -- The retry answers with what one of the first three attempts does, where each earlier attempt
  -- threw an error that is retried, and this one returns, throws an error that is not retried, or
  -- is the third. Each attempt starts from the state that the one before it left, after a pause.
  pub with_optimistic_retry-Answered :
      (s : S) → Answered s (with_optimistic_retry view transaction sleep jitter s)
  unfolding with_optimistic_retry
  with_optimistic_retry-Answered s =
      turn-Answered (retry_loop view transaction sleep jitter 2 1) 0 s (ground arith) tt
        λ e more next. retry_loop-Answered 1 1 e s refl next

  module _ {D : Type 0} (shown : S → D) where
    -- A failed attempt is rolled back, and a pause is not seen.
    abbrev pub IsAtomic : Type 0
    IsAtomic =
        ((s : S) (e : E) → (transaction s).0 ≡ err e → shown (transaction s).1 ≡ shown s)
        × ((n : ℕ) (s : S) → shown (sleep n s) ≡ shown s)

    shown-reached : IsAtomic → (k : ℕ) (s : S) → FailedBefore k s → shown (reached k s) ≡ shown s
    shown-reached h zero s f = refl
    shown-reached h (suc k) s (f, e, ee, again) =
        h.1 (backoff_ms jitter k) (transaction (reached k s)).1
        ∙ h.0 (reached k s) e ee
        ∙ shown-reached h k s f

    -- Where the database rolls a failed transaction back, the retry does what the transaction does
    -- once, on the database it was given, however many attempts it took.
    pub with_optimistic_retry_once :
        IsAtomic
        → (s : S)
        → (s0 : S) × (shown s0 ≡ shown s)
          × (with_optimistic_retry view transaction sleep jitter s ≡ transaction s0)
    with_optimistic_retry_once h s =
        let (k, bound, e, failed, ends) = with_optimistic_retry-Answered s in
        (reached k s, shown-reached h k s failed, e)
