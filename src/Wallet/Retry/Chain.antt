-- ===== src/Wallet/Retry/Chain.antt =====
-- Which thrown values are retried: the description over the chain of causes that the depth bound
-- of `hasRetryableCode` cuts off.
use payflow_x.Prelude.{ℕ, zero, suc, ◌≡◌, refl, ap, ◌∙◌, Bool, true, false, ◌||◌, List, [], ◌∷◌}
use payflow_x.Wallet.Retry.{
  Thrown, no_object, uncaused, self_caused, caused, SqlState, Code, own_code, has_code_within,
  has_retryable_code,
}

-- The error, its cause, the cause of that, and so on: the codes of each object.
abbrev pub chain : Thrown → List (SqlState × Code)
chain no_object = []
chain (uncaused conflict state code) = (state, code) ∷ []
chain (self_caused conflict state code) = (state, code) ∷ []
chain (caused conflict state code cause) = (state, code) ∷ chain cause

abbrev pub first_four : List (SqlState × Code) → List (SqlState × Code)
first_four (a ∷ b ∷ c ∷ d ∷ rest) = a ∷ b ∷ c ∷ d ∷ []
first_four es = es

abbrev pub any_retryable : List (SqlState × Code) → Bool
any_retryable [] = false
any_retryable ((state, code) ∷ es) = own_code state code || any_retryable es

abbrev cut : ℕ → List (SqlState × Code) → List (SqlState × Code)
cut zero es = []
cut (suc n) [] = []
cut (suc n) (e ∷ es) = e ∷ cut n es

last_code : (b : Bool) (n : ℕ) → b ≡ (b || any_retryable (cut n []))
last_code true n = refl
last_code false zero = refl
last_code false (suc n) = refl

within-cut : (n : ℕ) (e : Thrown) → has_code_within n e ≡ any_retryable (cut n (chain e))
unfolding has_code_within
within-cut zero e = refl
within-cut (suc n) no_object = refl
within-cut (suc n) (uncaused c s k) = last_code (own_code s k) n
within-cut (suc n) (self_caused c s k) = last_code (own_code s k) n
within-cut (suc n) (caused c s k cause) = ap (λ x. own_code s k || x) (within-cut n cause)

cut-first_four : (es : List (SqlState × Code)) → cut 4 es ≡ first_four es
cut-first_four [] = refl
cut-first_four (a ∷ []) = refl
cut-first_four (a ∷ b ∷ []) = refl
cut-first_four (a ∷ b ∷ c ∷ []) = refl
cut-first_four (a ∷ b ∷ c ∷ d ∷ es) = refl

-- A code is found exactly if the error or one of the next three in its chain of causes has a
-- retryable SQL state or Prisma code; deeper causes are not seen, and an error that is its own
-- cause ends the chain.
pub has_retryable_code-chain :
    (e : Thrown) → has_retryable_code e ≡ any_retryable (first_four (chain e))
unfolding has_retryable_code
has_retryable_code-chain e = within-cut 4 e ∙ ap any_retryable (cut-first_four (chain e))
