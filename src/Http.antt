-- ===== src/Http.antt =====
-- The errors that the services throw, and the actions that may throw them over a state: the
-- exceptions of @nestjs/common that the code names, with the messages it gives them, and
-- `assertFound` (src/common/utils/assert-found.ts).
use payflow_x.Prelude.{ℕ, ◌≡◌, refl, ap, ◌∙◌, String, Bool, true, false, Option, none, some}
use payflow_x.Prelude.Result.{Result, ok, err}
use payflow_x.Text.{Text}
use payflow_x.Amount.{Currency, MoneyError}

pub data Kind : Type 0 where
  bad_request unauthorized forbidden not_found conflict unprocessable too_many_requests : Kind

-- A message: a fixed text, or one of those that quote a value.
pub data Message : Type 0 where
  text : String → Message
  quoting : String → String → Message
  wallet_not_found : Currency → Message
  rate_not_found : Currency → Currency → Message
  stale_rate : Currency → Currency → Message
  pair_not_found : Currency → Currency → Message
  no_history : Currency → Currency → Message
  max_decimals : Currency → ℕ → Message
  less_than : Text → Message
  not_valid : Text → Message

-- What may be thrown: an HTTP exception, an error of money.ts, or anything else.
pub data Error : Type 0 where
  http : Kind → Message → Error
  domain : MoneyError → Error
  other : String → Error

-- An action of a service: it returns or throws, and leaves a state.
abbrev pub Action : Type 0 → Type 0 → Type 0
Action S A = S → Result Error A × S

module _ {S A : Type 0} where
  abbrev pub pure : A → Action S A
  pure a s = (ok a, s)

  abbrev pub throw : Error → Action S A
  throw e s = (err e, s)

  abbrev pub lift : Result Error A → Action S A
  lift r s = (r, s)

  abbrev pub gets : (S → A) → Action S A
  gets f s = (ok (f s), s)

  -- `assertFound(value, name)`
  abbrev pub assert_found : Option A → Message → Action S A
  assert_found none name = throw (http not_found name)
  assert_found (some a) name = pure a

infixl 5 ◌>>=◌ ◌>>◌
abbrev pub ◌>>=◌ : {S A B : Type 0} → Action S A → (A → Action S B) → Action S B
◌>>=◌ m f s = let (r, s') = m s in elim r [ ok a ↦ f a s' | err e ↦ (err e, s') ]

abbrev pub ◌>>◌ : {S A B : Type 0} → Action S A → Action S B → Action S B
m >> k = m >>= λ _. k

-- `if (c) throw e;`
abbrev pub throw_if : {S : Type 0} → Bool → Error → Action S (Unit {0})
throw_if true e = throw e
throw_if false e = pure tt

abbrev pub modify : {S : Type 0} → (S → S) → Action S (Unit {0})
modify f s = (ok tt, f s)

-- A chain that returns has returned at each step.
bind_ok_step :
    {S A B : Type 0} (r : Result Error A) (s1 : S) (f : A → Action S B) {b : B} {s' : S}
    → elim r [ ok a ↦ f a s1 | err e ↦ (err e, s1) ] ≡ (ok b, s')
    → (a : A) × (r ≡ ok a) × (f a s1 ≡ (ok b, s'))
bind_ok_step (ok a) s1 f h = (a, refl, h)
bind_ok_step (err e) s1 f h = cc

pub bind_ok :
    {S A B : Type 0} (m : Action S A) (f : A → Action S B) (s : S) {b : B} {s' : S}
    → (m >>= f) s ≡ (ok b, s')
    → (a : A) × ((m s).0 ≡ ok a) × (f a (m s).1 ≡ (ok b, s'))
bind_ok m f s h = bind_ok_step (m s).0 (m s).1 f h

-- A step that returns hands its value and its state to the next one.
pub bind_from :
    {S A B : Type 0} (m : Action S A) (f : A → Action S B) (s : S) {a : A} {s' : S}
    → m s ≡ (ok a, s')
    → (m >>= f) s ≡ f a s'
bind_from m f s h =
    ap {A = Result Error _ × _} (λ p. elim p.0 [ ok a ↦ f a p.1 | err e ↦ (err e, p.1) ]) h

-- A step that throws ends the chain.
pub bind_err :
    {S A B : Type 0} (m : Action S A) (f : A → Action S B) (s : S) {e : Error} {s' : S}
    → m s ≡ (err e, s')
    → (m >>= f) s ≡ (err e, s')
bind_err m f s h =
    ap {A = Result Error _ × _} (λ p. elim p.0 [ ok a ↦ f a p.1 | err e ↦ (err e, p.1) ]) h

-- What holds of the state after the first step and after whatever follows it holds at the end.
bind_leaves_step :
    {S A B : Type 0} (P : S → Type 0) (r : Result Error A) (s1 : S) (f : A → Action S B)
    → P s1
    → ((a : A) → r ≡ ok a → P (f a s1).1)
    → P (elim r as (λ x. Result Error B × S) [ ok a ↦ f a s1 | err e ↦ (err e, s1) ]).1
bind_leaves_step P (ok a) s1 f h k = k a refl
bind_leaves_step P (err e) s1 f h k = h

pub bind_leaves :
    {S A B : Type 0} (P : S → Type 0) (m : Action S A) (f : A → Action S B) (s : S)
    → P (m s).1
    → ((a : A) → (m s).0 ≡ ok a → P (f a (m s).1).1)
    → P ((m >>= f) s).1
bind_leaves P m f s h k = bind_leaves_step P (m s).0 (m s).1 f h k

-- `try { m } catch (e) { f(e) }`
abbrev pub catching : {S A : Type 0} → Action S A → (Error → Action S A) → Action S A
catching m f s = let (r, s') = m s in elim r [ ok a ↦ (ok a, s') | err e ↦ f e s' ]

-- `error instanceof UnauthorizedException`
abbrev pub is_unauthorized : Error → Bool
is_unauthorized (http unauthorized name) = true
is_unauthorized _ = false

pub catching_ok :
    {S A : Type 0} (m : Action S A) (f : Error → Action S A) (s : S) {a : A} {s' : S}
    → m s ≡ (ok a, s')
    → catching m f s ≡ (ok a, s')
catching_ok m f s h =
    ap {A = Result Error _ × _} (λ p. elim p.0 [ ok a ↦ (ok a, p.1) | err e ↦ f e p.1 ]) h

pub catching_err :
    {S A : Type 0} (m : Action S A) (f : Error → Action S A) (s : S) {e : Error} {s' : S}
    → m s ≡ (err e, s')
    → catching m f s ≡ f e s'
catching_err m f s h =
    ap {A = Result Error _ × _} (λ p. elim p.0 [ ok a ↦ (ok a, p.1) | err e ↦ f e p.1 ]) h

-- What returns although its errors are thrown again as others has returned by itself.
rethrowing_ok_step :
    {S A : Type 0} (g : Error → Error) (r : Result Error A) (s1 : S) {a : A} {s' : S}
    → elim r [ ok x ↦ pure x s1 | err e ↦ throw (g e) s1 ] ≡ (ok a, s')
    → (r ≡ ok a) × (s1 ≡ s')
rethrowing_ok_step g (ok x) s1 h = (ap (λ p. p.0) h, ap (λ p. p.1) h)
rethrowing_ok_step g (err e) s1 h = cc

pub rethrowing_ok :
    {S A : Type 0} (m : Action S A) (g : Error → Error) (s : S) {a : A} {s' : S}
    → catching m (λ e. throw (g e)) s ≡ (ok a, s')
    → ((m s).0 ≡ ok a) × ((m s).1 ≡ s')
rethrowing_ok m g s h = rethrowing_ok_step g (m s).0 (m s).1 h

pub pair_ext : {A B : Type 0} (p : A × B) {a : A} {b : B} → p.0 ≡ a → p.1 ≡ b → p ≡ (a, b)
pair_ext p {a = a} e e' = ap {B = _ × _} (λ x. (x, p.1)) e ∙ ap {B = _ × _} (λ y. (a, y)) e'

pub assert_found_keeps :
    {S A : Type 0} (o : Option A) (name : Message) (s : S) → (assert_found o name s).1 ≡ s
assert_found_keeps none name s = refl
assert_found_keeps (some a) name s = refl

-- What is known of the outcome of an action is known under `try`.
pub catching_from :
    {S A : Type 0} (m m' : Action S A) (f : Error → Action S A) (s s' : S)
    → m s ≡ m' s'
    → catching m f s ≡ catching m' f s'
catching_from m m' f s s' h =
    ap {A = Result Error _ × _} (λ p. elim p.0 [ ok a ↦ (ok a, p.1) | err e ↦ f e p.1 ]) h

-- What holds of the state after the action and after its handler holds at the end.
catching_leaves_step :
    {S A : Type 0} (P : S → Type 0) (r : Result Error A) (s1 : S) (f : Error → Action S A)
    → P s1
    → ((e : Error) → P (f e s1).1)
    → P (elim r as (λ x. Result Error A × S) [ ok a ↦ (ok a, s1) | err e ↦ f e s1 ]).1
catching_leaves_step P (ok a) s1 f h k = h
catching_leaves_step P (err e) s1 f h k = k e

pub catching_leaves :
    {S A : Type 0} (P : S → Type 0) (m : Action S A) (f : Error → Action S A) (s : S)
    → P (m s).1
    → ((e : Error) → P (f e (m s).1).1)
    → P (catching m f s).1
catching_leaves P m f s h k = catching_leaves_step P (m s).0 (m s).1 f h k
