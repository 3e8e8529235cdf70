-- ===== src/Auth/Recovery/Absence.antt =====
-- What refuses a recovery code of a user for whom none is held, and what brings none.
use mathlib.Core.Path.{subst}
use payflow_x.Prelude.{
  ℕ, ◌≡◌, ◌≢◌, ◌⊎◌, inl, inr, refl, sym, ap, ◌∙◌, Bool, true, false, not, Option, none, some,
}
use payflow_x.Prelude.Result.{ok, err, Result-cases}
use payflow_x.Http.{
  Error, Action, pure, throw, bind_from, bind_err, bind_leaves, catching_err, catching_leaves,
  pair_ext, is_unauthorized, throw_if, ◌>>◌,
}
use payflow_x.Auth.Recovery.{
  Cache, TokenType, recovery_password, token_failed, is_token, validate_body, validate_token,
  validation_error, revoke_token, generate_token, random_token, verify_otp, reset_password,
  reset_for, set_and_revoke, invalid_or_expired,
}

module _ {S : Type 0} (c : Cache S) (held : TokenType → ℕ → S → Option ℕ)
    (find_user : ℕ → Action S ℕ) (set_password : ℕ → ℕ → Action S (Unit {0}))
    (send_code : ℕ → ℕ → Action S (Unit {0})) where
  -- No recovery code of the user is held.
  abbrev pub Absent : ℕ → S → Type 0
  Absent u s = held recovery_password u s ≡ none

  abbrev pub IsOther : TokenType → ℕ → ℕ → Type 0
  IsOther type v u = (type ≢ recovery_password) ⊎ (v ≢ u)

  -- What the cache finds it holds, what it has deleted it does not hold, and only a `set` under a key
  -- brings a token there; the users and the e-mails bring none.
  pub record IsCache : Type 0 where
    pub get_held :
        (type : TokenType) (u x : ℕ) (s s' : S)
        → c.get type u s ≡ (ok (some x), s')
        → held type u s ≡ some x
    pub del_gone :
        (type : TokenType) (u : ℕ) (s s' : S) → c.del type u s ≡ (ok tt, s') → held type u s' ≡ none
    pub get_leaves : (type : TokenType) (v u : ℕ) (s : S) → Absent u s → Absent u (c.get type v s).1
    pub del_leaves : (type : TokenType) (v u : ℕ) (s : S) → Absent u s → Absent u (c.del type v s).1
    pub set_leaves :
        (type : TokenType) (v token ttl u : ℕ) (s : S)
        → IsOther type v u
        → Absent u s
        → Absent u (c.set type v token ttl s).1
    pub find_leaves : (email u : ℕ) (s : S) → Absent u s → Absent u (find_user email s).1
    pub password_leaves :
        (v password u : ℕ) (s : S) → Absent u s → Absent u (set_password v password s).1
    pub send_leaves : (email code u : ℕ) (s : S) → Absent u s → Absent u (send_code email code s).1

  validation_throws :
      (type : TokenType) (b : Bool) (e : Error) (s : S)
      → (e' : Error) × (validation_error c type b e s ≡ (err e', s))
  unfolding validation_error
  validation_throws type true e s = (e, refl)
  validation_throws type false e s = (token_failed "Failed to validate token" type, refl)

  module _ (law : IsCache) where
    get_refused :
        (u code : ℕ) (s : S) (o : Option ℕ)
        → Absent u s
        → c.get recovery_password u s ≡ (ok o, (c.get recovery_password u s).1)
        → validate_body c recovery_password u code s
          ≡ (err invalid_or_expired, (c.get recovery_password u s).1)
    unfolding validate_body is_token
    get_refused u code s none gone got =
        bind_from (c.get recovery_password u)
          (λ payload. throw_if (not (is_token payload code)) invalid_or_expired) s got
    get_refused u code s (some x) gone got =
        absurd (missing (sym gone ∙ law.get_held recovery_password u x s _ got))
      where
        missing : {x : ℕ} → none ≡ some x → ⊥
        missing h = cc

    -- A code of a user for whom none is held is refused, and so is a reset before it sets a password.
    body_refused :
        (u code : ℕ) (s : S)
        → Absent u s
        → (e : Error) × (validate_body c recovery_password u code s
            ≡ (err e, (c.get recovery_password u s).1))
    unfolding validate_body
    body_refused u code s gone = elim (Result-cases (c.get recovery_password u s).0) [
      | inl (o, got) ↦ (
        invalid_or_expired,
        get_refused u code s o gone (pair_ext (c.get recovery_password u s) got refl),
      )
      | inr (e, failed) ↦ (
        e,
        bind_err (c.get recovery_password u)
            (λ payload. throw_if (not (is_token payload code)) invalid_or_expired) s
            (pair_ext (c.get recovery_password u s) failed refl),
      )
    ]

    pub Absent-refused :
        (u code : ℕ) (s : S)
        → Absent u s
        → (e : Error) × (validate_token c recovery_password u code s
            ≡ (err e, (c.get recovery_password u s).1))
    unfolding validate_token
    Absent-refused u code s gone =
        let (e, refused) = body_refused u code s gone in
        let (e', thrown) =
          validation_throws recovery_password (is_unauthorized e) e
            (c.get recovery_password u s).1 in
        (
          e',
          catching_err (validate_body c recovery_password u code)
                (λ e. validation_error c recovery_password (is_unauthorized e) e) s refused
              ∙ thrown,
        )

    pub validate_leaves :
        (type : TokenType) (v code u : ℕ) (s : S)
        → Absent u s
        → Absent u (validate_token c type v code s).1
    unfolding validate_token validate_body
    validate_leaves type v code u s gone =
        let handler : Error → Action S (Unit {0}) =
          λ e. validation_error c type (is_unauthorized e) e in
        let read : Absent u (validate_body c type v code s).1 =
          bind_leaves (Absent u) (c.get type v)
            (λ payload. throw_if (not (is_token payload code)) invalid_or_expired) s
            (law.get_leaves type v u s gone)
            (λ o e. throw_leaves (not (is_token o code)) u _ (law.get_leaves type v u s gone)) in
        catching_leaves (Absent u) (validate_body c type v code) handler s read (λ e.
          let (e', thrown) =
            validation_throws type (is_unauthorized e) e (validate_body c type v code s).1 in
          subst (Absent u) (sym (ap (λ p. p.1) thrown)) read)
      where
        throw_leaves :
            (b : Bool) (u : ℕ) (s : S) → Absent u s → Absent u (throw_if b invalid_or_expired s).1
        throw_leaves true u s gone = gone
        throw_leaves false u s gone = gone

    pub revoke_leaves :
        (type : TokenType) (v u : ℕ) (s : S) → Absent u s → Absent u (revoke_token c type v s).1
    unfolding revoke_token
    revoke_leaves type v u s gone =
        let deleted : Absent u ((c.del type v >> pure true) s).1 =
          bind_leaves (Absent u) (c.del type v) (λ x. pure true) s (law.del_leaves type v u s gone)
            (λ x e. law.del_leaves type v u s gone) in
        catching_leaves (Absent u) (c.del type v >> pure true)
          (λ e. throw (token_failed "Failed to revoke token" type)) s deleted (λ e. deleted)

    pub generate_leaves :
        (type : TokenType) (v ttl u : ℕ) (s : S)
        → IsOther type v u
        → Absent u s
        → Absent u (generate_token c type v ttl s).1
    unfolding generate_token
    generate_leaves type v ttl u s other gone =
        let token = random_token (c.random s) in
        let put : Absent u ((c.set type v token ttl >> pure token) s).1 =
          bind_leaves (Absent u) (c.set type v token ttl) (λ x. pure token) s
            (law.set_leaves type v token ttl u s other gone)
            (λ x e. law.set_leaves type v token ttl u s other gone) in
        catching_leaves (Absent u) (c.set type v token ttl >> pure token)
          (λ e. throw (token_failed "Failed to generate token" type)) s put (λ e. put)

    pub verify_leaves :
        (email code u : ℕ) (s : S)
        → Absent u s
        → Absent u (verify_otp c find_user set_password send_code email code s).1
    unfolding verify_otp
    verify_leaves email code u s gone =
        bind_leaves (Absent u) (find_user email)
          (λ v. validate_token c recovery_password v code >> pure true) s
          (law.find_leaves email u s gone)
          (λ v e.
            let s1 = (find_user email s).1 in
            let found = law.find_leaves email u s gone in
            bind_leaves (Absent u) (validate_token c recovery_password v code) (λ x. pure true) s1
              (validate_leaves recovery_password v code u s1 found)
              (λ x e'. validate_leaves recovery_password v code u s1 found))

    set_and_revoke_leaves :
        (v password u : ℕ) (s : S)
        → Absent u s
        → Absent u (set_and_revoke c find_user set_password send_code v password s).1
    unfolding set_and_revoke
    set_and_revoke_leaves v password u s gone =
        bind_leaves (Absent u) (set_password v password)
          (λ x. revoke_token c recovery_password v >> pure tt) s
          (law.password_leaves v password u s gone)
          (λ x e.
            let s1 = (set_password v password s).1 in
            let set = law.password_leaves v password u s gone in
            bind_leaves (Absent u) (revoke_token c recovery_password v) (λ x. pure tt) s1
              (revoke_leaves recovery_password v u s1 set)
              (λ x e'. revoke_leaves recovery_password v u s1 set))

    pub reset_leaves :
        (email code password u : ℕ) (s : S)
        → Absent u s
        → Absent u (reset_password c find_user set_password send_code email code password s).1
    unfolding reset_password reset_for
    reset_leaves email code password u s gone =
        bind_leaves (Absent u) (find_user email)
          (reset_for c find_user set_password send_code code password) s
          (law.find_leaves email u s gone)
          (λ v e.
            let s1 = (find_user email s).1 in
            let good =
              validate_leaves recovery_password v code u s1 (law.find_leaves email u s gone) in
            bind_leaves (Absent u) (validate_token c recovery_password v code)
              (λ x. set_and_revoke c find_user set_password send_code v password) s1 good
              (λ x e'. set_and_revoke_leaves v password u _ good))
