-- ===== src/Auth/Recovery/Once.antt =====
-- A recovery code is good for one new password.
use mathlib.Core.Path.{subst}
use payflow_x.Prelude.{arith, Bool, true, ℕ, ◌≡◌, ◌≢◌, inr, sym, ap, ◌∙◌, refl, Option, none, some}
use payflow_x.Prelude.Result.{Result, ok, err}
use payflow_x.Http.{
  Error, Action, pure, bind_ok, bind_err, bind_leaves, catching, catching_leaves, rethrowing_ok,
  pair_ext, ◌>>=◌, ◌>>◌,
}
use payflow_x.Auth.Recovery.{
  Cache, TokenType, recovery_password, token_failed, validate_token, revoke_token, generate_token,
  recovery_ttl, send_if_found, forgot_password, verify_otp, reset_password, reset_for,
  set_and_revoke,
}
use payflow_x.Auth.Recovery.Absence.{
  Absent, IsOther, IsCache, Absent-refused, validate_leaves, revoke_leaves, generate_leaves,
  verify_leaves, reset_leaves,
}

same_user : (r : Result Error ℕ) {u v : ℕ} → r ≡ ok v → r ≡ ok u → v ≡ u
same_user r h h' = cc

module _ {S : Type 0} (c : Cache S) (held : TokenType → ℕ → S → Option ℕ)
    (find_user : ℕ → Action S ℕ) (set_password : ℕ → ℕ → Action S (Unit {0}))
    (send_code : ℕ → ℕ → Action S (Unit {0})) where
  -- What may follow in the services, but for a new code of the user; other services put no code.
  pub data Later (u : ℕ) : S → S → Type 0 where
    at_once : {s : S} → Later u s s
    validates :
        {s s' : S} (type : TokenType) (v code : ℕ)
        → Later u (validate_token c type v code s).1 s'
        → Later u s s'
    revokes :
        {s s' : S} (type : TokenType) (v : ℕ)
        → Later u (revoke_token c type v s).1 s'
        → Later u s s'
    generates :
        {s s' : S} (type : TokenType) (v ttl : ℕ)
        → IsOther c held find_user set_password send_code type v u
        → Later u (generate_token c type v ttl s).1 s'
        → Later u s s'
    verifies :
        {s s' : S} (email code : ℕ)
        → Later u (verify_otp c find_user set_password send_code email code s).1 s'
        → Later u s s'
    resets :
        {s s' : S} (email code password : ℕ)
        → Later u (reset_password c find_user set_password send_code email code password s).1 s'
        → Later u s s'
    forgets :
        {s s' : S} (email : ℕ)
        → (find_user email s).0 ≢ ok u
        → Later u (forgot_password c find_user set_password send_code email s).1 s'
        → Later u s s'
    elsewhere :
        {s s1 s' : S}
        → (Absent c held find_user set_password send_code u s
            → Absent c held find_user set_password send_code u s1)
        → Later u s1 s'
        → Later u s s'

  module _ (law : IsCache c held find_user set_password send_code) where
    abbrev Gone : ℕ → S → Type 0
    Gone u s = Absent c held find_user set_password send_code u s

    found_other :
        (email u : ℕ) (s : S)
        → (find_user email s).0 ≢ ok u
        → (v : ℕ)
        → (catching (do user_id ← find_user email; pure (some user_id)) (λ e. pure none) s).0
          ≡ ok (some v)
        → v ≢ u
    found_other email u s other v h same = other (ground (arith, h, same))

    sent_leaves :
        (email u : ℕ) (o : Option ℕ) (s : S)
        → ((v : ℕ) → o ≡ some v → v ≢ u)
        → Gone u s
        → Gone u (send_if_found c find_user set_password send_code o email s).1
    unfolding send_if_found
    sent_leaves email u none s other gone = gone
    sent_leaves email u (some v) s other gone =
        let made =
          generate_leaves c held find_user set_password send_code law recovery_password v
            recovery_ttl u s (inr (other v refl)) gone in
        bind_leaves (Gone u) (generate_token c recovery_password v recovery_ttl)
          (λ code. send_code email code) s made
          (λ code e.
            law.send_leaves email code u (generate_token c recovery_password v recovery_ttl s).1
              made)

    forget_leaves :
        (email u : ℕ) (s : S)
        → (find_user email s).0 ≢ ok u
        → Gone u s
        → Gone u (forgot_password c find_user set_password send_code email s).1
    unfolding forgot_password
    forget_leaves email u s other gone =
        let m : Action S (Option ℕ) =
          catching (do user_id ← find_user email; pure (some user_id)) (λ e. pure none) in
        let looked : Gone u (m s).1 =
          let read : Gone u
              ((do user_id ← find_user email; pure {A = Option ℕ} (some user_id)) s).1 =
            bind_leaves (Gone u) (find_user email) (λ v. pure (some v)) s
              (law.find_leaves email u s gone) (λ v e. law.find_leaves email u s gone) in
          catching_leaves (Gone u) (do user_id ← find_user email; pure (some user_id))
            (λ e. pure none) s read (λ e. read) in
        bind_leaves (Gone u) m (λ user. send_if_found c find_user set_password send_code user email)
          s looked
          (λ user e.
            sent_leaves email u user (m s).1
              (λ v is_v. found_other email u s other v (e ∙ ap ok is_v)) looked)

    stays : {u : ℕ} {s s' : S} → Later u s s' → Gone u s → Gone u s'
    stays at_once gone = gone
    stays {u} (validates {s = s} type v code l) gone =
        stays l (validate_leaves c held find_user set_password send_code law type v code u s gone)
    stays {u} (revokes {s = s} type v l) gone =
        stays l (revoke_leaves c held find_user set_password send_code law type v u s gone)
    stays {u} (generates {s = s} type v ttl other l) gone =
        stays l
          (generate_leaves c held find_user set_password send_code law type v ttl u s other gone)
    stays {u} (verifies {s = s} email code l) gone =
        stays l (verify_leaves c held find_user set_password send_code law email code u s gone)
    stays {u} (resets {s = s} email code password l) gone =
        stays l
          (reset_leaves c held find_user set_password send_code law email code password u s gone)
    stays {u} (forgets {s = s} email other l) gone = stays l (forget_leaves email u s other gone)
    stays (elsewhere keeps l) gone = stays l (keeps gone)

    revoked :
        (u : ℕ) (s : S) {b : Bool} {s' : S}
        → revoke_token c recovery_password u s ≡ (ok b, s')
        → c.del recovery_password u s ≡ (ok tt, s')
    unfolding revoke_token
    revoked u s h =
        let (done, same) =
          rethrowing_ok (c.del recovery_password u >> pure true)
            (λ e. token_failed "Failed to revoke token" recovery_password) s h in
        let (x, deleted, rest) =
          bind_ok (c.del recovery_password u) (λ x. pure true) s
            (pair_ext ((c.del recovery_password u >> pure true) s) done same) in
        pair_ext (c.del recovery_password u s) deleted (ap (λ p. p.1) rest)

    -- After a reset that returns, no recovery code of the user is held.
    reset-Gone :
        (email code password u : ℕ) (s s' : S)
        → (find_user email s).0 ≡ ok u
        → reset_password c find_user set_password send_code email code password s ≡ (ok tt, s')
        → Gone u s'
    unfolding reset_password reset_for set_and_revoke
    reset-Gone email code password u s s' found h =
        let rest : ℕ → Action S (Unit {0}) =
          reset_for c find_user set_password send_code code password in
        let (v, e1, h1) = bind_ok (find_user email) rest s h in
        let set : Action S (Unit {0}) =
          set_and_revoke c find_user set_password send_code v password in
        let (x2, e2, h2) =
          bind_ok (validate_token c recovery_password v code) (λ x. set) (find_user email s).1 h1 in
        let s2 = (validate_token c recovery_password v code (find_user email s).1).1 in
        let revoke : Action S (Unit {0}) = revoke_token c recovery_password v >> pure tt in
        let (x3, e3, h3) = bind_ok (set_password v password) (λ x. revoke) s2 h2 in
        let s3 = (set_password v password s2).1 in
        let (x4, e4, h4) = bind_ok (revoke_token c recovery_password v) (λ x. pure tt) s3 h3 in
        subst (λ w. Gone w s') (same_user (find_user email s).0 e1 found)
          (law.del_gone recovery_password v s3 s'
            (revoked v s3 (pair_ext (revoke_token c recovery_password v s3) e4 (ap (λ p. p.1) h4))))

    -- Where the cache finds only what it holds and no longer holds what it has deleted: after a reset
    -- that returns, and whatever the services do then but put a new recovery code of the user, no
    -- code that is given for the user, the same or another, is valid, and no reset with one returns
    -- or sets a password: it throws where the code is tested.
    pub reset_password_once :
        (email code password u again password' : ℕ) (s s' s'' : S)
        → (find_user email s).0 ≡ ok u
        → reset_password c find_user set_password send_code email code password s ≡ (ok tt, s')
        → Later u s' s''
        → (e : Error) × ((validate_token c recovery_password u again s'').0 ≡ err e)
          × (reset_for c find_user set_password send_code again password' u s''
              ≡ (err e, (validate_token c recovery_password u again s'').1))
    unfolding reset_for
    reset_password_once email code password u again password' s s' s'' found h later =
        let gone = stays later (reset-Gone email code password u s s' found h) in
        let (e, refused) =
          Absent-refused c held find_user set_password send_code law u again s'' gone in
        let set : Unit {0} → Action S (Unit {0}) =
          λ x. set_and_revoke c find_user set_password send_code u password' in
        (
          e,
          ap (λ p. p.0) refused,
          bind_err (validate_token c recovery_password u again) set s'' refused
              ∙ ap {B = Result Error (Unit {0}) × S} (λ t. (err e, t))
                  (sym (ap (λ p. p.1) refused)),
        )
