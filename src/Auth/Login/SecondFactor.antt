-- ===== src/Auth/Login/SecondFactor.antt =====
-- A password alone opens no session for a user with a second factor.
use mathlib.Core.Path.{subst}
use payflow_x.Prelude.{ℕ, ◌≡◌, refl, sym, Bool, true, false, ◌⊎◌, inl, inr, Option, none, some}
use payflow_x.Prelude.Result.{Result, ok, err}
use payflow_x.Http.{Error, bind_from}
use payflow_x.Auth.{Backend, Answer, two_factor_pending}
use payflow_x.Auth.Refresh.Steps.{IsBackend}
use payflow_x.Auth.Login.{
  Login, requires_two_factor, login, login_with, login_checked, try_trusted, ask_second_factor,
  find_by_email,
}

module _ {S : Type 0} (b : Backend S) (law : IsBackend b) where
  -- The login is refused, or asks for the second factor; every session is as before.
  abbrev pub OpensNothing : S → Result Error Login × S → Type 0
  OpensNothing s r =
      (((e : Error) × (r.0 ≡ err e)) ⊎ (r.0 ≡ ok requires_two_factor))
      × ((k : ℕ) → b.sessions.find_unique k r.1 ≡ b.sessions.find_unique k s)

  login_checked-OpensNothing :
      (valid : Bool) (user : Answer) (s : S)
      → OpensNothing s (login_checked b valid true none user s)
  unfolding login_checked try_trusted ask_second_factor
  login_checked-OpensNothing true user s =
      (inr refl, λ k. law.find-set_cookie k two_factor_pending _ s)
  login_checked-OpensNothing false user s = (inl (_, refl), λ k. refl)

  login_with-OpensNothing :
      (held : Option ℕ) (password : ℕ) (user : Answer) (s : S)
      → user.1.two_factor_enabled ≡ true
      → OpensNothing s (login_with b held password none user s)
  unfolding login_with
  login_with-OpensNothing none password user s on = (inl (_, refl), λ k. refl)
  login_with-OpensNothing (some hashed) password user s on =
      subst (λ t. OpensNothing s (login_checked b (b.is_hash_of hashed password) t none user s))
        (sym on) (login_checked-OpensNothing (b.is_hash_of hashed password) user s)

  -- Where the user who is found by the e-mail has a second factor, and the request has no cookie of
  -- a trusted device, a login is refused or asks for the second factor, and every session stays as
  -- it was.
  pub login-OpensNothing :
      (email password : ℕ) (user : Answer) (s : S)
      → find_by_email b email s ≡ (ok user, s)
      → user.1.two_factor_enabled ≡ true
      → OpensNothing s (login b email password none s)
  unfolding login
  login-OpensNothing email password user s found on =
      rw
        (bind_from (find_by_email b email) (λ user. login_with b user.1.password password none user)
          s found)
        (login_with-OpensNothing user.1.password password user s on)
