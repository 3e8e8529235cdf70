-- ===== src/Users/Emails.antt =====
-- What the requests on the users keep of their e-mails.
use payflow_x.Prelude.{
  or_else, or_kept, ℕ, ◌≡◌, ◌≢◌, refl, ap, Bool, Option, none, some, [], ◌∷◌, Option-cases, inl,
  inr,
}
use payflow_x.Text.{Text}
use payflow_x.Http.{text, Action, pure, assert_found, bind_leaves, ◌>>◌}
use payflow_x.Db.{Table, IsTable}
use payflow_x.Users.{
  Account, NewAccount, AccountPatch, Details, given, hashed, rehashed, taken, validate_email,
  validate_new, create_user, find_user, update_user, update_two_factor, delete_user, patched_user,
}
use payflow_x.Users.Unique.{
  IsUnique, FindsEmails, leaves, create-IsUnique, update-IsUnique, same_email, delete-IsUnique,
}

-- A request on the users.
pub data UserRequest : Type 0 where
  create_request : NewAccount → UserRequest
  update_request : ℕ → AccountPatch → UserRequest
  two_factor_request : ℕ → Option Bool → Option (Option Text) → UserRequest
  delete_request : ℕ → UserRequest

-- What the pattern of the requests excludes: an update to the empty e-mail.
abbrev pub HasEmail : UserRequest → Type 0
HasEmail (update_request id dto) = dto.email ≢ some []
HasEmail _ = Unit

module _ {S : Type 0} (t : Table S Account) (by_email : Text → S → Option Account)
    (fresh_id : S → ℕ) (hash : Text → S → Text) where
  abbrev pub serve_user : UserRequest → S → S
  serve_user (create_request dto) s = (create_user t by_email fresh_id hash dto s).1
  serve_user (update_request id dto) s = (update_user t by_email fresh_id hash id dto s).1
  serve_user (two_factor_request id enabled secret) s =
      (update_two_factor t by_email fresh_id hash id enabled secret s).1
  serve_user (delete_request id) s = (delete_user t by_email fresh_id hash id s).1

module _ {S : Type 0} (t : Table S Account) (by_email : Text → S → Option Account)
    (fresh_id : S → ℕ) (hash : Text → S → Text) (law : IsTable t)
    (finds : FindsEmails t by_email) where
  -- The step after the e-mail is checked runs where no row has it; else nothing happens.
  validated-IsUnique :
      {A : Type 0} (e : Text) (next : Action S A) (s : S)
      → IsUnique t by_email s
      → (by_email e s ≡ none → IsUnique t by_email (next s).1)
      → IsUnique t by_email ((validate_email t by_email fresh_id hash e >> next) s).1
  unfolding validate_email taken
  validated-IsUnique e next s unique h = elim (Option-cases (by_email e s)) [
    | inl free ↦
        leaves t by_email fresh_id hash law finds s
          (ap (λ o. (taken t by_email fresh_id hash o >> next) s) free) (h free)
    | inr (x, used) ↦
        leaves t by_email fresh_id hash law finds s
          (ap (λ o. (taken t by_email fresh_id hash o >> next) s) used) unique
  ]

  found-IsUnique :
      {A : Type 0} (id : ℕ) (next : Action S A) (s : S)
      → IsUnique t by_email s
      → ((row : Account) → t.find_unique id s ≡ some row → IsUnique t by_email (next s).1)
      → IsUnique t by_email ((find_user t by_email fresh_id hash id >> next) s).1
  unfolding find_user
  found-IsUnique id next s unique h = elim (Option-cases (t.find_unique id s)) [
    | inl missing ↦
        leaves t by_email fresh_id hash law finds s
          (ap (λ o. (assert_found o (text "User") >> next) s) missing) unique
    | inr (row, found) ↦
        leaves t by_email fresh_id hash law finds s
          (ap (λ o. (assert_found o (text "User") >> next) s) found) (h row found)
  ]

  abbrev new_account : NewAccount → S → Account
  new_account dto s = record {
    email = dto.email;
    password = hashed t by_email fresh_id hash (given dto.password) s;
    details = dto.details;
  }

  abbrev patch : Option Text → Option Text → Details → S → Account → Account
  patch email password details s =
      patched_user t by_email fresh_id hash email (rehashed t by_email fresh_id hash password s)
        details

  abbrev write_patch : ℕ → Option Text → Option Text → Details → Action S Account
  write_patch id email password details s = t.update id (patch email password details s) s

  patch-IsUnique :
      (id : ℕ) (email password : Option Text) (details : Details) (s : S) (row : Account)
      → t.find_unique id s ≡ some row
      → email ≢ some []
      → IsUnique t by_email s
      → IsUnique t by_email
          ((validate_new t by_email fresh_id hash (given email)
              >> write_patch id email password details)
            s).1
  unfolding validate_new
  patch-IsUnique id none password details s row found h unique =
      update-IsUnique t by_email fresh_id hash law finds id (patch none password details s) s row
        found (same_email t by_email fresh_id hash law finds id s row found unique) unique
  patch-IsUnique id (some []) password details s row found h unique = absurd (h refl)
  patch-IsUnique id (some (c ∷ e)) password details s row found h unique =
      validated-IsUnique (c ∷ e) (write_patch id (some (c ∷ e)) password details) s unique λ free.
        update-IsUnique t by_email fresh_id hash law finds id
          (patch (some (c ∷ e)) password details s) s row found
          (λ j row' at _. finds (c ∷ e) s free j row' at) unique

  unfoldable set_two_factor : Option Bool → Option (Option Text) → Account → Account
  set_two_factor enabled secret row = record row {
    details = record row.details {
      two_factor_enabled = or_kept enabled row.details.two_factor_enabled;
      two_factor_secret = or_else secret row.details.two_factor_secret;
    };
  }

  two_factor-IsUnique :
      (id : ℕ) (enabled : Option Bool) (secret : Option (Option Text)) (s : S)
      → IsUnique t by_email s
      → IsUnique t by_email (t.update id (set_two_factor enabled secret) s).1
  unfolding set_two_factor
  two_factor-IsUnique id enabled secret s unique = elim (Option-cases (t.find_unique id s)) [
    | inl missing ↦
        let (e, done) = law.update_missing id (set_two_factor enabled secret) s missing in
        leaves t by_email fresh_id hash law finds s done unique
    | inr (row, found) ↦
        update-IsUnique t by_email fresh_id hash law finds id (set_two_factor enabled secret) s row
          found (same_email t by_email fresh_id hash law finds id s row found unique) unique
  ]

  -- If no two users have the same e-mail, that is so after any request, except an update to the
  -- empty e-mail, whatever comes of it.
  pub serve_user-IsUnique :
      (request : UserRequest) (s : S)
      → HasEmail request
      → IsUnique t by_email s
      → IsUnique t by_email (serve_user t by_email fresh_id hash request s)
  unfolding create_user update_user update_two_factor delete_user set_two_factor
  serve_user-IsUnique (create_request dto) s h unique =
      validated-IsUnique dto.email (λ s'. t.create (fresh_id s') (new_account dto s') s') s unique
        λ free.
          create-IsUnique t by_email fresh_id hash law finds (fresh_id s) (new_account dto s) s free
            unique
  serve_user-IsUnique (update_request id dto) s h unique =
      found-IsUnique id
        (validate_new t by_email fresh_id hash (given dto.email)
          >> write_patch id dto.email dto.password dto.details)
        s unique
        λ row found. patch-IsUnique id dto.email dto.password dto.details s row found h unique
  serve_user-IsUnique (two_factor_request id enabled secret) s h unique =
      bind_leaves (IsUnique t by_email) (t.update id (set_two_factor enabled secret)) (λ _. pure tt)
        s (two_factor-IsUnique id enabled secret s unique)
        λ _ _. two_factor-IsUnique id enabled secret s unique
  serve_user-IsUnique (delete_request id) s h unique =
      found-IsUnique id (t.delete id >> pure tt) s unique λ row found.
        bind_leaves (IsUnique t by_email) (t.delete id) (λ _. pure tt) s
          (delete-IsUnique t by_email fresh_id hash law finds id s row found unique)
          λ _ _. delete-IsUnique t by_email fresh_id hash law finds id s row found unique
