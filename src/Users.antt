-- ===== src/Users.antt =====
-- The users (src/modules/users/users.service.ts). E-mails and passwords are texts; the hash service
-- and the query by e-mail are parameters.
pub mod Unique
pub mod Emails
mod Tests
use payflow_x.Prelude.{ℕ, String, Bool, Option, none, some, [], ◌∷◌, or_else, or_kept}
use payflow_x.Text.{Text}
use payflow_x.Http.{bad_request, text, http, Action, pure, throw, assert_found, ◌>>=◌, ◌>>◌}
use payflow_x.Db.{Table}

-- The columns of `User` that `create` and `update` take as they are given.
pub record Details : Type 0 where
  pub name : Option String
  pub last_name : Option String
  pub avatar : Option String
  pub backup_email : Option Text
  pub phone : Option String
  pub country : Option String
  pub language : Option String
  pub email_confirm : Option Bool
  pub backup_email_confirm : Option Bool
  pub phone_confirm : Option Bool
  pub two_factor_enabled : Option Bool
  pub two_factor_secret : Option Text
  pub status : Option String
  pub auth_provider : Option String

pub record Account : Type 0 where
  pub email : Text
  pub password : Option Text
  pub details : Details

-- `CreateUserInterface` and `UpdateUserInterface`
pub record NewAccount : Type 0 where
  pub email : Text
  pub password : Option Text
  pub details : Details

pub record AccountPatch : Type 0 where
  pub email : Option Text
  pub password : Option Text
  pub details : Details

-- A field that is absent is left as it is.
abbrev pub merged : Details → Details → Details
merged dto row = record {
  name = or_kept dto.name row.name;
  last_name = or_kept dto.last_name row.last_name;
  avatar = or_kept dto.avatar row.avatar;
  backup_email = or_kept dto.backup_email row.backup_email;
  phone = or_kept dto.phone row.phone;
  country = or_kept dto.country row.country;
  language = or_kept dto.language row.language;
  email_confirm = or_kept dto.email_confirm row.email_confirm;
  backup_email_confirm = or_kept dto.backup_email_confirm row.backup_email_confirm;
  phone_confirm = or_kept dto.phone_confirm row.phone_confirm;
  two_factor_enabled = or_kept dto.two_factor_enabled row.two_factor_enabled;
  two_factor_secret = or_kept dto.two_factor_secret row.two_factor_secret;
  status = or_kept dto.status row.status;
  auth_provider = or_kept dto.auth_provider row.auth_provider;
}

-- A text that is given and not empty: the test of `if (password)` and of `if (email)`. An empty one
-- that `update` is given passes neither, and is written as it is.
abbrev pub given : Option Text → Option Text
given none = none
given (some []) = none
given (some (c ∷ t)) = some (c ∷ t)

module _ {S : Type 0} (t : Table S Account) (by_email : Text → S → Option Account)
    (fresh_id : S → ℕ) (hash : Text → S → Text) where
  unfoldable pub taken : Option Account → Action S (Unit {0})
  taken none = pure tt
  taken (some user) = throw (http bad_request (text "Email already exists"))

  -- `validateEmail`
  unfoldable pub validate_email : Text → Action S (Unit {0})
  unfolding taken
  validate_email email s = taken (by_email email s) s

  unfoldable pub hashed : Option Text → S → Option Text
  hashed none s = none
  hashed (some password) s = some (hash password s)

  -- `password && (await this.hash.hash(password))`
  unfoldable pub rehashed : Option Text → S → Option Text
  rehashed none s = none
  rehashed (some []) s = some []
  rehashed (some (c ∷ password)) s = some (hash (c ∷ password) s)

  unfoldable pub create_user : NewAccount → Action S Account
  unfolding validate_email hashed
  create_user dto = do
    validate_email dto.email
    λ s.
        t.create (fresh_id s)
          (record {
            email = dto.email;
            password = hashed (given dto.password) s;
            details = dto.details;
          })
          s

  -- `findOne({ id })`
  unfoldable pub find_user : ℕ → Action S Account
  find_user id s = assert_found (t.find_unique id s) (text "User") s

  -- `if (email) await this.validateEmail(email)`
  unfoldable pub validate_new : Option Text → Action S (Unit {0})
  unfolding validate_email
  validate_new none = pure tt
  validate_new (some email) = validate_email email

  abbrev pub patched_user : Option Text → Option Text → Details → Account → Account
  patched_user email password details row = record {
    email = or_else email row.email;
    password = or_kept password row.password;
    details = merged details row.details;
  }

  unfoldable pub update_user : ℕ → AccountPatch → Action S Account
  unfolding find_user validate_new rehashed
  update_user id dto = do
    find_user id
    validate_new (given dto.email)
    λ s. t.update id (patched_user dto.email (rehashed dto.password s) dto.details) s

  -- `updateTwoFactor`
  unfoldable pub update_two_factor : ℕ → Option Bool → Option (Option Text) → Action S (Unit {0})
  update_two_factor id enabled secret = do
    t.update id λ row. record row {
      details = record row.details {
        two_factor_enabled = or_kept enabled row.details.two_factor_enabled;
        two_factor_secret = or_else secret row.details.two_factor_secret;
      };
    }
    pure tt

  unfoldable pub delete_user : ℕ → Action S (Unit {0})
  unfolding find_user
  delete_user id = do find_user id; t.delete id; pure tt
