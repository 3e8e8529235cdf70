-- ===== src/Users/Tests.antt =====
-- Two users in a list.
use payflow_x.Prelude.{
  ℕ, ◌≡◌, ◌≢◌, refl, sym, ap, ◌∙◌, Bool, true, false, ◌&&◌, List, [], ◌∷◌, Option, none, some,
  arith, ◌==◌, if◌then◌else◌, inl, inr, ◌⊎◌,
}
use payflow_x.Text.{Text}
use payflow_x.Db.Listed.{look, list_table, list_table-IsTable}
use payflow_x.Users.{Account, Details, AccountPatch}
use payflow_x.Users.Unique.{IsUnique, FindsEmails}
use payflow_x.Users.Emails.{update_request, serve_user, serve_user-IsUnique}

abbrev same_text : Text → Text → Bool
same_text [] [] = true
same_text [] (b ∷ u) = false
same_text (a ∷ t) [] = false
same_text (a ∷ t) (b ∷ u) = (a == b) && same_text t u

same_text_refl : (t : Text) → same_text t t ≡ true
same_text_refl [] = refl
same_text_refl (a ∷ t) = ground (arith, same_text_refl t)

abbrev by_email : Text → List (ℕ × Account) → Option Account
by_email e [] = none
by_email e ((j, r) ∷ s) = let rest = by_email e s in if same_text r.email e then some r else rest

contradiction : true ≢ false
contradiction h = cc

missed :
    (e : Text) (r : Account) (rest : Option Account) (b : Bool)
    → (if b then some r else rest) ≡ none
    → (b ≡ false) × (rest ≡ none)
missed e r rest true h = absurd (cc)
missed e r rest false h = (refl, h)

first :
    (i j : ℕ) (r row : Account) (rest : Option Account) (b : Bool)
    → (if b then some r else rest) ≡ some row
    → (r ≡ row) ⊎ (rest ≡ some row)
first i j r row rest true h = inl cc
first i j r row rest false h = inr h

by_email_lem : FindsEmails list_table by_email
by_email_lem e [] h i row at same = cc
by_email_lem e ((j, r) ∷ s) h i row at same =
    let (differs, rest) = missed e r (by_email e s) (same_text r.email e) h in
    elim (first i j r row (look i s) (j == i) at) [
      | inl this ↦ contradiction (
          sym (ap (λ u. same_text u e) (ap (λ x. x.email) this ∙ same) ∙ same_text_refl e)
          ∙ differs)
      | inr later ↦ by_email_lem e s rest i row later same
    ]

abbrev plain : Details
plain = record {
  name = none;
  last_name = none;
  avatar = none;
  backup_email = none;
  phone = none;
  country = none;
  language = none;
  email_confirm = none;
  backup_email_confirm = none;
  phone_confirm = none;
  two_factor_enabled = none;
  two_factor_secret = none;
  status = none;
  auth_provider = none;
}

abbrev someone : Account
someone = record { email = 97 ∷ []; password = none; details = plain }

abbrev one : List (ℕ × Account)
one = (1, someone) ∷ []

abbrev next_key : List (ℕ × Account) → ℕ
next_key s = 2

abbrev hash : Text → List (ℕ × Account) → Text
hash t s = 35 ∷ t

only_one : (i : ℕ) (row : Account) → look i one ≡ some row → i ≡ 1
only_one i row h = ground (arith, h)

one-IsUnique : IsUnique list_table by_email one
one-IsUnique = record {
  one_key = λ i j row row' at at' same. only_one i row at ∙ sym (only_one j row' at');
}

abbrev rename : AccountPatch
rename = record { email = some (98 ∷ []); password = some (120 ∷ []); details = plain }

serve_user-IsUnique_example :
    IsUnique list_table by_email
      (serve_user list_table by_email next_key hash (update_request 1 rename) one)
serve_user-IsUnique_example =
    serve_user-IsUnique list_table by_email next_key hash list_table-IsTable by_email_lem
      (update_request 1 rename) one (λ h. cc) one-IsUnique
