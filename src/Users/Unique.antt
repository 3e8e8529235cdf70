-- ===== src/Users/Unique.antt =====
-- That no two accounts have the same e-mail, and the writes that keep it so.
use mathlib.Core.Path.{subst}
use payflow_x.Prelude.{
  ℕ, ◌≡◌, ◌≢◌, sym, ap, ◌∙◌, true, false, Option, none, some, ◌==◌, ==_iff, if◌then◌else◌,
  Bool-cases, Option-cases, inl, inr,
}
use payflow_x.Prelude.Result.{Result}
use payflow_x.Text.{Text}
use payflow_x.Http.{Error}
use payflow_x.Db.{Table, IsTable, Writes}
use payflow_x.Users.{Account}

true_ne_false : true ≢ false
true_ne_false h = cc

no_account : {x : Account} → none ≢ some x
no_account h = cc

same_account : {A : Type 0} {o : Option A} {x y : A} → o ≡ some x → o ≡ some y → x ≡ y
same_account h h' = cc

module _ {S : Type 0} (t : Table S Account) (by_email : Text → S → Option Account) where
  pub record IsUnique (s : S) : Type 0 where
    pub one_key :
        (i j : ℕ) (row row' : Account)
        → t.find_unique i s ≡ some row
        → t.find_unique j s ≡ some row'
        → row.email ≡ row'.email
        → i ≡ j

  -- What the query by e-mail promises: it finds a row if there is one.
  abbrev pub FindsEmails : Type 0
  FindsEmails =
      (e : Text) (s : S)
      → by_email e s ≡ none
      → (i : ℕ) (row : Account) → t.find_unique i s ≡ some row
      → row.email ≢ e

  -- A row whose e-mail no other row has may be written.
  put-IsUnique :
      (k : ℕ) (r : Account) (s s' : S)
      → Writes t k (some r) s s'
      → ((j : ℕ) (row : Account)
          → t.find_unique j s ≡ some row
          → (k == j) ≡ false
          → row.email ≢ r.email)
      → IsUnique s
      → IsUnique s'
  put-IsUnique k r s s' writes fresh unique = record {
    one_key = λ i j row row' at at' same.
        let own : (n : ℕ) → (k == n) ≡ true → t.find_unique n s' ≡ some r =
          λ n e. writes n ∙ ap (λ b. if b then some r else t.find_unique n s) e in
        let old : (n : ℕ) → (k == n) ≡ false → t.find_unique n s ≡ t.find_unique n s' =
          λ n e. sym (writes n ∙ ap (λ b. if b then some r else t.find_unique n s) e) in
        elim (Bool-cases (k == i)) [
          | inl e ↦ elim (Bool-cases (k == j)) [
            | inl e' ↦ sym ((==_iff k i).0 e) ∙ (==_iff k j).0 e'
            | inr e' ↦ absurd (
                fresh j row' (old j e' ∙ at') e'
                  (sym same ∙ ap (λ x. x.email) (same_account at (own i e))))
          ]
          | inr e ↦ elim (Bool-cases (k == j)) [
            | inl e' ↦ absurd (
                fresh i row (old i e ∙ at) e
                  (same ∙ ap (λ x. x.email) (same_account at' (own j e'))))
            | inr e' ↦ unique.one_key i j row row' (old i e ∙ at) (old j e' ∙ at') same
          ]
        ];
  }

  kept_at :
      (k n : ℕ) (s s' : S) (row : Account)
      → Writes t k none s s'
      → t.find_unique n s' ≡ some row
      → t.find_unique n s ≡ some row
  kept_at k n s s' row writes at = elim (Bool-cases (k == n)) [
    | inl e ↦
        absurd
          (no_account (sym (writes n ∙ ap (λ b. if b then none else t.find_unique n s) e) ∙ at))
    | inr e ↦ sym (writes n ∙ ap (λ b. if b then none else t.find_unique n s) e) ∙ at
  ]

  module _ (fresh_id : S → ℕ) (hash : Text → S → Text) (law : IsTable t) (finds : FindsEmails) where
    pub leaves :
        {A : Type 0} (s : S) {r r' : Result Error A × S} → r ≡ r' → IsUnique r'.1 → IsUnique r.1
    leaves s e h = subst (λ x. IsUnique x.1) (sym e) h

    pub create-IsUnique :
        (k : ℕ) (r : Account) (s : S)
        → by_email r.email s ≡ none
        → IsUnique s
        → IsUnique (t.create k r s).1
    create-IsUnique k r s new unique = elim (Option-cases (t.find_unique k s)) [
      | inl free ↦
          let (s', done, writes) = law.create_new k r s free in
          leaves s done
            (put-IsUnique k r s s' writes (λ j row at e. finds r.email s new j row at) unique)
      | inr (x, used) ↦ let (e, done) = law.create_taken k r x s used in leaves s done unique
    ]

    -- An update that keeps the e-mail, or takes one that no row has.
    pub update-IsUnique :
        (id : ℕ) (f : Account → Account) (s : S) (row : Account)
        → t.find_unique id s ≡ some row
        → ((j : ℕ) (row' : Account)
            → t.find_unique j s ≡ some row'
            → (id == j) ≡ false
            → row'.email ≢ (f row).email)
        → IsUnique s
        → IsUnique (t.update id f s).1
    update-IsUnique id f s row found fresh unique =
        let (s', done, writes) = law.update_found id f row s found in
        leaves s done (put-IsUnique id (f row) s s' writes fresh unique)

    pub same_email :
        (id : ℕ) (s : S) (row : Account)
        → t.find_unique id s ≡ some row
        → IsUnique s
        → (j : ℕ) (row' : Account) → t.find_unique j s ≡ some row'
        → (id == j) ≡ false
        → row'.email ≢ row.email
    same_email id s row found unique j row' at e same =
        true_ne_false (sym ((==_iff id j).1 (sym (unique.one_key j id row' row at found same))) ∙ e)

    pub delete-IsUnique :
        (id : ℕ) (s : S) (row : Account)
        → t.find_unique id s ≡ some row
        → IsUnique s
        → IsUnique (t.delete id s).1
    delete-IsUnique id s row found unique =
        let (s', done, writes) = law.delete_found id row s found in
        leaves s done (record {
          one_key = λ i j r r' at at' same.
              unique.one_key i j r r' (kept_at id i s s' r writes at)
                (kept_at id j s s' r' writes at') same;
        })
