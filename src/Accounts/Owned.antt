-- ===== src/Accounts/Owned.antt =====
-- Rows with an owner: the queries by key and owner, and that what is done to a user's own row
-- leaves the rows of the other users alone.
use mathlib.Core.Path.{subst}
use payflow_x.Prelude.{
  ℕ, ◌≡◌, refl, sym, ap, ◌∙◌, Bool, ◌==◌, ==_iff, Option, none, some, Option-cases, Bool-cases, inl,
  inr, arith, if◌then◌else◌,
}
use payflow_x.Prelude.Result.{Result}
use payflow_x.Http.{Error, Message, Action, assert_found, ◌>>=◌}
use payflow_x.Db.{Table, IsTable, Writes}

module _ {S Row : Type 0} (t : Table S Row) (owner : Row → ℕ) where
  -- `where: { id, userId }`
  unfoldable pub own_only : ℕ → Option Row → Option Row
  own_only user_id none = none
  own_only user_id (some row) = if owner row == user_id then some row else none

  unfoldable pub find_own : ℕ → ℕ → S → Option Row
  unfolding own_only
  find_own user_id id s = own_only user_id (t.find_unique id s)

  own_row : (u : ℕ) (r : Row) {row : Row} → some r ≡ some row → owner r ≡ u → owner row ≡ u
  own_row u r same is_own = ap (λ o. elim o [ some x ↦ owner x | none ↦ u ]) (sym same) ∙ is_own

  -- A row that a query by key and owner finds is there, and is the user's.
  own_only_found :
      (u : ℕ) (o : Option Row) {row : Row}
      → own_only u o ≡ some row
      → (o ≡ some row) × (owner row ≡ u)
  unfolding own_only
  own_only_found u none h = cc
  own_only_found u (some r) h = elim (Bool-cases (owner r == u)) [
    | inl e ↦
        let same : some r ≡ some _ = sym (ap (λ b. if b then some r else none) e) ∙ h in
        (same, own_row u r same ((==_iff (owner r) u).0 e))
    | inr e ↦ absurd (ground (arith, e, h))
  ]

  pub find_own_found :
      (u id : ℕ) (s : S) {row : Row}
      → find_own u id s ≡ some row
      → (t.find_unique id s ≡ some row) × (owner row ≡ u)
  unfolding find_own
  find_own_found u id s h = own_only_found u (t.find_unique id s) h

  -- What is there of other users.
  abbrev pub others : ℕ → Option Row → Option Row
  others u none = none
  others u (some row) = if owner row == u then none else some row

  others_own : (u : ℕ) (row : Row) → owner row ≡ u → others u (some row) ≡ none
  others_own u row is_own = ap (λ b. if b then none else some row) ((==_iff (owner row) u).1 is_own)

  -- Under every key, the other users have the same row as before, or again none.
  abbrev pub SparesOthers : ℕ → S → S → Type 0
  SparesOthers u s s' = (j : ℕ) → others u (t.find_unique j s') ≡ others u (t.find_unique j s)

  -- `findFirst` by key and owner, with `assertFound`.
  unfoldable pub own : ℕ → ℕ → Message → Action S Row
  unfolding find_own
  own user_id id name s = assert_found (find_own user_id id s) name s

  unchanged-SparesOthers : (u : ℕ) (s : S) → SparesOthers u s s
  unchanged-SparesOthers u s j = refl

  -- A write under a key that holds no row of another user, and gives that key to none.
  Writes-SparesOthers :
      (u k : ℕ) (o : Option Row) (s s' : S)
      → others u (t.find_unique k s) ≡ none
      → others u o ≡ none
      → Writes t k o s s'
      → SparesOthers u s s'
  Writes-SparesOthers u k o s s' before after writes j = elim (Bool-cases (k == j)) [
    | inl e ↦
        ap (others u) (writes j ∙ ap (λ b. if b then o else t.find_unique j s) e)
        ∙ after
        ∙ sym before
        ∙ ap (λ i. others u (t.find_unique i s)) ((==_iff k j).0 e)
    | inr e ↦ ap (others u) (writes j ∙ ap (λ b. if b then o else t.find_unique j s) e)
  ]

  module _ (law : IsTable t) where
    spared :
        (u : ℕ) (s : S) {A : Type 0} {r r' : Result Error A × S}
        → r ≡ r'
        → SparesOthers u s r'.1
        → SparesOthers u s r.1
    spared u s e h = subst (λ x. SparesOthers u s x.1) (sym e) h

    pub update_spares :
        (u id : ℕ) (f : Row → Row) (s : S) (row : Row)
        → t.find_unique id s ≡ some row
        → owner row ≡ u
        → owner (f row) ≡ u
        → SparesOthers u s (t.update id f s).1
    update_spares u id f s row found own kept =
        let (s', done, writes) = law.update_found id f row s found in
        spared u s done (
          Writes-SparesOthers u id (some (f row)) s s' (ap (others u) found ∙ others_own u row own)
            (others_own u (f row) kept) writes)

    pub delete_spares :
        (u id : ℕ) (s : S) (row : Row)
        → t.find_unique id s ≡ some row
        → owner row ≡ u
        → SparesOthers u s (t.delete id s).1
    delete_spares u id s row found own =
        let (s', done, writes) = law.delete_found id row s found in
        spared u s done (
          Writes-SparesOthers u id none s s' (ap (others u) found ∙ others_own u row own) refl
            writes)

    pub create_spares :
        (u id : ℕ) (row : Row) (s : S) → owner row ≡ u → SparesOthers u s (t.create id row s).1
    create_spares u id row s own = elim (Option-cases (t.find_unique id s)) [
      | inl free ↦
          let (s', done, writes) = law.create_new id row s free in
          spared u s done (
            Writes-SparesOthers u id (some row) s s' (ap (others u) free) (others_own u row own)
              writes)
      | inr (x, taken) ↦
          let (e, done) = law.create_taken id row x s taken in
          spared u s done (unchanged-SparesOthers u s)
    ]

    -- What follows such a query is done to a row of the user; where none is found, nothing is.
    pub own_spares :
        {A : Type 0} (u id : ℕ) (name : Message) (next : Row → Action S A) (s : S)
        → ((row : Row)
            → t.find_unique id s ≡ some row
            → owner row ≡ u
            → SparesOthers u s (next row s).1)
        → SparesOthers u s ((own u id name >>= next) s).1
    unfolding own
    own_spares u id name next s h = elim (Option-cases (find_own u id s)) [
      | inl missing ↦
          spared u s (ap (λ o. (assert_found o name >>= next) s) missing)
            (unchanged-SparesOthers u s)
      | inr (row, found) ↦
          let (at, is_own) = find_own_found u id s found in
          spared u s (ap (λ o. (assert_found o name >>= next) s) found) (h row at is_own)
    ]

  -- Where the user's row is there, the query hands it on.
  pub own_found :
      {A : Type 0} (u id : ℕ) (name : Message) (next : Row → Action S A) (s : S) (row : Row)
      → t.find_unique id s ≡ some row
      → owner row ≡ u
      → (own u id name >>= next) s ≡ next row s
  unfolding own find_own own_only
  own_found u id name next s row found is_own =
      ap (λ o. (assert_found (own_only u o) name >>= next) s) found
      ∙ ap (λ (b : Bool). (assert_found (if b then some row else none) name >>= next) s)
          ((==_iff (owner row) u).1 is_own)
