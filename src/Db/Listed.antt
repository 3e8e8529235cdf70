-- ===== src/Db/Listed.antt =====
-- A client that keeps its rows in a list: an instance that keeps the promises of `IsTable`.
use payflow_x.Prelude.{ℕ, ◌≡◌, refl, Option, none, some, List, [], ◌∷◌, arith, ◌==◌, if◌then◌else◌}
use payflow_x.Prelude.Result.{ok, err}
use payflow_x.Http.{other, Action}
use payflow_x.Db.{Table, IsTable}

module _ {Row : Type 0} where
  abbrev pub look : ℕ → List (ℕ × Row) → Option Row
  look k [] = none
  look k ((j, r) ∷ s) = if j == k then some r else look k s

  abbrev pub without : ℕ → List (ℕ × Row) → List (ℕ × Row)
  without k [] = []
  without k ((j, r) ∷ s) = let rest = without k s in if j == k then rest else (j, r) ∷ rest

  create_at : Option Row → ℕ → Row → Action (List (ℕ × Row)) Row
  create_at none k r s = (ok r, (k, r) ∷ s)
  create_at (some x) k r s = (err (other "P2002"), s)

  update_at : Option Row → ℕ → (Row → Row) → Action (List (ℕ × Row)) Row
  update_at none k f s = (err (other "P2025"), s)
  update_at (some r) k f s = (ok (f r), (k, f r) ∷ without k s)

  delete_at : Option Row → ℕ → Action (List (ℕ × Row)) Row
  delete_at none k s = (err (other "P2025"), s)
  delete_at (some r) k s = (ok r, without k s)

  unfoldable pub list_create : ℕ → Row → Action (List (ℕ × Row)) Row
  unfolding create_at
  list_create k r s = create_at (look k s) k r s

  unfoldable pub list_update : ℕ → (Row → Row) → Action (List (ℕ × Row)) Row
  unfolding update_at
  list_update k f s = update_at (look k s) k f s

  unfoldable pub list_delete : ℕ → Action (List (ℕ × Row)) Row
  unfolding delete_at
  list_delete k s = delete_at (look k s) k s

  abbrev pub list_table : Table (List (ℕ × Row)) Row
  list_table = record {
    find_unique = look;
    create = list_create;
    update = list_update;
    delete = list_delete;
  }

  look-without :
      (k j : ℕ) (s : List (ℕ × Row)) → look j (without k s) ≡ (if k == j then none else look j s)
  look-without k j [] = ground arith
  look-without k j ((i, r) ∷ s) = ground (arith, look-without k j s)

  pub list_table-IsTable : IsTable list_table
  unfolding list_create list_update list_delete
  list_table-IsTable = record {
    create_new = λ k r s e. ((k, r) ∷ s, rw e, λ j. refl);
    create_taken = λ k r x s e. (other "P2002", rw e);
    update_found =
        λ k f r s e. ((k, f r) ∷ without k s, rw e, λ j. ground (arith, look-without k j s));
    update_missing = λ k f s e. (other "P2025", rw e);
    delete_found = λ k r s e. (without k s, rw e, λ j. look-without k j s);
    delete_missing = λ k s e. (other "P2025", rw e);
  }
