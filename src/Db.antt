-- ===== src/Db.antt =====
-- The database client for one model, as the services use it: Prisma's `findUnique`, `create`,
-- `update` and `delete` by a unique key. The client is a third-party library, so its operations are
-- parameters, and `IsTable` states what its documentation promises of them.
pub mod Listed
use payflow_x.Prelude.{ℕ, ◌≡◌, Option, none, some, ◌==◌, if◌then◌else◌}
use payflow_x.Prelude.Result.{ok, err}
use payflow_x.Http.{Error, Action}

-- `create` is given the key of the new row; each write answers with the row.
pub record Table (Rows Row : Type 0) : Type 0 where
  pub find_unique : ℕ → Rows → Option Row
  pub create : ℕ → Row → Action Rows Row
  pub update : ℕ → (Row → Row) → Action Rows Row
  pub delete : ℕ → Action Rows Row

module _ {Rows Row : Type 0} (t : Table Rows Row) where
  -- A write under one key is read back there, and shows nowhere else.
  abbrev pub Writes : ℕ → Option Row → Rows → Rows → Type 0
  Writes k o s s' = (j : ℕ) → t.find_unique j s' ≡ (if k == j then o else t.find_unique j s)

  -- A write succeeds exactly if its row is there, for `create` if it is not, and one that fails
  -- changes nothing.
  pub record IsTable : Type 0 where
    pub create_new :
        (k : ℕ) (r : Row) (s : Rows)
        → t.find_unique k s ≡ none
        → (s' : Rows) × (t.create k r s ≡ (ok r, s')) × Writes k (some r) s s'
    pub create_taken :
        (k : ℕ) (r x : Row) (s : Rows)
        → t.find_unique k s ≡ some x
        → (e : Error) × (t.create k r s ≡ (err e, s))
    pub update_found :
        (k : ℕ) (f : Row → Row) (r : Row) (s : Rows)
        → t.find_unique k s ≡ some r
        → (s' : Rows) × (t.update k f s ≡ (ok (f r), s')) × Writes k (some (f r)) s s'
    pub update_missing :
        (k : ℕ) (f : Row → Row) (s : Rows)
        → t.find_unique k s ≡ none
        → (e : Error) × (t.update k f s ≡ (err e, s))
    pub delete_found :
        (k : ℕ) (r : Row) (s : Rows)
        → t.find_unique k s ≡ some r
        → (s' : Rows) × (t.delete k s ≡ (ok r, s')) × Writes k none s s'
    pub delete_missing :
        (k : ℕ) (s : Rows) → t.find_unique k s ≡ none → (e : Error) × (t.delete k s ≡ (err e, s))
