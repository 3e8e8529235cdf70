-- ===== src/Accounts/Portfolios/Pages.antt =====
-- The pages of portfolios: `findAll` with a cursor (src/modules/portfolio/portfolio.service.ts).
pub mod Walk
use payflow_x.Prelude.{
  ℕ, zero, suc, ◌+◌, ◌≤◌, ◌<◌, ◌≡◌, ◌≢◌, refl, sym, ap, ◌∙◌, Bool, true, false, List, [], ◌∷◌, ◌++◌,
  Option, none, some, arith, ltb, ◌==◌, ==_refl, ==_iff, if◌then◌else◌, or_else, Bool-cases, inl,
  inr,
}
use payflow_x.Prelude.Lists.{length}
use payflow_x.Prelude.Slices.{take}

-- `data[data.length - 1].id`
abbrev pub last_id : {A : Type 0} → List (ℕ × A) → Option ℕ
last_id [] = none
last_id (x ∷ []) = some x.0
last_id (x ∷ (y ∷ ys)) = last_id (y ∷ ys)

pub record Page (A : Type 0) : Type 0 where
  pub items : List (ℕ × A)
  pub next_cursor : Option ℕ

-- What `findAll` makes of the rows of the query, of which it has asked for `limit + 1`.
unfoldable pub page_of : {A : Type 0} → ℕ → List (ℕ × A) → Page A
page_of limit rows =
    if ltb limit (length rows)
    then record { items = take limit rows; next_cursor = last_id (take limit rows) }
    else record { items = rows; next_cursor = none }

-- One page of a walk, and the rest of the walk if the page has a cursor.
abbrev pub continued : {A : Type 0} → (ℕ → List (ℕ × A) × Bool) → Page A → List (ℕ × A) × Bool
continued more page = elim page.next_cursor [
  | none ↦ (page.items, true)
  | some id ↦ (page.items ++ (more id).0, (more id).1)
]

module _ {S A : Type 0} (find_many : ℕ → Option ℕ → ℕ → S → List (ℕ × A)) where
  -- `findAll`; `find_many user_id cursor take` is the query, with `skip: 1` where it has a cursor.
  unfoldable pub find_all : ℕ → Option ℕ → Option ℕ → S → Page A
  unfolding page_of
  find_all user_id limit cursor s =
      page_of (or_else limit 20) (find_many user_id cursor (or_else limit 20 + 1) s)

  -- A client that asks for one page after another, at most `fuel` of them: the rows it has got, and
  -- whether it got to the last page.
  unfoldable pub walk : ℕ → ℕ → Option ℕ → Option ℕ → S → List (ℕ × A) × Bool
  walk zero user_id limit cursor s = ([], false)
  walk (suc fuel) user_id limit cursor s =
      continued (λ id. walk fuel user_id limit (some id) s) (find_all user_id limit cursor s)

-- The rows after the row with a key.
abbrev pub rows_after : {A : Type 0} → ℕ → List (ℕ × A) → List (ℕ × A)
rows_after id [] = []
rows_after id (x ∷ xs) = if x.0 == id then xs else rows_after id xs
