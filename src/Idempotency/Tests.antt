-- ===== src/Idempotency/Tests.antt =====
-- A request that is sent twice, over a list of records.
use payflow_x.Prelude.{ℕ, ◌≤◌, ◌≡◌, refl, some, List, [], ◌∷◌, arith, leb, if◌then◌else◌}
use payflow_x.Prelude.Result.{ok}
use payflow_x.Http.{Action}
use payflow_x.Db.Listed.{look, list_table, list_table-IsTable}
use payflow_x.Idempotency.{Stored, Request, intercept, cleanup}
use payflow_x.Idempotency.Cleanup.{IsDeletion, Meanwhile, replayed-Meanwhile}

abbrev rows : List (ℕ × Stored)
rows = (5, record { user_id = 1; route = 2; response = 3; status_code = 200; created_at = 4 }) ∷ []

abbrev handler : Action (List (ℕ × Stored)) (ℕ × ℕ)
handler s = (ok (77, 201), s)

abbrev clock : List (ℕ × Stored) → ℕ
clock s = 1000

abbrev request : Request
request = record { key = some 6; user_id = 1; route = 2 }

abbrev after_first : List (ℕ × Stored)
after_first = (intercept list_table clock handler request rows).1

-- A deletion over the list of records.
abbrev keep_since : ℕ → List (ℕ × Stored) → List (ℕ × Stored)
keep_since cutoff [] = []
keep_since cutoff ((j, r) ∷ s) =
    let rest = keep_since cutoff s in if leb cutoff r.created_at then (j, r) ∷ rest else rest

abbrev delete_before : ℕ → Action (List (ℕ × Stored)) ℕ
delete_before cutoff s = (ok 0, keep_since cutoff s)

look-keep_since :
    (cutoff key : ℕ) (stored : Stored) (s : List (ℕ × Stored))
    → look key s ≡ some stored
    → cutoff ≤ stored.created_at
    → look key (keep_since cutoff s) ≡ some stored
look-keep_since cutoff key stored [] found since = found
look-keep_since cutoff key stored ((j, r) ∷ s) found since = ground (
  arith,
  found,
  since,
  λ (h : look key s ≡ some stored). look-keep_since cutoff key stored s h since,
)

abbrev next_day : List (ℕ × Stored) → ℕ
next_day s = 90000000

delete_before-IsDeletion : IsDeletion list_table delete_before next_day
delete_before-IsDeletion = record { recent_stays = look-keep_since; clock_stays = λ cutoff s. refl }

abbrev with_old_record : List (ℕ × Stored)
with_old_record = (intercept list_table next_day handler request rows).1

abbrev cleaned_up : List (ℕ × Stored)
cleaned_up = (cleanup delete_before next_day with_old_record).1

replayed-Meanwhile_example :
    ((intercept list_table next_day handler request rows).0 ≡ ok (77, 201))
    × (intercept list_table next_day handler request cleaned_up ≡ (ok (77, 201), cleaned_up))
replayed-Meanwhile_example =
    replayed-Meanwhile list_table delete_before next_day delete_before-IsDeletion handler
      list_table-IsTable 6 request request (77, 201) rows rows cleaned_up refl refl refl refl refl
      (Meanwhile.cleans Meanwhile.nothing) (omega arith)
