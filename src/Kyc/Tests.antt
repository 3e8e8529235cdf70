-- ===== src/Kyc/Tests.antt =====
-- The verification service on a concrete list of rows.
use payflow_x.Prelude.{ℕ, ◌≡◌, ◌↔◌, none, some, true, List, [], ◌∷◌, map}
use payflow_x.Prelude.Result.{ok}
use payflow_x.Db.Listed.{list_table, list_table-IsTable}
use payflow_x.Kyc.{Kyc, in_review, approved, rejected, reject, can_activate}
use payflow_x.Kyc.Machine.{
  Event, submitted, reviewed, timed_out, handle, handle_all, user_status, run_machine, Obeys,
}
use payflow_x.Kyc.Refinement.{handle-Obeys, can_activate-run_machine}

abbrev rows : List (ℕ × Kyc)
rows =
    (
      1,
      record {
        status = rejected;
        document_type = some 4;
        submitted_at = some 10;
        reviewed_at = some 20;
      },
    )
    ∷ (
      2,
      record {
        status = in_review;
        document_type = some 5;
        submitted_at = some 15;
        reviewed_at = none;
      },
    )
    ∷ []

handle-Obeys_example :
    Obeys list_table 1 (some in_review) rows (handle list_table (submitted 4) 1 30 rows)
handle-Obeys_example = handle-Obeys list_table list_table-IsTable (submitted 4) 1 30 rows

abbrev evening : List (Event × ℕ)
evening = (submitted 4, 30) ∷ (reviewed reject, 40) ∷ (submitted 4, 50) ∷ (timed_out, 60) ∷ []

can_activate-run_machine_example :
    ((can_activate list_table 1 (handle_all list_table evening 1 rows)).0 ≡ ok true)
    ↔ (run_machine (map (λ e. e.0) evening) (user_status list_table 1 rows) ≡ approved)
can_activate-run_machine_example =
    can_activate-run_machine list_table list_table-IsTable evening 1 rows
