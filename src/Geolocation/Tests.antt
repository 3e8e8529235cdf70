-- ===== src/Geolocation/Tests.antt =====
-- A new session from a public address, with a cache that fails.
use payflow_x.Prelude.{ℕ, ◌≡◌, refl, List, [], ◌∷◌, none, some}
use payflow_x.Prelude.Result.{ok, err}
use payflow_x.Text.{codes}
use payflow_x.Http.{other}
use payflow_x.Db.Listed.{list_table, list_table-IsTable}
use payflow_x.Geolocation.{Atlas, PlacedSession, SessionCreated, handle_session_created}
use payflow_x.Geolocation.Placing.{IsAtlas, Placed, handle_session_created-Placed}

abbrev Sessions : Type 0
Sessions = List (ℕ × PlacedSession)

abbrev atlas : Atlas Sessions
atlas = record {
  cache_get = λ key s. (err (other "down"), s);
  cache_set = λ key location ttl s. (err (other "down"), s);
  fetch_place = λ ip s.
      (ok (some (record { city = some (codes "Rosario"); country = some (codes "AR") })), s);
}

atlas-IsAtlas : IsAtlas atlas list_table
atlas-IsAtlas = record {
  get_keeps = λ key s j. refl;
  set_keeps = λ key location ttl s j. refl;
  fetch_keeps = λ ip s j. refl;
}

abbrev sessions : Sessions
sessions = (3, record { location = none }) ∷ []

abbrev created : SessionCreated
created = record { session_id = 3; ip = codes "8.8.8.8" }

handle_session_created-Placed_example :
    (s' : Sessions) × (handle_session_created atlas list_table created sessions ≡ (ok tt, s'))
    × Placed atlas list_table 3 sessions s'
handle_session_created-Placed_example =
    handle_session_created-Placed atlas list_table list_table-IsTable atlas-IsAtlas created sessions
