-- ===== src/Transactions/Tests.antt =====
-- Five transactions of one user, read in pages of two.
use payflow_x.Prelude.{ℕ, ◌≡◌, refl, List, [], ◌∷◌, none, arith}
use payflow_x.Prelude.Lists.{length}
use payflow_x.Prelude.Slices.{take, drop}
use payflow_x.Prelude.Result.{ok}
use payflow_x.Transactions.{Search, Where, Found, History, find_all}
use payflow_x.Transactions.Pages.{IsHistory, read_pages, pages_lem}

abbrev rows : Where → List ℕ → List ℕ
rows w s = s

abbrev history : History (List ℕ) ℕ
history = record {
  wallet_ids = λ u s. u ∷ [];
  find_many = λ w skip n s. take n (drop skip s);
  count = λ w s. length s;
  find_first = λ id ids s. none;
}

history-IsHistory : IsHistory history rows
history-IsHistory = record { sliced = λ w skip n s. refl; counted = λ w s. refl }

abbrev five : List ℕ
five = 50 ∷ 40 ∷ 30 ∷ 20 ∷ 10 ∷ []

abbrev search_all : Search
search_all = record {
  user_id = 7;
  page = 2;
  limit = 2;
  type = none;
  currency = none;
  date_from = none;
  date_to = none;
}

pages_example :
    (found : Found ℕ) × (find_all history search_all five ≡ (ok found, five))
    × (found.meta.total ≡ 5)
    × (read_pages history found.meta.total_pages search_all five ≡ (ok five, five))
pages_example = pages_lem history rows history-IsHistory search_all five (omega arith)
