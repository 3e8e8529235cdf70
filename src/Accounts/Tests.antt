-- ===== src/Accounts/Tests.antt =====
-- Concrete runs over tables kept in lists.
use payflow_x.Accounts.Portfolios.Pages.{rows_after, walk}
use payflow_x.Accounts.Portfolios.Pages.Walk.{walk_lem}
use payflow_x.Floats.{Floats}
use payflow_x.Prices.{Sources, Price, get_prices}
use payflow_x.Prelude.Slices.{take}
use payflow_x.Accounts.Portfolios.Valuation.{Valuation, get_valuation}
use payflow_x.Accounts.Portfolios.Valuation.Total.{worth_of, Entries, get_valuation_lem}
use payflow_x.Http.{throw, pure, other}
use payflow_x.Prelude.{
  ◌-◌, ◌*◌, ◌/◌, ◌==◌, ltb, Option, String, inr, ℕ, ◌+◌, ◌≡◌, refl, List, [], ◌∷◌, true, false,
  none, some, arith,
}
use payflow_x.Prelude.Result.{ok, err}
use payflow_x.Http.{Action, http, not_found, text}
use payflow_x.Amount.{usd}
use payflow_x.Db.{Table}
use payflow_x.Wallet.InMemory.{Memory, in_memory}
use payflow_x.Db.Listed.{list_table, list_table-IsTable}
use payflow_x.Accounts.Cards.{Card}
use payflow_x.Accounts.Beneficiaries.{Beneficiary, remove, find_active}
use payflow_x.Accounts.Beneficiaries.Removal.{send-remove}
use payflow_x.Accounts.Portfolios.{NewAsset, asset_of, Portfolio, Asset, not_owner}
use payflow_x.Accounts.Portfolios.Ownership.{
  delete_request, serve_portfolio, serve_portfolio_refused,
}
use payflow_x.Wallet.UseCases.{WebhookEvent, Sending, App, execute_send}

abbrev two_cards : List (ℕ × Card)
two_cards =
    (1, record { user_id = 7; is_frozen = false })
    ∷ ((2, record { user_id = 8; is_frozen = true }) ∷ [])

abbrev contact : Beneficiary
contact = record {
  user_id = 7;
  alias = "Ana";
  currency = usd;
  beneficiary_type = "BANK";
  account_number = "001";
  bank_name = none;
  country = "AR";
  document_type = none;
  document_number = none;
  is_active = true;
}

abbrev contacts : List (ℕ × Beneficiary)
contacts = (3, contact) ∷ []

abbrev count : List (ℕ × Beneficiary) → ℕ
count [] = 4
count (x ∷ xs) = 5

abbrev silent : WebhookEvent → Action (Unit {0}) (Unit {0})
silent event w = (ok tt, w)

abbrev to_ana : Sending
to_ana = record { user_id = 7; beneficiary_id = 3; amount = [] }

abbrev empty_app : App Memory (Unit {0})
empty_app = record {
  store = record {
    wallets = [];
    records = [];
    conflicts_to_inject = 0;
    fail_next_create = none;
    drawn = 0;
  };
  hooks = tt;
}

send-remove_example :
    (s' : List (ℕ × Beneficiary)) × (removed : Beneficiary) × (remove list_table count 7 3 contacts
      ≡ (ok removed, s'))
    × (execute_send silent (in_memory (λ n. n) 0) (find_active list_table count s') to_ana empty_app
        ≡ (err (http not_found (text "Beneficiary")), empty_app))
send-remove_example =
    send-remove list_table count list_table-IsTable silent (in_memory (λ n. n) 0) to_ana contacts
      contact empty_app refl refl

-- A store of portfolios and of assets, each a table of its own.
abbrev Shelf : Type 0
Shelf = List (ℕ × Asset ℕ)

abbrev bought : String → ℕ → ℕ → NewAsset ℕ
bought symbol quantity price = record {
  symbol = symbol;
  type = "CRYPTO";
  quantity = quantity;
  avg_buy_price = price;
  currency = none;
}

abbrev shelf : Shelf
shelf = (5, asset_of 1 (bought "BTC" 2 30)) ∷ ((6, asset_of 2 (bought "ETH" 1 3)) ∷ [])

-- The portfolio with the key `id` belongs to the user `id + 6`, and cannot be changed.
abbrev fixed : Table Shelf Portfolio
fixed = record {
  find_unique = λ id s. some (record { user_id = id + 6; name = "mine"; description = none });
  create = λ id row s. (ok row, s);
  update = λ id f s. (ok (f (record { user_id = id + 6; name = "mine"; description = none })), s);
  delete = λ id s. (ok (record { user_id = id + 6; name = "mine"; description = none }), s);
}

abbrev next_key : Shelf → ℕ
next_key s = 9

serve_portfolio_refused_example :
    serve_portfolio fixed list_table next_key delete_request 7 2 shelf ≡ (err not_owner, shelf)
serve_portfolio_refused_example =
    serve_portfolio_refused fixed list_table next_key delete_request 7 2 shelf not_owner (
      inr (
        record { user_id = 8; name = "mine"; description = none },
        refl,
        (λ e. omega (arith, e)),
        refl,
      ))

-- Three portfolios, read two at a time.
abbrev three : List (ℕ × String)
three = (9, "a") ∷ ((4, "b") ∷ ((6, "c") ∷ []))

abbrev paged : ℕ → Option ℕ → ℕ → List (ℕ × String) → List (ℕ × String)
paged u none n s = take n s
paged u (some id) n s = take n (rows_after id s)

abbrev in_order : ℕ → List (ℕ × String) → List (ℕ × String)
in_order u s = s

walk_example : walk paged 4 7 (some 2) none three ≡ (three, true)
walk_example =
    walk_lem paged in_order (record { from_start = λ u n s. refl; from_cursor = λ u id n s. refl })
      7 (some 2) three (omega arith)
      (
        ((λ e. omega (arith, e)), ((λ e. omega (arith, e)), tt)),
        (((λ e. omega (arith, e)), tt), (tt, tt)),
      )

-- A cache that fails, a service of quotes that fails, and coins at 50 dollars.
abbrev half_broken : Sources ℕ Shelf
half_broken = record {
  upper = λ symbol. symbol;
  coin_of = λ symbol. some symbol;
  is_zero = λ n. n == 0;
  get = λ symbol. throw (other "redis");
  set = λ symbol price. throw (other "redis");
  fetch = λ url. pure (record { is_ok = true; json = pure (some 50) });
  now = pure 3;
}

abbrev whole : Floats ℕ ℕ
whole = record {
  number = λ n. n;
  round2 = λ n. n;
  round8 = λ n. n;
  less = ltb;
  zero_float = 0;
  hundred = 100;
  plus = λ a b. a + b;
  minus = λ a b. a - b;
  times = λ a b. a * b;
  over = λ a b. a / b;
  is_positive = λ n. ltb 0 n;
}

abbrev held : ℕ → Shelf → List (Asset ℕ)
held id s = asset_of 1 (bought "BTC" 2 30) ∷ (asset_of 1 (bought "ETH" 1 3) ∷ [])

get_valuation_example :
    (prices : List (Option (Price ℕ))) × (v : Valuation ℕ) × (s' : Shelf) × (get_prices half_broken
        ("BTC" ∷ "ETH" ∷ [])
        shelf
      ≡ (ok prices, s'))
    × (get_valuation whole fixed list_table next_key held half_broken 7 1 shelf ≡ (ok v, s'))
    × Entries whole (held 1 shelf) prices v.assets
    × (v.total_value_usd ≡ worth_of whole 0 (held 1 shelf) prices)
get_valuation_example =
    get_valuation_lem whole fixed list_table next_key held half_broken 7 1 shelf
      (record { user_id = 7; name = "mine"; description = none }) refl refl
