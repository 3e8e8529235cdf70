-- ===== src/ExchangeRates/Tests.antt =====
-- A refresh over a list of rates.
use payflow_x.Prelude.{ℕ, ◌*◌, ◌/◌, ◌<◌, ◌≡◌, refl, ◌++◌, List, [], ◌∷◌, some, arith}
use payflow_x.Prelude.Lists.{All, replicate}
use payflow_x.Prelude.Slices.{take}
use payflow_x.Prelude.Result.{ok}
use payflow_x.Text.{codes}
use payflow_x.Amount.{Currency, ars, usd}
use payflow_x.Http.{assert_found, pair_not_found}
use payflow_x.ExchangeRates.{
  RateRow, RateClient, ConversionRates, Numbers, get_current, get_history, get_rate, refresh,
  refreshed,
}
use payflow_x.ExchangeRates.Priced.{last, newest, rows_for, row_if, price, new_rates}
use payflow_x.ExchangeRates.Published.{AllBefore, IsRateClient, refresh_lem, get_history_stale}

abbrev Rows : Type 0
Rows = List (RateRow ℕ)

abbrev rising : Currency → Currency → Rows → Rows
rising from to s = rows_for (λ x. x) from to s

abbrev service : ConversionRates ℕ
service = record { to_ars = 1_200; to_brl = 5 }

abbrev client : RateClient Rows ℕ ℕ
client = record {
  find_first = λ from to s. last (rising from to s);
  find_many = λ from to n s. take n (rising from to s);
  create_many = λ rows s. (ok tt, s ++ rows);
  fetch_rates = λ key s. (ok (some service), s);
}

abbrev numbers : Numbers ℕ
numbers = record {
  one = 1;
  usdt_of_usd = 1;
  usd_of_usdt = 1;
  times = λ a b. a * b;
  over = λ a b. a / b;
  round4 = λ a. a;
  round8 = λ a. a;
}

rising-append :
    (from to : Currency) (s rows : Rows)
    → rising from to (s ++ rows) ≡ rising from to s ++ rising from to rows
rising-append from to [] rows = refl
rising-append from to (r ∷ s) rows = ground (arith, rising-append from to s rows)

client-IsRateClient : IsRateClient client (λ x. x) rising
client-IsRateClient = record {
  first_is_last = λ from to s. refl;
  many_are_oldest = λ from to n s. refl;
  create_many_later = λ now pairs s before single. (_, refl, λ from to. rising-append from to s _);
}

abbrev clock : Rows → ℕ
clock s = 100

abbrev old_rate : RateRow ℕ
old_rate = record { from_currency = usd; to_currency = ars; rate = 900; date = 7 }

abbrev old_rates : Rows
old_rates = replicate 30 old_rate

All-rising :
    (from to : Currency) (s : Rows)
    → All (λ r. r.date < 100) s
    → All (λ r. r.date < 100) (rising from to s)
All-rising from to [] h = tt
All-rising from to (r ∷ s) (h, hs) = ground (arith, h, All-rising from to s hs)

old_rates-AllBefore : AllBefore client (λ x. x) rising 100 old_rates
old_rates-AllBefore from to = All-rising from to old_rates (omega arith)

refresh_example :
    (s' : Rows) × (refresh client numbers clock (some (codes "k")) old_rates
      ≡ (ok (refreshed 6 100), s'))
    × (get_current client s' ≡ (ok (new_rates (λ x. x) numbers 100 service), s'))
    × ((from to : Currency)
        → get_rate client from to s'
          ≡ assert_found
              (newest
                (row_if (λ x. x) from to 100 (price numbers from to service))
                (last (rising from to old_rates)))
              (pair_not_found from to)
              s')
refresh_example =
    refresh_lem client (λ x. x) rising client-IsRateClient numbers clock (some (codes "k"))
      (codes "k") service old_rates old_rates refl refl old_rates-AllBefore

get_history_stale_example :
    ((refresh client numbers clock (some (codes "k")) old_rates).0 ≡ ok (refreshed 6 100))
    × ((get_history client usd ars (refresh client numbers clock (some (codes "k")) old_rates).1).0
        ≡ (get_history client usd ars old_rates).0)
get_history_stale_example =
    get_history_stale client (λ x. x) rising client-IsRateClient numbers clock (some (codes "k"))
      (codes "k") service old_rates old_rates usd ars refl refl old_rates-AllBefore (omega arith)
