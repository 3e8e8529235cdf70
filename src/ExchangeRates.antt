-- ===== src/ExchangeRates.antt =====
-- The rates between currencies (src/modules/exchange-rate/exchange-rate.service.ts). The remote
-- service, the queries of the client, the clock and the arithmetic of numbers are parameters.
pub mod Priced
pub mod Published
mod Tests
use payflow_x.Prelude.{
  ℕ, Bool, true, false, ◌&&◌, List, [], ◌∷◌, map, Option, none, some, if◌then◌else◌,
}
use payflow_x.Prelude.Lists.{length}
use payflow_x.Text.{Text, truthy}
use payflow_x.Amount.{Currency, ars, usd, usdt, brl}
use payflow_x.Http.{
  not_found, pair_not_found, no_history, http, other, Action, pure, throw, gets, assert_found,
  ◌>>=◌, ◌>>◌,
}

-- A row of `ExchangeRate`, and the data of one that `createMany` is given.
pub record RateRow (R : Type 0) : Type 0 where
  pub from_currency : Currency
  pub to_currency : Currency
  pub rate : R
  pub date : ℕ

-- An entry of `getHistory`.
pub record Point (R : Type 0) : Type 0 where
  pub rate : R
  pub date : ℕ

-- `pairs` of `refresh`, before their date is set.
pub record NewPair (F : Type 0) : Type 0 where
  pub from_currency : Currency
  pub to_currency : Currency
  pub rate : F

-- What is read of `conversion_rates`.
pub record ConversionRates (F : Type 0) : Type 0 where
  pub to_ars : F
  pub to_brl : F

-- The numbers of `refresh`: `round4` and `round8` are `parseFloat(x.toFixed(n))`.
pub record Numbers (F : Type 0) : Type 0 where
  pub one : F
  pub usdt_of_usd : F
  pub usd_of_usdt : F
  pub times : F → F → F
  pub over : F → F → F
  pub round4 : F → F
  pub round8 : F → F

-- `find_first` is in falling order of the date, `find_many` in rising order with the number to take;
-- `fetch_rates` is the call with a key, whose answer has the rates or not.
pub record RateClient (S R F : Type 0) : Type 0 where
  pub find_first : Currency → Currency → S → Option (RateRow R)
  pub find_many : Currency → Currency → ℕ → S → List (RateRow R)
  pub create_many : List (RateRow F) → Action S (Unit {0})
  pub fetch_rates : Text → Action S (Option (ConversionRates F))

-- What `refresh` answers: its message, and for the second the number of pairs and the date.
pub data RefreshAnswer : Type 0 where
  not_configured : RefreshAnswer
  refreshed : ℕ → ℕ → RefreshAnswer

-- `SUPPORTED_PAIRS`
abbrev pub supported_pairs : List (Currency × Currency)
supported_pairs =
    (usd, ars) ∷ (ars, usd) ∷ (usd, usdt) ∷ (usdt, usd) ∷ (usdt, ars) ∷ (usd, brl) ∷ []

module _ {F : Type 0} (n : Numbers F) where
  unfoldable pub pairs_of : ConversionRates F → List (NewPair F)
  pairs_of rates =
      record { from_currency = usd; to_currency = ars; rate = rates.to_ars }
      ∷ record {
        from_currency = ars;
        to_currency = usd;
        rate = n.round8 (n.over n.one rates.to_ars);
      }
      ∷ record { from_currency = usd; to_currency = brl; rate = rates.to_brl }
      ∷ record { from_currency = usd; to_currency = usdt; rate = n.usdt_of_usd }
      ∷ record { from_currency = usdt; to_currency = usd; rate = n.usd_of_usdt }
      ∷ record {
        from_currency = usdt;
        to_currency = ars;
        rate = n.round4 (n.times rates.to_ars n.usd_of_usdt);
      }
      ∷ []

-- `{ ...p, date: now }`
abbrev pub dated : {F : Type 0} → ℕ → NewPair F → RateRow F
dated now p = record {
  from_currency = p.from_currency;
  to_currency = p.to_currency;
  rate = p.rate;
  date = now;
}

abbrev pub point_of : {R : Type 0} → RateRow R → Point R
point_of r = record { rate = r.rate; date = r.date }

-- The rows of the pairs that have one: `rates.filter(Boolean)`.
abbrev pub and_row : {R : Type 0} → Option (RateRow R) → List (RateRow R) → List (RateRow R)
and_row none rest = rest
and_row (some r) rest = r ∷ rest

abbrev pub some_history :
    {S R : Type 0} → Currency → Currency → List (RateRow R) → Action S (List (Point R))
some_history from to [] = throw (http not_found (no_history from to))
some_history from to (r ∷ rows) = pure (map point_of (r ∷ rows))

-- `data.conversion_rates.ARS` where there are no rates.
abbrev pub rates_there : {S F : Type 0} → Option (ConversionRates F) → Action S (ConversionRates F)
rates_there none = throw (other "TypeError")
rates_there (some rates) = pure rates

module _ {S R F : Type 0} (c : RateClient S R F) where
  unfoldable pub current_rows : List (Currency × Currency) → S → List (RateRow R)
  current_rows [] s = []
  current_rows ((from, to) ∷ pairs) s = and_row (c.find_first from to s) (current_rows pairs s)

  -- `getCurrent`
  unfoldable pub get_current : Action S (List (RateRow R))
  unfolding current_rows
  get_current = gets (current_rows supported_pairs)

  -- `getRate`
  unfoldable pub get_rate : Currency → Currency → Action S (RateRow R)
  get_rate from to = do
    rate ← gets (c.find_first from to)
    assert_found rate (pair_not_found from to)

  -- `getHistory`
  unfoldable pub get_history : Currency → Currency → Action S (List (Point R))
  get_history from to = do rates ← gets (c.find_many from to 30); some_history from to rates

  module _ (n : Numbers F) (clock : S → ℕ) where
    -- `createMany` and the answer.
    unfoldable pub publish : List (NewPair F) → ℕ → Action S RefreshAnswer
    publish pairs now = do
      c.create_many (map (dated now) pairs)
      pure (refreshed (length pairs) now)

    -- `refresh` after the call of the service.
    unfoldable pub on_answer : Option (ConversionRates F) → Action S RefreshAnswer
    unfolding publish
    on_answer answer = do
      now ← gets clock
      rates ← rates_there answer
      publish (pairs_of n rates) now

    unfoldable pub refresh_with : Option Text → Action S RefreshAnswer
    unfolding on_answer
    refresh_with none = pure not_configured
    refresh_with (some key) = c.fetch_rates key >>= on_answer

    -- `refresh`, of `EXCHANGE_RATE_API_KEY`.
    unfoldable pub refresh : Option Text → Action S RefreshAnswer
    unfolding refresh_with
    refresh api_key = refresh_with (truthy api_key)
