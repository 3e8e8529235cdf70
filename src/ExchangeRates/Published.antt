-- ===== src/ExchangeRates/Published.antt =====
-- What a refresh publishes.
use payflow_x.Prelude.{
  ℕ, ◌≤◌, ◌<◌, ◌≡◌, refl, sym, ap, ◌∙◌, ◌++◌, List, [], ◌∷◌, map, Option, some, arith,
}
use payflow_x.Prelude.Lists.{length, All}
use payflow_x.Prelude.Slices.{take, take-append}
use payflow_x.Prelude.Result.{ok}
use payflow_x.Text.{Text, truthy}
use payflow_x.Amount.{Currency, ars, usd, usdt, brl}
use payflow_x.Http.{pure, assert_found, pair_not_found, bind_from}
use payflow_x.ExchangeRates.{
  RateRow, RateClient, ConversionRates, Numbers, NewPair, refreshed, pairs_of, dated, some_history,
  current_rows, get_current, get_rate, get_history, refresh, refresh_with, on_answer, publish,
}
use payflow_x.ExchangeRates.Priced.{
  last, one_row, newest, last-one_row, length-one_row, price, row_if, rows_for, new_rates,
  rows-price,
}

some_history_same :
    {S R : Type 0} (from to : Currency) (rows : List (RateRow R)) (s s' : S)
    → (some_history from to rows s).0 ≡ (some_history from to rows s').0
some_history_same from to [] s s' = refl
some_history_same from to (r ∷ rows) s s' = refl

module _ {S R F : Type 0} (c : RateClient S R F) (stored : F → R)
    (rising : Currency → Currency → S → List (RateRow R)) where
  -- Every row is older than a time.
  abbrev pub AllBefore : ℕ → S → Type 0
  AllBefore now s = (from to : Currency) → All (λ r. r.date < now) (rising from to s)

  -- The queries read the rows of a pair in rising order of their dates; rows that are later than all
  -- the others, one for each pair at most, come after them.
  pub record IsRateClient : Type 0 where
    pub first_is_last :
        (from to : Currency) (s : S) → c.find_first from to s ≡ last (rising from to s)
    pub many_are_oldest :
        (from to : Currency) (n : ℕ) (s : S) → c.find_many from to n s ≡ take n (rising from to s)
    pub create_many_later :
        (now : ℕ) (pairs : List (NewPair F)) (s : S)
        → AllBefore now s
        → ((from to : Currency) → length (rows_for stored from to (map (dated now) pairs)) ≤ 1)
        → (s' : S) × (c.create_many (map (dated now) pairs) s ≡ (ok tt, s'))
          × ((from to : Currency)
              → rising from to s'
                ≡ rising from to s ++ rows_for stored from to (map (dated now) pairs))

  module _ (law : IsRateClient) (n : Numbers F) (clock : S → ℕ) where
    -- What a refresh that gets the rates appends.
    refreshes :
        (api_key : Option Text) (key : Text) (rates : ConversionRates F) (s s0 : S)
        → truthy api_key ≡ some key
        → c.fetch_rates key s ≡ (ok (some rates), s0)
        → AllBefore (clock s0) s0
        → (s' : S) × (refresh c n clock api_key s ≡ (ok (refreshed 6 (clock s0)), s'))
          × ((from to : Currency)
              → rising from to s'
                ≡ rising from to s0
                  ++ one_row (row_if stored from to (clock s0) (price n from to rates)))
    unfolding refresh refresh_with on_answer publish pairs_of
    refreshes api_key key rates s s0 given fetched before =
        let now = clock s0 in
        let (s', created, appended) =
          law.create_many_later now (pairs_of n rates) s0 before (λ from to. omega (
            arith,
            ap length (rows-price stored n now rates from to),
            length-one_row (row_if stored from to now (price n from to rates)),
          )) in
        (
          s',
          ap (λ k. refresh_with c n clock k s) given
              ∙ bind_from (c.fetch_rates key) (on_answer c n clock) s fetched
              ∙ bind_from (c.create_many (map (dated now) (pairs_of n rates)))
                  (λ x. pure (refreshed 6 now)) s0 created,
          λ from to.
              appended from to
              ∙ ap (λ t. rising from to s0 ++ t) (rows-price stored n now rates from to),
        )

    newest_of :
        (from to : Currency) (now : ℕ) (rates : ConversionRates F) (s0 s' : S)
        → rising from to s'
          ≡ rising from to s0 ++ one_row (row_if stored from to now (price n from to rates))
        → c.find_first from to s'
          ≡ newest (row_if stored from to now (price n from to rates)) (c.find_first from to s0)
    newest_of from to now rates s0 s' e =
        let o = row_if stored from to now (price n from to rates) in
        law.first_is_last from to s'
        ∙ ap last e
        ∙ last-one_row (rising from to s0) o
        ∙ ap (newest o) (sym (law.first_is_last from to s0))

    -- A refresh with a key, for which the service answers with rates and whose time is later than all
    -- stored dates, succeeds. After it getCurrent gives the six new rates, and getRate the new rate of a
    -- supported pair, and of any other pair the one that was the latest before, or the error that
    -- there is none.
    pub refresh_lem :
        (api_key : Option Text) (key : Text) (rates : ConversionRates F) (s s0 : S)
        → truthy api_key ≡ some key
        → c.fetch_rates key s ≡ (ok (some rates), s0)
        → AllBefore (clock s0) s0
        → (s' : S) × (refresh c n clock api_key s ≡ (ok (refreshed 6 (clock s0)), s'))
          × (get_current c s' ≡ (ok (new_rates stored n (clock s0) rates), s'))
          × ((from to : Currency)
              → get_rate c from to s'
                ≡ assert_found
                    (newest
                      (row_if stored from to (clock s0) (price n from to rates))
                      (c.find_first from to s0))
                    (pair_not_found from to)
                    s')
    unfolding get_current current_rows get_rate
    refresh_lem api_key key rates s s0 given fetched before =
        let now = clock s0 in
        let (s', done, appended) = refreshes api_key key rates s s0 given fetched before in
        let first = λ (from to : Currency). newest_of from to now rates s0 s' (appended from to) in
        (
          s',
          done,
          rw (first usd ars) (
              rw (first ars usd) (
                rw (first usd usdt)
                  (rw (first usdt usd) (rw (first usdt ars) (rw (first usd brl) refl))))),
          λ from to. ap (λ o. assert_found o (pair_not_found from to) s') (first from to),
        )

    -- Once a pair has thirty rates, getHistory does not show what such a refresh adds: it gives the
    -- same thirty as before.
    pub get_history_stale :
        (api_key : Option Text) (key : Text) (rates : ConversionRates F) (s s0 : S)
        (from to : Currency)
        → truthy api_key ≡ some key
        → c.fetch_rates key s ≡ (ok (some rates), s0)
        → AllBefore (clock s0) s0
        → 30 ≤ length (rising from to s0)
        → ((refresh c n clock api_key s).0 ≡ ok (refreshed 6 (clock s0)))
          × ((get_history c from to (refresh c n clock api_key s).1).0
              ≡ (get_history c from to s0).0)
    unfolding get_history
    get_history_stale api_key key rates s s0 from to given fetched before many =
        let (s', done, appended) = refreshes api_key key rates s s0 given fetched before in
        let same : c.find_many from to 30 s' ≡ c.find_many from to 30 s0 =
          law.many_are_oldest from to 30 s'
          ∙ ap (take 30) (appended from to)
          ∙ take-append 30 (rising from to s0)
              (one_row (row_if stored from to (clock s0) (price n from to rates))) many
          ∙ sym (law.many_are_oldest from to 30 s0) in
        (
          ap (λ r. r.0) done,
          ap (λ r. (get_history c from to r.1).0) done
              ∙ ap (λ rows. (some_history {S = S} from to rows s').0) same
              ∙ some_history_same from to (c.find_many from to 30 s0) s' s0,
        )
