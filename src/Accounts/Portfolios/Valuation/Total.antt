-- ===== src/Accounts/Portfolios/Valuation/Total.antt =====
-- The total of a valuation, and that it is always answered.
use payflow_x.Prelude.{
  ℕ, ◌≡◌, refl, ap, ◌∙◌, not, List, [], ◌∷◌, Option, none, some, map, ==_iff, arith, if◌then◌else◌,
}
use payflow_x.Prelude.Lists.{length, length-map}
use payflow_x.Prelude.Result.{Result, ok}
use payflow_x.Http.{Error, text, pure, gets, bind_from, assert_found, throw_if, ◌>>=◌, ◌>>◌}
use payflow_x.Db.{Table}
use payflow_x.Floats.{Floats}
use payflow_x.Prices.{Sources, Price, get_prices}
use payflow_x.Prices.Answers.{get_prices_lem}
use payflow_x.Accounts.Portfolios.{Portfolio, Asset, find_one, owned, not_owner}
use payflow_x.Accounts.Portfolios.Valuation.{
  Valued, Valuation, value_assets, value_asset, unpriced, priced_asset, valuation_of, get_valuation,
}

module _ {D F : Type 0} (f : Floats D F) where
  -- What the answer says of an asset at its price: the price, its product with the quantity, and the
  -- gain over the price of the purchase, also as a percentage where that price is positive.
  abbrev pub IsEntry : Asset D → Option (Price F) → Valued F → Type 0
  IsEntry asset none v =
      (v.symbol ≡ asset.symbol)
      × (v.quantity ≡ f.number asset.quantity)
      × (v.current_price ≡ none)
      × (v.value_usd ≡ none)
      × (v.pnl ≡ none)
      × (v.pnl_percent ≡ none)
  IsEntry asset (some p) v =
      (v.symbol ≡ asset.symbol)
      × (v.quantity ≡ f.number asset.quantity)
      × (v.current_price ≡ some p.price)
      × (v.value_usd ≡ some (f.round2 (f.times p.price (f.number asset.quantity))))
      × (v.pnl
          ≡ some (
              f.round2 (
                f.times (f.minus p.price (f.number asset.avg_buy_price))
                  (f.number asset.quantity))))
      × (v.pnl_percent ≡ (
          if f.is_positive (f.number asset.avg_buy_price)
          then some (
              f.round2 (
                f.times
                  (f.over (f.minus p.price (f.number asset.avg_buy_price))
                    (f.number asset.avg_buy_price))
                  f.hundred))
          else none))

  -- One entry for each asset, in their order, at its own price.
  pub data Entries : List (Asset D) → List (Option (Price F)) → List (Valued F) → Type 0 where
    no_entries : Entries [] [] []
    entry :
        {asset : Asset D} {o : Option (Price F)} {v : Valued F} {xs : List (Asset D)}
        {ps : List (Option (Price F))} {vs : List (Valued F)}
        → IsEntry asset o v
        → Entries xs ps vs
        → Entries (asset ∷ xs) (o ∷ ps) (v ∷ vs)

  -- The sum of quantity times price over the assets that have a price, each product rounded.
  abbrev pub worth_of : F → List (Asset D) → List (Option (Price F)) → F
  worth_of total (asset ∷ xs) (some p ∷ ps) =
      worth_of (f.plus total (f.round2 (f.times p.price (f.number asset.quantity)))) xs ps
  worth_of total (asset ∷ xs) (none ∷ ps) = worth_of total xs ps
  worth_of total [] ps = total
  worth_of total (asset ∷ xs) [] = total

  value-IsEntry :
      (asset : Asset D) (o : Option (Price F)) (total : F)
      → IsEntry asset o (value_asset f asset o total).0
  unfolding value_asset unpriced priced_asset
  value-IsEntry asset none total = (refl, refl, refl, refl, refl, refl)
  value-IsEntry asset (some p) total = (refl, refl, refl, refl, refl, refl)

  value_worth :
      (asset : Asset D) (o : Option (Price F)) (total : F) (xs : List (Asset D))
      (ps : List (Option (Price F)))
      → worth_of (value_asset f asset o total).1 xs ps ≡ worth_of total (asset ∷ xs) (o ∷ ps)
  unfolding value_asset
  value_worth asset none total xs ps = refl
  value_worth asset (some p) total xs ps = refl

  value_assets_lem :
      (xs : List (Asset D)) (ps : List (Option (Price F))) (total : F)
      → length ps ≡ length xs
      → Entries xs ps (value_assets f xs ps total).0
        × ((value_assets f xs ps total).1 ≡ worth_of total xs ps)
  unfolding value_assets
  value_assets_lem [] [] total h = (no_entries, refl)
  value_assets_lem [] (o ∷ ps) total h = absurd (omega (arith, h))
  value_assets_lem (asset ∷ xs) [] total h = absurd (omega (arith, h))
  value_assets_lem (asset ∷ xs) (o ∷ ps) total h =
      let (entries, worth) =
        value_assets_lem xs ps (value_asset f asset o total).1 (omega (arith, h)) in
      (entry (value-IsEntry asset o total) entries, worth ∙ value_worth asset o total xs ps)

  module _ {S : Type 0} (t : Table S Portfolio) (assets : Table S (Asset D)) (fresh_id : S → ℕ)
      (assets_of : ℕ → S → List (Asset D)) (sources : Sources F S) where
    find_one_own :
        (u id : ℕ) (s : S) (row : Portfolio)
        → t.find_unique id s ≡ some row
        → row.user_id ≡ u
        → find_one t assets fresh_id u id s ≡ (ok row, s)
    unfolding find_one owned
    find_one_own u id s row found is_own =
        ap (λ o. (assert_found o (text "Portfolio") >>= owned t assets fresh_id u) s) found
        ∙ ap {B = Result Error Portfolio × S} (λ b. (throw_if (not b) not_owner >> pure row) s)
            ((==_iff row.user_id u).1 is_own)

    -- However the cache and the price services fail, the owner of a portfolio gets a valuation. Of
    -- the prices that getPrices answers with, one or none for each asset, it has one entry for each
    -- asset at its own price, and its total is the rounded sum of quantity times price over the assets
    -- that have one.
    pub get_valuation_lem :
        (u id : ℕ) (s : S) (row : Portfolio)
        → t.find_unique id s ≡ some row
        → row.user_id ≡ u
        → (prices : List (Option (Price F))) × (v : Valuation F) × (s' : S) × (get_prices sources
              (map (λ asset. asset.symbol) (assets_of id s))
              s
            ≡ (ok prices, s'))
          × (get_valuation f t assets fresh_id assets_of sources u id s ≡ (ok v, s'))
          × Entries (assets_of id s) prices v.assets
          × (v.total_value_usd ≡ f.round2 (worth_of f.zero_float (assets_of id s) prices))
    unfolding get_valuation
    get_valuation_lem u id s row found is_own =
        let included = assets_of id s in
        let symbols = map (λ asset. asset.symbol) included in
        let (prices, s', got, len) = get_prices_lem sources symbols s in
        let (entries, worth) =
          value_assets_lem included prices f.zero_float
            (len ∙ length-map (λ asset. asset.symbol) included) in
        (
          prices,
          valuation_of f id (value_assets f included prices f.zero_float),
          s',
          got,
          bind_from (find_one t assets fresh_id u id)
                (λ _. gets (assets_of id) >>= λ xs.
                  get_prices sources (map (λ asset. asset.symbol) xs) >>= λ ps.
                  pure (valuation_of f id (value_assets f xs ps f.zero_float)))
                s (find_one_own u id s row found is_own)
              ∙ bind_from (get_prices sources symbols)
                  (λ ps. pure (valuation_of f id (value_assets f included ps f.zero_float))) s got,
          entries,
          ap f.round2 worth,
        )
