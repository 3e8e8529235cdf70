-- ===== src/Accounts/Portfolios/Valuation.antt =====
-- The valuation of a portfolio: `getValuation` (src/modules/portfolio/portfolio.service.ts), over
-- the market prices. The arithmetic of floating-point numbers is a parameter.
pub mod Total
use payflow_x.Prelude.{
  ℕ, String, Bool, true, false, List, [], ◌∷◌, Option, none, some, map, if◌then◌else◌,
}
use payflow_x.Http.{Action, pure, gets, ◌>>=◌, ◌>>◌}
use payflow_x.Floats.{Floats}
use payflow_x.Db.{Table}
use payflow_x.Prices.{Sources, Price, get_prices}
use payflow_x.Accounts.Portfolios.{Portfolio, Asset, find_one}

-- One of the assets in the answer.
pub record Valued (F : Type 0) : Type 0 where
  pub symbol : String
  pub quantity : F
  pub current_price : Option F
  pub value_usd : Option F
  pub pnl : Option F
  pub pnl_percent : Option F

pub record Valuation (F : Type 0) : Type 0 where
  pub portfolio_id : ℕ
  pub total_value_usd : F
  pub assets : List (Valued F)

module _ {D F : Type 0} (f : Floats D F) where
  unfoldable pub unpriced : Asset D → Valued F
  unpriced asset = record {
    symbol = asset.symbol;
    quantity = f.number asset.quantity;
    current_price = none;
    value_usd = none;
    pnl = none;
    pnl_percent = none;
  }

  abbrev pub value_of : Asset D → F → F
  value_of asset price = f.round2 (f.times price (f.number asset.quantity))

  unfoldable pub priced_asset : Asset D → F → Valued F
  priced_asset asset price =
      let quantity = f.number asset.quantity in
      let bought = f.number asset.avg_buy_price in
      record {
        symbol = asset.symbol;
        quantity = quantity;
        current_price = some price;
        value_usd = some (value_of asset price);
        pnl = some (f.round2 (f.times (f.minus price bought) quantity));
        pnl_percent =
            if f.is_positive bought
            then some (f.round2 (f.times (f.over (f.minus price bought) bought) f.hundred))
            else none;
      }

  -- `prices[index]` and what is left of the prices.
  abbrev pub price_at : List (Option (Price F)) → Option (Price F)
  price_at [] = none
  price_at (price ∷ prices) = price

  abbrev pub prices_left : List (Option (Price F)) → List (Option (Price F))
  prices_left [] = []
  prices_left (price ∷ prices) = prices

  -- The body of the `map`: the asset in the answer, and `totalValueUSD` after it.
  unfoldable pub value_asset : Asset D → Option (Price F) → F → Valued F × F
  unfolding unpriced priced_asset
  value_asset asset none total = (unpriced asset, total)
  value_asset asset (some p) total =
      (priced_asset asset p.price, f.plus total (value_of asset p.price))

  -- The `map` over the assets.
  unfoldable pub value_assets : List (Asset D) → List (Option (Price F)) → F → List (Valued F) × F
  unfolding value_asset
  value_assets [] prices total = ([], total)
  value_assets (asset ∷ assets) prices total =
      let step = value_asset asset (price_at prices) total in
      let rest = value_assets assets (prices_left prices) step.1 in (step.0 ∷ rest.0, rest.1)

  abbrev pub valuation_of : ℕ → List (Valued F) × F → Valuation F
  valuation_of id valued = record {
    portfolio_id = id;
    total_value_usd = f.round2 valued.1;
    assets = valued.0;
  }

  module _ {S : Type 0} (t : Table S Portfolio) (assets : Table S (Asset D)) (fresh_id : S → ℕ)
      (assets_of : ℕ → S → List (Asset D)) (sources : Sources F S) where
    -- `getValuation`; `assets_of` is the `include` of `findOne`.
    unfoldable pub get_valuation : ℕ → ℕ → Action S (Valuation F)
    unfolding value_assets
    get_valuation user_id id = do
      find_one t assets fresh_id user_id id
      included ← gets (assets_of id)
      prices ← get_prices sources (map (λ asset. asset.symbol) included)
      pure (valuation_of id (value_assets included prices f.zero_float))
