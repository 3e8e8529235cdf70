-- ===== src/Accounts/Portfolios.antt =====
-- Portfolios and their assets (src/modules/portfolio/portfolio.service.ts).
pub mod Ownership
pub mod Pages
pub mod Valuation
use payflow_x.Prelude.{or_else, or_kept, ℕ, Bool, not, String, Option, none, some, ◌==◌}
use payflow_x.Http.{forbidden, text, http, Error, Action, pure, assert_found, throw_if, ◌>>=◌, ◌>>◌}
use payflow_x.Db.{Table}
use payflow_x.Accounts.Owned.{own}

-- `Portfolio`; its identifier is the key of the table.
pub record Portfolio : Type 0 where
  pub user_id : ℕ
  pub name : String
  pub description : Option String

-- `CreatePortfolioDto` and `UpdatePortfolioDto`
pub record NewPortfolio : Type 0 where
  pub name : String
  pub description : Option String

pub record PortfolioPatch : Type 0 where
  pub name : Option String
  pub description : Option String

abbrev pub renamed : PortfolioPatch → Portfolio → Portfolio
renamed dto row = record row {
  name = or_else dto.name row.name;
  description = or_kept dto.description row.description;
}

-- `PortfolioAsset` and `AddAssetDto`, their numbers of the type `F`.
pub record Asset (F : Type 0) : Type 0 where
  pub portfolio_id : ℕ
  pub symbol : String
  pub type : String
  pub quantity : F
  pub avg_buy_price : F
  pub currency : String

pub record NewAsset (F : Type 0) : Type 0 where
  pub symbol : String
  pub type : String
  pub quantity : F
  pub avg_buy_price : F
  pub currency : Option String

-- The row that `addAsset` creates, with the schema's default currency.
abbrev pub asset_of : {F : Type 0} → ℕ → NewAsset F → Asset F
asset_of portfolio_id dto = record {
  portfolio_id = portfolio_id;
  symbol = dto.symbol;
  type = dto.type;
  quantity = dto.quantity;
  avg_buy_price = dto.avg_buy_price;
  currency = or_else dto.currency "USD";
}

abbrev pub asset_portfolio : {F : Type 0} → Asset F → ℕ
asset_portfolio asset = asset.portfolio_id

abbrev pub not_owner : Error
not_owner = http forbidden (text "You do not own this portfolio.")

module _ {S F : Type 0} (t : Table S Portfolio) (assets : Table S (Asset F))
    (fresh_id : S → ℕ) where
  unfoldable pub create : ℕ → NewPortfolio → Action S Portfolio
  create user_id dto s =
      t.create (fresh_id s)
        (record { user_id = user_id; name = dto.name; description = dto.description }) s

  -- What `findOne` does with the row.
  unfoldable pub owned : ℕ → Portfolio → Action S Portfolio
  owned user_id portfolio = do
    throw_if (not (portfolio.user_id == user_id)) not_owner
    pure portfolio

  unfoldable pub find_one : ℕ → ℕ → Action S Portfolio
  unfolding owned
  find_one user_id id s = (assert_found (t.find_unique id s) (text "Portfolio") >>= owned user_id) s

  unfoldable pub update : ℕ → ℕ → PortfolioPatch → Action S Portfolio
  unfolding find_one
  update user_id id dto = do find_one user_id id; t.update id (renamed dto)

  unfoldable pub delete : ℕ → ℕ → Action S (Unit {0})
  unfolding find_one
  delete user_id id = do find_one user_id id; t.delete id; pure tt

  unfoldable pub add_asset : ℕ → ℕ → NewAsset F → Action S (Asset F)
  unfolding find_one
  add_asset user_id portfolio_id dto = do
    find_one user_id portfolio_id
    λ s. assets.create (fresh_id s) (asset_of portfolio_id dto) s

  unfoldable pub remove_asset : ℕ → ℕ → ℕ → Action S (Unit {0})
  unfolding find_one
  remove_asset user_id portfolio_id asset_id = do
    find_one user_id portfolio_id
    own assets asset_portfolio portfolio_id asset_id (text "Asset")
    assets.delete asset_id
    pure tt
