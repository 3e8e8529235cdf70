-- ===== src/Investments.antt =====
-- Orders on assets (src/modules/investment/investment.service.ts): a user buys with the USD wallet
-- and sells into it. The statements of the database and the numbers are parameters.
pub mod Statements
pub mod Buying
pub mod Racing
pub mod Selling
mod Tests
use payflow_x.Prelude.{
  ℕ, String, Bool, true, false, List, [], ◌∷◌, Option, none, some, if◌then◌else◌,
}
use payflow_x.Http.{
  unprocessable, text, http, Error, Action, pure, gets, assert_found, throw_if, ◌>>=◌, ◌>>◌,
}
use payflow_x.Floats.{Floats}
use payflow_x.Wallet.Persistence.{Change, increment, decrement}

-- `BuyAssetInterface` and `SellAssetInterface`
pub record Buy (F : Type 0) : Type 0 where
  pub user_id : ℕ
  pub asset_id : ℕ
  pub amount : F

pub record Sell (F : Type 0) : Type 0 where
  pub user_id : ℕ
  pub asset_id : ℕ
  pub quantity : F

-- The columns of `Asset`, of the USD wallet and of `Investment` that the service reads.
pub record Quote (D : Type 0) : Type 0 where
  pub symbol : String
  pub current_price : D

pub record UsdWallet (D : Type 0) : Type 0 where
  pub id : ℕ
  pub balance : D

pub record Position (D : Type 0) : Type 0 where
  pub quantity : D
  pub avg_buy_price : D
  pub current_value : D

-- The data of the writes to `Investment`: an `update` with `quantity: { increment }`, a `create`, and
-- an `update` that sets the quantity.
pub record Bought (F : Type 0) : Type 0 where
  pub quantity : F
  pub avg_buy_price : F
  pub current_value : F

pub record Reduced (F : Type 0) : Type 0 where
  pub quantity : F
  pub current_value : F

-- The data of `transaction.create`; the status, the category and the description follow from it.
pub data OrderType : Type 0 where
  investment_buy investment_sell : OrderType

pub record Order (F : Type 0) : Type 0 where
  pub wallet_id : ℕ
  pub type : OrderType
  pub amount : F
  pub asset_id : ℕ
  pub symbol : String
  pub quantity : F
  pub price : F
  pub proceeds : Option F

-- The `summary` of `getPortfolio`.
pub record Summary (F : Type 0) : Type 0 where
  pub total_value : F
  pub total_cost : F
  pub total_pnl : F
  pub total_pnl_percent : F

-- The statements of the client. A position is found by user and asset; `held` includes its asset.
pub record Desk (S D F : Type 0) : Type 0 where
  pub find_asset : ℕ → S → Option (Quote D)
  pub find_usd_wallet : ℕ → S → Option (UsdWallet D)
  pub find_position : ℕ → ℕ → S → Option (Position D)
  pub quote_of : ℕ → S → Quote D
  pub add_to_position : ℕ → ℕ → Bought F → Action S (Position D)
  pub create_position : ℕ → ℕ → Bought F → Action S (Position D)
  pub set_position : ℕ → ℕ → Reduced F → Action S (Position D)
  pub delete_position : ℕ → ℕ → Action S (Position D)
  pub create_order : Order F → Action S (Unit {0})
  pub update_balance : ℕ → Change F → Action S (Unit {0})

abbrev pub insufficient_usd : Error
insufficient_usd = http unprocessable (text "Insufficient USD balance")

abbrev pub insufficient_quantity : Error
insufficient_quantity = http unprocessable (text "Insufficient quantity")

module _ {S D F : Type 0} (desk : Desk S D F) (f : Floats D F) where
  -- The reads of `buy` and its test.
  unfoldable pub buy_reads : Buy F → Action S (Quote D × UsdWallet D)
  buy_reads cmd = do
    quoted ← gets (desk.find_asset cmd.asset_id)
    usd ← gets (desk.find_usd_wallet cmd.user_id)
    asset ← assert_found quoted (text "Asset")
    wallet ← assert_found usd (text "USD wallet")
    throw_if (f.less (f.number wallet.balance) cmd.amount) insufficient_usd
    pure (asset, wallet)

  abbrev pub bought_quantity : Buy F → Quote D → F
  bought_quantity cmd asset = f.round8 (f.over cmd.amount (f.number asset.current_price))

  -- The data of the position: with one that is there, the average of both purchases.
  abbrev pub added_to : Position D → F → F → Bought F
  added_to existing quantity price = record {
    quantity = quantity;
    avg_buy_price = f.round2 (
        f.over
          (f.plus (f.times (f.number existing.quantity) (f.number existing.avg_buy_price))
            (f.times quantity price))
          (f.plus (f.number existing.quantity) quantity));
    current_value = f.round2 (f.times (f.plus (f.number existing.quantity) quantity) price);
  }

  abbrev pub first_bought : F → F → Bought F
  first_bought quantity price = record {
    quantity = quantity;
    avg_buy_price = price;
    current_value = f.round2 (f.times quantity price);
  }

  unfoldable pub place : Buy F → Quote D → Option (Position D) → Action S (Position D)
  place cmd asset none =
      desk.create_position cmd.user_id cmd.asset_id
        (first_bought (bought_quantity cmd asset) (f.number asset.current_price))
  place cmd asset (some existing) =
      desk.add_to_position cmd.user_id cmd.asset_id
        (added_to existing (bought_quantity cmd asset) (f.number asset.current_price))

  abbrev pub buy_order : Buy F → Quote D → UsdWallet D → Order F
  buy_order cmd asset wallet = record {
    wallet_id = wallet.id;
    type = investment_buy;
    amount = cmd.amount;
    asset_id = cmd.asset_id;
    symbol = asset.symbol;
    quantity = bought_quantity cmd asset;
    price = f.number asset.current_price;
    proceeds = none;
  }

  -- The writes of `buy`, with the rows that its reads have found.
  unfoldable pub buy_writes : Buy F → Quote D × UsdWallet D → Action S (Position D)
  unfolding place
  buy_writes cmd rows = do
    existing ← gets (desk.find_position cmd.user_id cmd.asset_id)
    position ← place cmd rows.0 existing
    desk.create_order (buy_order cmd rows.0 rows.1)
    desk.update_balance rows.1.id (decrement cmd.amount)
    pure position

  -- The transaction of `buy`, at READ COMMITTED.
  unfoldable pub buy_work : Buy F → Action S (Position D)
  unfolding buy_reads buy_writes
  buy_work cmd = buy_reads cmd >>= buy_writes cmd

  -- The reads of `sell` and its test.
  unfoldable pub sell_reads : Sell F → Action S (Position D × UsdWallet D)
  sell_reads cmd = do
    held ← gets (desk.find_position cmd.user_id cmd.asset_id)
    usd ← gets (desk.find_usd_wallet cmd.user_id)
    position ← assert_found held (text "Investment")
    wallet ← assert_found usd (text "USD wallet")
    throw_if (f.less (f.number position.quantity) cmd.quantity) insufficient_quantity
    pure (position, wallet)

  abbrev pub proceeds_of : Sell F → Quote D → F
  proceeds_of cmd asset = f.round2 (f.times cmd.quantity (f.number asset.current_price))

  abbrev pub remaining_of : Sell F → Position D → F
  remaining_of cmd position = f.round8 (f.minus (f.number position.quantity) cmd.quantity)

  -- What is left of the position, which is deleted when nothing is.
  unfoldable pub reduce : Sell F → Quote D → F → Action S (Position D)
  reduce cmd asset remaining = elim (f.is_positive remaining) [
    | true ↦ desk.set_position cmd.user_id cmd.asset_id (record {
      quantity = remaining;
      current_value = f.round2 (f.times remaining (f.number asset.current_price));
    })
    | false ↦ desk.delete_position cmd.user_id cmd.asset_id
  ]

  abbrev pub sell_order : Sell F → Quote D → UsdWallet D → Order F
  sell_order cmd asset wallet = record {
    wallet_id = wallet.id;
    type = investment_sell;
    amount = proceeds_of cmd asset;
    asset_id = cmd.asset_id;
    symbol = asset.symbol;
    quantity = cmd.quantity;
    price = f.number asset.current_price;
    proceeds = some (proceeds_of cmd asset);
  }

  unfoldable pub sell_writes : Sell F → Position D × UsdWallet D → Action S (Position D × F)
  unfolding reduce
  sell_writes cmd rows = do
    asset ← gets (desk.quote_of cmd.asset_id)
    updated ← reduce cmd asset (remaining_of cmd rows.0)
    desk.create_order (sell_order cmd asset rows.1)
    desk.update_balance rows.1.id (increment (proceeds_of cmd asset))
    pure (updated, proceeds_of cmd asset)

  -- The transaction of `sell`.
  unfoldable pub sell_work : Sell F → Action S (Position D × F)
  unfolding sell_reads sell_writes
  sell_work cmd = sell_reads cmd >>= sell_writes cmd

  -- The sums of `getPortfolio`.
  unfoldable pub total_value : F → List (Position D) → F
  total_value sum [] = sum
  total_value sum (p ∷ ps) = total_value (f.plus sum (f.number p.current_value)) ps

  unfoldable pub total_cost : F → List (Position D) → F
  total_cost sum [] = sum
  total_cost sum (p ∷ ps) =
      total_cost (f.plus sum (f.times (f.number p.avg_buy_price) (f.number p.quantity))) ps

  -- `summary` of `getPortfolio`
  unfoldable pub summary_of : List (Position D) → Summary F
  unfolding total_value total_cost
  summary_of positions =
      let value = total_value f.zero_float positions in
      let cost = total_cost f.zero_float positions in
      record {
        total_value = f.round2 value;
        total_cost = f.round2 cost;
        total_pnl = f.round2 (f.minus value cost);
        total_pnl_percent =
            if f.is_positive cost
            then f.round2 (f.times (f.over (f.minus value cost) cost) f.hundred)
            else f.zero_float;
      }
