-- ===== src/Wallet/Exchange.antt =====
-- The exchange between two wallets of a user (src/modules/wallet/exchange.service.ts, with
-- utils/validate-currency-precision.ts and utils/get-decimal-places.ts), over the client of the
-- adapters. The arithmetic of decimals, the order of texts and the clock are parameters.
pub mod Legs
pub mod Outcome
pub mod Stored
mod Tests
use payflow_x.Prelude.{ℕ, ◌-◌, Bool, true, false, List, [], ◌∷◌, Option, ltb, ◌==◌, if◌then◌else◌}
use payflow_x.Prelude.Result.{Result}
use payflow_x.Text.{Text}
use payflow_x.Amount.{Currency, currency_decimals, same_currency}
use payflow_x.Http.{
  bad_request, unprocessable, text, http, wallet_not_found, rate_not_found, stale_rate,
  max_decimals, Error, Action, pure, lift, gets, assert_found, ◌>>=◌, ◌>>◌, throw_if,
}
use payflow_x.Wallet.Retry.{Thrown, with_optimistic_retry}
use payflow_x.Wallet.UseCases.{lock_conflict, insufficient_balance}
use payflow_x.Wallet.Persistence.{Client, WalletRow, Change, increment, decrement}

-- `ExchangeInterface`
pub record Exchange : Type 0 where
  pub user_id : ℕ
  pub from_currency : Currency
  pub to_currency : Currency
  pub amount : Text

-- `ExchangeRate`: the rate and its date, in milliseconds.
pub record Rate (D : Type 0) : Type 0 where
  pub rate : D
  pub date : ℕ

-- The data of `transaction.create`; the type, the status and the description are fixed by the code.
pub record Conversion (D : Type 0) : Type 0 where
  pub wallet_id : ℕ
  pub to_wallet_id : ℕ
  pub amount : D
  pub currency : Currency
  pub rate : D
  pub received : D
  pub to_currency : Currency

-- The row that it answers with, and the answer of the exchange.
pub record ConversionRow (D : Type 0) : Type 0 where
  pub id : ℕ
  pub given : Conversion D

pub record Exchanged (D : Type 0) : Type 0 where
  pub transaction : ConversionRow D
  pub received : D
  pub rate : D
  pub to_currency : Currency

-- What the exchange calls besides the statements on wallets: `new Decimal`, `decimalPlaces`,
-- `lessThan`, `times`, `a.localeCompare(b) > 0`, the latest rate, and the record.
pub record Market (S D : Type 0) : Type 0 where
  pub new_decimal : Text → Result Error D
  pub decimal_places : D → ℕ
  pub less_than : D → D → Bool
  pub times : D → D → D
  pub after : ℕ → ℕ → Bool
  pub find_rate : Currency → Currency → S → Option (Rate D)
  pub create_conversion : Conversion D → Action S (ConversionRow D)

-- One of the `legs`; `change` is what `data` does to the balance.
pub record Leg (D : Type 0) : Type 0 where
  pub wallet : WalletRow D
  pub change : Change D

module _ {S D : Type 0} (c : Client S D) (k : Market S D) where
  -- `validateCurrencyPrecision`; a currency of the type `Currency` is supported.
  unfoldable pub validate_currency_precision : Currency → D → Action S (Unit {0})
  validate_currency_precision currency amount =
      throw_if (ltb (currency_decimals currency) (k.decimal_places amount))
        (http bad_request (max_decimals currency (currency_decimals currency)))

  -- The legs, sorted by the identifier of their wallet.
  unfoldable pub legs : WalletRow D → WalletRow D → D → D → List (Leg D)
  legs source target amount received =
      let debited : Leg D = record { wallet = source; change = decrement amount } in
      let credited : Leg D = record { wallet = target; change = increment received } in
      if k.after source.id target.id then credited ∷ (debited ∷ []) else debited ∷ (credited ∷ [])

  unfoldable pub swap_legs : List (Leg D) → Action S (Unit {0})
  swap_legs [] = pure tt
  swap_legs (leg ∷ rest) = do
    count ← c.update_many leg.wallet.id leg.wallet.version leg.change
    throw_if (count == 0) lock_conflict
    swap_legs rest

  abbrev pub conversion_of : Exchange → WalletRow D → WalletRow D → Rate D → D → Conversion D
  conversion_of cmd source target rate amount = record {
    wallet_id = source.id;
    to_wallet_id = target.id;
    amount = amount;
    currency = cmd.from_currency;
    rate = rate.rate;
    received = k.times amount rate.rate;
    to_currency = cmd.to_currency;
  }

  abbrev pub exchanged_of : Exchange → Rate D → D → ConversionRow D → Exchanged D
  exchanged_of cmd rate amount transaction = record {
    transaction = transaction;
    received = k.times amount rate.rate;
    rate = rate.rate;
    to_currency = cmd.to_currency;
  }

  -- The tests and the writes once the three rows are there. A rate from the future is of age 0,
  -- which is not above the greatest age.
  unfoldable pub exchange_rows :
      ℕ → ℕ → Exchange → D → WalletRow D → WalletRow D → Rate D → Action S (Exchanged D)
  exchange_rows max_age now cmd amount source target rate = do
    throw_if (ltb max_age (now - rate.date))
        (http unprocessable (stale_rate cmd.from_currency cmd.to_currency))
    throw_if (k.less_than source.balance amount) insufficient_balance
    swap_legs (legs source target amount (k.times amount rate.rate))
    transaction ← k.create_conversion (conversion_of cmd source target rate amount)
    pure (exchanged_of cmd rate amount transaction)

  -- The work of the transaction.
  unfoldable pub exchange_work : ℕ → ℕ → Exchange → D → Action S (Exchanged D)
  unfolding exchange_rows
  exchange_work max_age now cmd amount = do
    source_wallet ← gets (c.find_unique cmd.user_id cmd.from_currency)
    target_wallet ← gets (c.find_unique cmd.user_id cmd.to_currency)
    exchange_rate ← gets (k.find_rate cmd.from_currency cmd.to_currency)
    source ← assert_found source_wallet (wallet_not_found cmd.from_currency)
    target ← assert_found target_wallet (wallet_not_found cmd.to_currency)
    rate ← assert_found exchange_rate (rate_not_found cmd.from_currency cmd.to_currency)
    exchange_rows max_age now cmd amount source target rate

  -- `ExchangeService.execute`; `transaction` is the client's `$transaction`.
  unfoldable pub execute_exchange :
      (Action S (Exchanged D) → Action S (Exchanged D))
      → (Error → Thrown)
      → (ℕ → S → S)
      → (ℕ → ℕ)
      → ℕ
      → ℕ
      → Exchange
      → Action S (Exchanged D)
  unfolding validate_currency_precision
  execute_exchange transaction view sleep jitter max_age now cmd = do
    throw_if (same_currency cmd.from_currency cmd.to_currency)
        (http bad_request (text "Source and destination currency must differ"))
    amount ← lift (k.new_decimal cmd.amount)
    validate_currency_precision cmd.from_currency amount
    with_optimistic_retry view (transaction (exchange_work max_age now cmd amount)) sleep jitter
