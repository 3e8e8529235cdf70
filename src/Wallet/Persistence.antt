-- ===== src/Wallet/Persistence.antt =====
-- The adapters of the wallet's ports over the database
-- (src/modules/wallet/infrastructure/persistence). The database client and its decimals are
-- parameters: a statement of the client is one action, and a decimal is whatever it stores.
pub mod Statements
pub mod Swaps
pub mod Balances
pub mod Races
mod Tests
use payflow_x.Prelude.{ℕ, Bool, true, false, String, Option, none, some, ◌==◌}
use payflow_x.Prelude.Result.{Result, ok, err}
use payflow_x.Text.{Text}
use payflow_x.Amount.{Currency, MoneyError}
use payflow_x.Money.{Money, restore, to_ledger_string}
use payflow_x.Http.{Error, domain, Action, pure, lift, ◌>>=◌, ◌>>◌}
use payflow_x.Wallet.Ports.{
  WalletSnapshot, TransactionType, TransactionStatus, BeneficiarySnapshot, Description,
  NewTransaction, TransactionRecord, WalletTx, UnitOfWork,
}
use payflow_x.Wallet.Retry.{Thrown, with_optimistic_retry}

-- `WalletRow`, with decimals `D`.
pub record WalletRow (D : Type 0) : Type 0 where
  pub id : ℕ
  pub user_id : Option ℕ
  pub currency : Currency
  pub balance : D
  pub version : ℕ

-- `{ increment }` or `{ decrement }`
pub data Change (D : Type 0) : Type 0 where
  increment decrement : D → Change D

-- The data of `transaction.create`.
pub record TransactionData (D : Type 0) : Type 0 where
  pub wallet_id : ℕ
  pub type : TransactionType
  pub amount : D
  pub currency : Currency
  pub status : TransactionStatus
  pub description : Description
  pub metadata : Option BeneficiarySnapshot

-- The row that it answers with.
pub record TransactionRow (D : Type 0) : Type 0 where
  pub id : ℕ
  pub to_wallet_id : Option ℕ
  pub given : TransactionData D
  pub reverses_transaction_id : Option ℕ
  pub created_at : ℕ

-- What the adapters call: `toFixed(8)`, `toString`, `new Decimal`, and the statements of the client
-- on wallets and transactions. `update_many` has the identifier and the version of
-- its `where`, adds one to the version, and answers with the count.
pub record Client (S D : Type 0) : Type 0 where
  pub to_fixed : D → Text
  pub to_text : D → Text
  pub decimal : Text → D
  pub find_unique : ℕ → Currency → S → Option (WalletRow D)
  pub upsert : ℕ → Currency → Action S (WalletRow D)
  pub update_many : ℕ → ℕ → Change D → Action S ℕ
  pub create_transaction : TransactionData D → Action S (TransactionRow D)

module _ {S D : Type 0} (c : Client S D) where
  -- `toSnapshot` after `Money.restore`, whose errors it throws.
  unfoldable pub snapshot_from : WalletRow D → Result MoneyError Money → Result Error WalletSnapshot
  snapshot_from row (err e) = err (domain e)
  snapshot_from row (ok balance) = ok (record {
    id = row.id;
    user_id = row.user_id;
    currency = row.currency;
    balance = balance;
    version = row.version;
  })

  unfoldable pub to_snapshot : WalletRow D → Result Error WalletSnapshot
  unfolding snapshot_from
  to_snapshot row = snapshot_from row (restore (c.to_fixed row.balance) row.currency)

  unfoldable pub present : Result Error WalletSnapshot → Result Error (Option WalletSnapshot)
  present (ok w) = ok (some w)
  present (err e) = err e

  -- `row === null ? null : toSnapshot(row)`
  unfoldable pub snapshot_of : Option (WalletRow D) → Result Error (Option WalletSnapshot)
  unfolding to_snapshot present
  snapshot_of none = ok none
  snapshot_of (some row) = present (to_snapshot row)

  unfoldable pub find_by_user_and_currency : ℕ → Currency → Action S (Option WalletSnapshot)
  unfolding snapshot_of
  find_by_user_and_currency user_id currency s = (snapshot_of (c.find_unique user_id currency s), s)

  unfoldable pub find_or_create_empty : ℕ → Currency → Action S WalletSnapshot
  unfolding to_snapshot
  find_or_create_empty user_id currency = do row ← c.upsert user_id currency; lift (to_snapshot row)

  -- `compareAndSwap`
  unfoldable pub compare_and_swap : ℕ → ℕ → Change D → Action S Bool
  compare_and_swap wallet_id expected_version balance = do
    count ← c.update_many wallet_id expected_version balance
    pure (count == 1)

  unfoldable pub credit : ℕ → ℕ → Money → Action S Bool
  unfolding compare_and_swap
  credit wallet_id expected_version amount =
      compare_and_swap wallet_id expected_version (increment (c.decimal (to_ledger_string amount)))

  unfoldable pub debit : ℕ → ℕ → Money → Action S Bool
  unfolding compare_and_swap
  debit wallet_id expected_version amount =
      compare_and_swap wallet_id expected_version (decrement (c.decimal (to_ledger_string amount)))

  -- `{ ...row, amount: row.amount.toString() }`
  unfoldable pub record_of : TransactionRow D → TransactionRecord
  record_of row = record {
    id = row.id;
    wallet_id = row.given.wallet_id;
    to_wallet_id = row.to_wallet_id;
    type = row.given.type;
    amount = c.to_text row.given.amount;
    currency = row.given.currency;
    status = row.given.status;
    description = row.given.description;
    metadata = row.given.metadata;
    reverses_transaction_id = row.reverses_transaction_id;
    created_at = row.created_at;
  }

  -- `PrismaTransactionRepository.create`
  unfoldable pub create : NewTransaction → Action S TransactionRecord
  unfolding record_of
  create transaction = do
    row ← c.create_transaction (record {
      wallet_id = transaction.wallet_id;
      type = transaction.type;
      amount = c.decimal (to_ledger_string transaction.amount);
      currency = transaction.amount.currency;
      status = transaction.status;
      description = transaction.description;
      metadata = transaction.metadata;
    })
    pure (record_of row)

  abbrev pub repositories : WalletTx S
  repositories = record {
    find_by_user_and_currency = find_by_user_and_currency;
    find_or_create_empty = find_or_create_empty;
    credit = credit;
    debit = debit;
    create = create;
  }

  -- `PrismaUnitOfWork.run`: `transaction` is the client's `$transaction`.
  module _ (transaction : Action S TransactionRecord → Action S TransactionRecord)
      (view : Error → Thrown) (sleep : ℕ → S → S) (jitter : ℕ → ℕ) where
    unfoldable pub run : Action S TransactionRecord → Action S TransactionRecord
    unfolding with_optimistic_retry
    run work = with_optimistic_retry view (transaction work) sleep jitter

    abbrev pub prisma : UnitOfWork S
    prisma = record { tx = repositories; run = run }
