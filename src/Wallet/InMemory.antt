-- ===== src/Wallet/InMemory.antt =====
-- The in-memory unit of work (src/modules/wallet/testing/in-memory-unit-of-work.ts): it keeps the
-- two promises of the ports that the use cases rely on. `randomUUID` is a parameter: its n-th draw
-- is `random_uuid n`; `new Date()` is the parameter `now`.
pub mod Stored
pub mod Contract
pub mod Settling
pub mod Deposits
pub mod Debits
pub mod Failures
pub mod Histories
use payflow_x.Prelude.{
  ℕ, suc, ◌+◌, ◌-◌, String, Bool, true, false, not, ◌&&◌, ◌||◌, Option, none, some, List, [], ◌∷◌,
  ◌++◌, ltb, ◌==◌, if◌then◌else◌,
}
use payflow_x.Prelude.Result.{Result, ok, err}
use payflow_x.Prelude.Lists.{find}
use payflow_x.Prelude.Int.{pos}
use payflow_x.Amount.{Currency, MoneyError, same_currency}
use payflow_x.Money.{Money, zero_money, add, subtract, to_string}
use payflow_x.Http.{Error, domain, Action}
use payflow_x.Wallet.Ports.{WalletSnapshot, NewTransaction, TransactionRecord, WalletTx, UnitOfWork}

pub record StoredWallet : Type 0 where
  pub id : ℕ
  pub user_id : ℕ
  pub currency : Currency
  pub balance : Money
  pub version : ℕ

-- `InMemoryUnitOfWork`; `drawn` counts the ids that were drawn.
pub record Memory : Type 0 where
  pub wallets : List StoredWallet
  pub records : List TransactionRecord
  pub conflicts_to_inject : ℕ
  pub fail_next_create : Option Error
  pub drawn : ℕ

-- `this.wallets.get(id)` and `this.wallets.set(wallet.id, wallet)`.
abbrev pub get_wallet : ℕ → List StoredWallet → Option StoredWallet
get_wallet k [] = none
get_wallet k (w ∷ ws) = if w.id == k then some w else get_wallet k ws

abbrev pub set_wallet : StoredWallet → List StoredWallet → List StoredWallet
set_wallet v [] = v ∷ []
set_wallet v (w ∷ ws) = if w.id == v.id then v ∷ ws else w ∷ set_wallet v ws

abbrev pub is_of : ℕ → Currency → StoredWallet → Bool
is_of user_id currency w = w.user_id == user_id && same_currency w.currency currency

-- `walletOf`
unfoldable pub wallet_of : ℕ → Currency → List StoredWallet → Option StoredWallet
wallet_of user_id currency ws = find (is_of user_id currency) ws

-- `toSnapshot`
abbrev pub to_snapshot : StoredWallet → WalletSnapshot
to_snapshot w = record {
  id = w.id;
  user_id = some w.user_id;
  currency = w.currency;
  balance = w.balance;
  version = w.version;
}

-- `injectVersionConflicts` and `injectTransactionFailure`
pub inject_version_conflicts : ℕ → Memory → Memory
inject_version_conflicts count s = record s { conflicts_to_inject = count }

pub inject_transaction_failure : Error → Memory → Memory
inject_transaction_failure error s = record s { fail_next_create = some error }

abbrev snapshot_of : Option StoredWallet → Option WalletSnapshot
snapshot_of none = none
snapshot_of (some w) = some (to_snapshot w)

unfoldable pub find_by_user_and_currency : ℕ → Currency → Action Memory (Option WalletSnapshot)
find_by_user_and_currency user_id currency s =
    (ok (snapshot_of (wallet_of user_id currency s.wallets)), s)

-- `swap`, with the operation on the balance as an argument.
swap_balance : StoredWallet → Result MoneyError Money → Action Memory Bool
swap_balance w (ok balance) s = (
  ok true,
  record s {
    wallets = set_wallet (record w { balance = balance; version = w.version + 1 }) s.wallets;
  },
)
swap_balance w (err e) s = (err (domain e), s)

swap_found : Option StoredWallet → ℕ → (Money → Result MoneyError Money) → Action Memory Bool
unfolding swap_balance
swap_found none version op s = (ok false, s)
swap_found (some w) version op s =
    if not (w.version == version)
    then (ok false, s)
    else if ltb 0 s.conflicts_to_inject
    then (ok false, record s { conflicts_to_inject = s.conflicts_to_inject - 1 })
    else swap_balance w (op w.balance) s

unfoldable pub swap : ℕ → ℕ → (Money → Result MoneyError Money) → Action Memory Bool
unfolding swap_found
swap wallet_id version op s = swap_found (get_wallet wallet_id s.wallets) version op s

unfoldable pub credit : ℕ → ℕ → Money → Action Memory Bool
unfolding swap
credit wallet_id version amount = swap wallet_id version (λ b. add b amount)

unfoldable pub debit : ℕ → ℕ → Money → Action Memory Bool
unfolding swap
debit wallet_id version amount = swap wallet_id version (λ b. subtract b amount)

module _ (random_uuid : ℕ → ℕ) (now : ℕ) where
  -- `seedWallet` with a balance of "0", which `Money.restore` reads as zero, and version 1.
  abbrev pub empty_wallet : ℕ → Currency → Memory → StoredWallet
  empty_wallet user_id currency s = record {
    id = random_uuid s.drawn;
    user_id = user_id;
    currency = currency;
    balance = zero_money currency;
    version = 1;
  }

  found_or_created : Option StoredWallet → ℕ → Currency → Action Memory WalletSnapshot
  found_or_created (some w) user_id currency s = (ok (to_snapshot w), s)
  found_or_created none user_id currency s = (
    ok (to_snapshot (empty_wallet user_id currency s)),
    record s {
      wallets = set_wallet (empty_wallet user_id currency s) s.wallets;
      drawn = s.drawn + 1;
    },
  )

  unfoldable pub find_or_create_empty : ℕ → Currency → Action Memory WalletSnapshot
  unfolding found_or_created
  find_or_create_empty user_id currency s =
      found_or_created (wallet_of user_id currency s.wallets) user_id currency s

  abbrev pub record_of : NewTransaction → Memory → TransactionRecord
  record_of input s = record {
    id = random_uuid s.drawn;
    wallet_id = input.wallet_id;
    to_wallet_id = none;
    type = input.type;
    amount = to_string input.amount;
    currency = input.amount.currency;
    status = input.status;
    description = input.description;
    metadata = input.metadata;
    reverses_transaction_id = none;
    created_at = now;
  }

  create_unless : Option Error → NewTransaction → Action Memory TransactionRecord
  create_unless (some e) input s = (err e, record s { fail_next_create = none })
  create_unless none input s = (
    ok (record_of input s),
    record s { records = s.records ++ record_of input s ∷ []; drawn = s.drawn + 1 },
  )

  unfoldable pub create : NewTransaction → Action Memory TransactionRecord
  unfolding create_unless
  create input s = create_unless s.fail_next_create input s

  abbrev pub repositories : WalletTx Memory
  repositories = record {
    find_by_user_and_currency = find_by_user_and_currency;
    find_or_create_empty = find_or_create_empty;
    credit = credit;
    debit = debit;
    create = create;
  }

-- The `catch` of `run`: the two collections come back, the injected faults do not.
restored :
    Memory → Result Error TransactionRecord × Memory → Result Error TransactionRecord × Memory
restored before (ok t, s) = (ok t, s)
restored before (err e, s) =
    (err e, record s { wallets = before.wallets; records = before.records })

unfoldable pub run : Action Memory TransactionRecord → Action Memory TransactionRecord
unfolding restored
run work s = restored s (work s)

abbrev pub in_memory : (ℕ → ℕ) → ℕ → UnitOfWork Memory
in_memory random_uuid now = record { tx = repositories random_uuid now; run = run }
