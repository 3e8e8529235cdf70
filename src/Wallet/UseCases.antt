-- ===== src/Wallet/UseCases.antt =====
-- The use cases of src/modules/wallet/application: deposit.service.ts, withdraw.service.ts and
-- send.service.ts, over any unit of work `u` and any webhook dispatcher.
pub mod Outcome
use payflow_x.Prelude.{ℕ, String, not, Option, none, some, List, [], ◌∷◌}
use payflow_x.Prelude.Result.{Result, ok, err}
use payflow_x.Text.{Text}
use payflow_x.Amount.{Currency, MoneyError, amount_too_large}
use payflow_x.Money.{Money, add, is_less_than}
use payflow_x.Http.{
  conflict, unprocessable, text, wallet_not_found, Error, http, domain, Action, pure, lift,
  assert_found, ◌>>=◌, ◌>>◌, throw_if,
}
use payflow_x.Wallet.Ports.{
  WalletSnapshot, deposit, withdrawal, transfer, completed, BeneficiarySnapshot, Description, given,
  deposited, withdrawn, sent_to, TransactionRecord, WalletTx, UnitOfWork,
}
use payflow_x.Wallet.Boundary.{to_money}

-- `DepositInterface`, which is also `WithdrawInterface`, and `SendInterface`.
pub record Movement : Type 0 where
  pub user_id : ℕ
  pub currency : Currency
  pub amount : Text
  pub description : Option String

pub record Sending : Type 0 where
  pub user_id : ℕ
  pub beneficiary_id : ℕ
  pub amount : Text

-- The events of webhook.service.ts that the use cases dispatch.
pub data EventType : Type 0 where
  deposit_confirmed withdraw_completed transfer_completed : EventType

pub record WebhookEvent : Type 0 where
  pub type : EventType
  pub wallet_id : ℕ
  pub user_id : ℕ
  pub amount : Text
  pub currency : Currency
  pub transaction_id : ℕ

-- Errors of money.ts pass through the services as they are.
abbrev pub raised : {A : Type 0} → Result MoneyError A → Result Error A
raised (ok a) = ok a
raised (err e) = err (domain e)

-- The `try`/`catch` round `wallet.balance.add(money)`.
room_for : Result MoneyError Money → Result Error (Unit {0})
room_for (ok m) = ok tt
room_for (err (amount_too_large raw)) =
    err (http unprocessable (text "The resulting balance would exceed the maximum allowed"))
room_for (err e) = err (domain e)

abbrev pub lock_conflict : Error
lock_conflict = http conflict (text "Optimistic lock conflict")

abbrev pub insufficient_balance : Error
insufficient_balance = http unprocessable (text "Insufficient balance")

abbrev pub or_default : Option String → Description → Description
or_default none d = d
or_default (some s) d = given s

module _ {S : Type 0} (tx : WalletTx S) where
  -- The work of a deposit.
  unfoldable pub deposit_work : Movement → Money → Action S TransactionRecord
  unfolding room_for
  deposit_work cmd money = do
    wallet ← tx.find_or_create_empty cmd.user_id cmd.currency
    lift (room_for (add wallet.balance money))
    applied ← tx.credit wallet.id wallet.version money
    throw_if (not applied) lock_conflict
    tx.create (record {
      wallet_id = wallet.id;
      type = deposit;
      status = completed;
      amount = money;
      description = or_default cmd.description (deposited cmd.currency);
      metadata = none;
    })

  -- What a withdrawal and a transfer share: find the wallet, test its balance, and debit it.
  unfoldable pub debit_wallet : ℕ → Currency → Money → Action S WalletSnapshot
  debit_wallet user_id currency money = do
    found ← tx.find_by_user_and_currency user_id currency
    wallet ← assert_found found (wallet_not_found currency)
    short ← lift (raised (is_less_than wallet.balance money))
    throw_if short insufficient_balance
    applied ← tx.debit wallet.id wallet.version money
    throw_if (not applied) lock_conflict
    pure wallet

  unfoldable pub withdraw_work : Movement → Money → Action S TransactionRecord
  unfolding debit_wallet
  withdraw_work cmd money = do
    wallet ← debit_wallet cmd.user_id cmd.currency money
    tx.create (record {
      wallet_id = wallet.id;
      type = withdrawal;
      status = completed;
      amount = money;
      description = or_default cmd.description (withdrawn cmd.currency);
      metadata = none;
    })

  unfoldable pub send_work : Sending → BeneficiarySnapshot → Money → Action S TransactionRecord
  unfolding debit_wallet
  send_work cmd beneficiary money = do
    wallet ← debit_wallet cmd.user_id beneficiary.currency money
    tx.create (record {
      wallet_id = wallet.id;
      type = transfer;
      status = completed;
      amount = money;
      description = sent_to beneficiary.alias;
      metadata = some beneficiary;
    })

-- The store of the wallets beside the state of the webhook service.
pub record App (S W : Type 0) : Type 0 where
  pub store : S
  pub hooks : W

module _ {S W : Type 0} (dispatch : WebhookEvent → Action W (Unit {0})) where
  -- `await this.webhookService.dispatch(…).catch(…)`: whatever the dispatch returns is dropped.
  notified : WebhookEvent → TransactionRecord → S → W → Result Error TransactionRecord × App S W
  notified event transaction s w =
      (ok transaction, record { store = s; hooks = (dispatch event w).1 })

  -- The transaction commits or throws first; then the event goes out.
  pub finish :
      EventType
      → ℕ
      → Text
      → Currency
      → Result Error TransactionRecord × S
      → W
      → Result Error TransactionRecord × App S W
  unfolding notified
  finish type user_id amount currency (ok t, s) w =
      notified
        (record {
          type = type;
          wallet_id = t.wallet_id;
          user_id = user_id;
          amount = amount;
          currency = currency;
          transaction_id = t.id;
        })
        t s w
  finish type user_id amount currency (err e, s) w = (err e, record { store = s; hooks = w })

  module _ (u : UnitOfWork S) where
    -- `DepositService.execute`
    unfoldable pub execute_deposit : Movement → Action (App S W) TransactionRecord
    unfolding finish
    execute_deposit cmd = do
      money ← lift (to_money cmd.amount cmd.currency)
      λ a.
          finish deposit_confirmed cmd.user_id cmd.amount cmd.currency
            (u.run (deposit_work u.tx cmd money) a.store) a.hooks

    -- `WithdrawService.execute`
    unfoldable pub execute_withdraw : Movement → Action (App S W) TransactionRecord
    unfolding finish
    execute_withdraw cmd = do
      money ← lift (to_money cmd.amount cmd.currency)
      λ a.
          finish withdraw_completed cmd.user_id cmd.amount cmd.currency
            (u.run (withdraw_work u.tx cmd money) a.store) a.hooks

    -- `SendService.execute`; the reader of beneficiaries is the port `BeneficiaryReader`.
    unfoldable pub execute_send :
        (ℕ → ℕ → Option BeneficiarySnapshot) → Sending → Action (App S W) TransactionRecord
    unfolding finish
    execute_send find_active cmd = do
      beneficiary ← assert_found (find_active cmd.user_id cmd.beneficiary_id) (text "Beneficiary")
      money ← lift (to_money cmd.amount beneficiary.currency)
      λ a.
          finish transfer_completed cmd.user_id cmd.amount beneficiary.currency
            (u.run (send_work u.tx cmd beneficiary money) a.store) a.hooks

-- A call of `WalletService` (src/modules/wallet/wallet.service.ts) that moves money by these use
-- cases; `exchange` is in Wallet.Exchange.
pub data Command : Type 0 where
  deposit_money withdraw_money : Movement → Command
  send_money : Sending → Command

module _ {S W : Type 0} (dispatch : WebhookEvent → Action W (Unit {0})) (u : UnitOfWork S)
    (find_active : ℕ → ℕ → Option BeneficiarySnapshot) where
  unfoldable pub serve : Command → Action (App S W) TransactionRecord
  serve (deposit_money cmd) = execute_deposit dispatch u cmd
  serve (withdraw_money cmd) = execute_withdraw dispatch u cmd
  serve (send_money cmd) = execute_send dispatch u find_active cmd

  -- A sequence of calls; one that throws ends only itself.
  unfoldable pub serve_all : List Command → App S W → App S W
  serve_all [] a = a
  serve_all (c ∷ cs) a = serve_all cs (serve c a).1
