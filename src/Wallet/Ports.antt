-- ===== src/Wallet/Ports.antt =====
-- The ports of the wallet's application layer: src/modules/wallet/application/ports. Ids are only
-- compared, so they are numbers.
use payflow_x.Prelude.{ℕ, String, Bool, Option}
use payflow_x.Text.{Text}
use payflow_x.Amount.{Currency}
use payflow_x.Money.{Money}
use payflow_x.Http.{Action}

pub record WalletSnapshot : Type 0 where
  pub id : ℕ
  pub user_id : Option ℕ
  pub currency : Currency
  pub balance : Money
  pub version : ℕ

pub data TransactionType : Type 0 where
  deposit withdrawal transfer : TransactionType

pub data TransactionStatus : Type 0 where
  pending completed failed cancelled reversed : TransactionStatus

-- `BeneficiarySnapshot`
pub record BeneficiarySnapshot : Type 0 where
  pub id : ℕ
  pub alias : String
  pub currency : Currency
  pub beneficiary_type : String
  pub account_number : String
  pub bank_name : Option String

-- A description is the client's, or a default that names the currency or the beneficiary's alias.
pub data Description : Type 0 where
  given : String → Description
  deposited withdrawn : Currency → Description
  sent_to : String → Description

-- The only metadata that the use cases write is that of a transfer: the beneficiary.
pub record NewTransaction : Type 0 where
  pub wallet_id : ℕ
  pub type : TransactionType
  pub status : TransactionStatus
  pub amount : Money
  pub description : Description
  pub metadata : Option BeneficiarySnapshot

pub record TransactionRecord : Type 0 where
  pub id : ℕ
  pub wallet_id : ℕ
  pub to_wallet_id : Option ℕ
  pub type : TransactionType
  pub amount : Text
  pub currency : Currency
  pub status : TransactionStatus
  pub description : Description
  pub metadata : Option BeneficiarySnapshot
  pub reverses_transaction_id : Option ℕ
  pub created_at : ℕ

-- `WalletTx`: the repositories bound to one transaction, over a store `S`.
pub record WalletTx (S : Type 0) : Type 0 where
  pub find_by_user_and_currency : ℕ → Currency → Action S (Option WalletSnapshot)
  pub find_or_create_empty : ℕ → Currency → Action S WalletSnapshot
  pub credit : ℕ → ℕ → Money → Action S Bool
  pub debit : ℕ → ℕ → Money → Action S Bool
  pub create : NewTransaction → Action S TransactionRecord

-- `UnitOfWork`: it hands the repositories to the work, and runs it.
pub record UnitOfWork (S : Type 0) : Type 0 where
  pub tx : WalletTx S
  pub run : Action S TransactionRecord → Action S TransactionRecord
