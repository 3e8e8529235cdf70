-- ===== src/Wallet/Tests.antt =====
-- The use cases on a small memory, and their theorems there.
use payflow_x.Prelude.{ℕ, ◌+◌, ◌≡◌, refl, arith, none, some, List, [], ◌∷◌, Option}
use payflow_x.Prelude.Result.{ok, err}
use payflow_x.Prelude.Int.{pos, ◌+ℤ◌, ◌-ℤ◌}
use payflow_x.Text.{
  codes, value, value_from, trim_start_zeros, trim_end_zeros, pad_end, pad_start, to_decimal,
}
use payflow_x.Amount.{usd, parse_amount, match_amount, match_rate, to_ledger_units}
use payflow_x.Money.{Money, add, subtract, is_less_than, from_units, to_string, of}
use payflow_x.Money.Precision.{matches_dto}
use payflow_x.Http.{Action, other}
use payflow_x.Wallet.Ports.{
  TransactionRecord, BeneficiarySnapshot, deposit, withdrawal, transfer, completed, deposited,
  withdrawn, sent_to,
}
use payflow_x.Wallet.Boundary.{to_money}
use payflow_x.Wallet.UseCases.{
  Movement, Sending, WebhookEvent, App, insufficient_balance, deposit_work, withdraw_work,
  send_work, debit_wallet, deposit_money, withdraw_money, send_money, Command, serve, serve_all,
  execute_withdraw,
}
use payflow_x.Wallet.UseCases.Outcome.{Failed, serve-Failed, serve_any_dispatch}
use payflow_x.Wallet.InMemory.{
  StoredWallet, Memory, wallet_of, in_memory, repositories, run, credit, debit,
  find_or_create_empty, find_by_user_and_currency, create,
}
use payflow_x.Wallet.InMemory.Contract.{IsValid, IsInjective}
use payflow_x.Wallet.InMemory.Settling.{Settles, Records}
use payflow_x.Wallet.InMemory.Deposits.{deposit-Settles}
use payflow_x.Wallet.InMemory.Debits.{Debited, withdraw-Debited, send-Debited}
use payflow_x.Wallet.InMemory.Failures.{Unchanged, serve-Unchanged}
use payflow_x.Wallet.InMemory.Histories.{serve_all-IsValid}

abbrev uuid : ℕ → ℕ
uuid n = n + 100

uuid-IsInjective : IsInjective uuid
uuid-IsInjective i j e = omega arith

abbrev dollars : ℕ → Money
dollars n = record { ledger_units = pos n; currency = usd }

abbrev savings : StoredWallet
savings = record {
  id = 7;
  user_id = 1;
  currency = usd;
  balance = dollars 5_000_000_000;
  version = 3;
}

abbrev memory : Memory
memory = record {
  wallets = savings ∷ [];
  records = [];
  conflicts_to_inject = 0;
  fail_next_create = none;
  drawn = 0;
}

memory-IsValid : IsValid uuid memory
unfolding wallet_of
memory-IsValid = record {
  keyed = (refl, refl, tt);
  fresh = λ n le. ground arith;
  sane = ((refl, refl, omega arith), tt);
}

abbrev ten : Movement
ten = record { user_id = 1; currency = usd; amount = codes "10.00"; description = none }

abbrev receipt : ℕ → TransactionRecord
receipt n = record {
  id = 100;
  wallet_id = 7;
  to_wallet_id = none;
  type = deposit;
  amount = codes "10.00";
  currency = usd;
  status = completed;
  description = deposited usd;
  metadata = none;
  reverses_transaction_id = none;
  created_at = n;
}

abbrev after_deposit : Memory
after_deposit = record memory {
  wallets = record savings { balance = dollars 6_000_000_000; version = 4 } ∷ [];
  records = receipt 9 ∷ [];
  drawn = 1;
}

deposited_ten :
    run (deposit_work (repositories uuid 9) ten (dollars 1_000_000_000)) memory
    ≡ (ok (receipt 9), after_deposit)
unfolding run deposit_work find_or_create_empty credit create wallet_of add from_units ◌+ℤ◌
    to_string to_decimal pad_start
deposited_ten = refl

deposit-Settles_example :
    (b : Money) × (add (dollars 5_000_000_000) (dollars 1_000_000_000) ≡ ok b)
    × Settles uuid 9 memory 1 usd b (receipt 9) after_deposit
    × Records (receipt 9) deposit 7 (dollars 1_000_000_000)
unfolding wallet_of
deposit-Settles_example =
    deposit-Settles uuid 9 uuid-IsInjective ten (dollars 1_000_000_000) memory after_deposit
      memory-IsValid refl deposited_ten

abbrev withdrawal_receipt : TransactionRecord
withdrawal_receipt = record (receipt 9) { type = withdrawal; description = withdrawn usd }

abbrev after_debit : TransactionRecord → Memory
after_debit t = record memory {
  wallets = record savings { balance = dollars 4_000_000_000; version = 4 } ∷ [];
  records = t ∷ [];
  drawn = 1;
}

withdrawn_ten :
    run (withdraw_work (repositories uuid 9) ten (dollars 1_000_000_000)) memory
    ≡ (ok withdrawal_receipt, after_debit withdrawal_receipt)
unfolding run withdraw_work debit_wallet find_by_user_and_currency debit create wallet_of subtract
    is_less_than from_units ◌-ℤ◌ to_string to_decimal pad_start
withdrawn_ten = refl

withdraw-Debited_example :
    Debited uuid 9 memory 1 usd
      (dollars 1_000_000_000)
      withdrawal_receipt
      (after_debit withdrawal_receipt)
    × Records withdrawal_receipt withdrawal 7 (dollars 1_000_000_000)
withdraw-Debited_example =
    withdraw-Debited uuid 9 uuid-IsInjective ten (dollars 1_000_000_000) memory
      (after_debit withdrawal_receipt) memory-IsValid withdrawn_ten

abbrev aunt : BeneficiarySnapshot
aunt = record {
  id = 4;
  alias = "aunt";
  currency = usd;
  beneficiary_type = "PERSON";
  account_number = "123";
  bank_name = none;
}

abbrev gift : Sending
gift = record { user_id = 1; beneficiary_id = 4; amount = codes "10.00" }

abbrev transfer_receipt : TransactionRecord
transfer_receipt = record (receipt 9) {
  type = transfer;
  description = sent_to "aunt";
  metadata = some aunt;
}

sent_ten :
    run (send_work (repositories uuid 9) gift aunt (dollars 1_000_000_000)) memory
    ≡ (ok transfer_receipt, after_debit transfer_receipt)
unfolding run send_work debit_wallet find_by_user_and_currency debit create wallet_of subtract
    is_less_than from_units ◌-ℤ◌ to_string to_decimal pad_start
sent_ten = refl

send-Debited_example :
    Debited uuid 9 memory 1 usd
      (dollars 1_000_000_000)
      transfer_receipt
      (after_debit transfer_receipt)
    × Records transfer_receipt transfer 7 (dollars 1_000_000_000)
    × (transfer_receipt.metadata ≡ some aunt)
send-Debited_example =
    send-Debited uuid 9 uuid-IsInjective gift aunt (dollars 1_000_000_000) memory
      (after_debit transfer_receipt) memory-IsValid sent_ten

-- A webhook service that records the ids of the transactions it hears of, and one that throws.
abbrev listening : WebhookEvent → Action (List ℕ) (Unit {0})
listening event heard = (ok tt, event.transaction_id ∷ heard)

abbrev failing : WebhookEvent → Action (List ℕ) (Unit {0})
failing event heard = (err (other "unreachable"), heard)

abbrev app : App Memory (List ℕ)
app = record { store = memory; hooks = [] }

abbrev no_beneficiaries : ℕ → ℕ → Option BeneficiarySnapshot
no_beneficiaries user_id id = none

abbrev hundred : Movement
hundred = record ten { amount = codes "100.00" }

overdrawn :
    (serve listening (in_memory uuid 9) no_beneficiaries (withdraw_money hundred) app).0
    ≡ err insufficient_balance
unfolding serve execute_withdraw to_money of run withdraw_work debit_wallet
    find_by_user_and_currency wallet_of is_less_than parse_amount match_amount match_rate
    to_ledger_units from_units value value_from trim_start_zeros trim_end_zeros pad_end
overdrawn = refl

serve-Unchanged_example :
    Unchanged app
      (serve listening (in_memory uuid 9) no_beneficiaries (withdraw_money hundred) app).1
serve-Unchanged_example =
    serve-Unchanged listening uuid 9 no_beneficiaries (withdraw_money hundred) app
      insufficient_balance overdrawn

serve-Failed_example :
    Failed listening
      (in_memory uuid 9)
      no_beneficiaries
      app
      insufficient_balance
      (serve listening (in_memory uuid 9) no_beneficiaries (withdraw_money hundred) app).1
serve-Failed_example =
    serve-Failed listening (in_memory uuid 9) no_beneficiaries (withdraw_money hundred) app
      insufficient_balance overdrawn

serve_any_dispatch_example :
    ((serve listening (in_memory uuid 9) no_beneficiaries (deposit_money ten) app).0
      ≡ (serve failing (in_memory uuid 9) no_beneficiaries (deposit_money ten) app).0)
    × ((serve listening (in_memory uuid 9) no_beneficiaries (deposit_money ten) app).1.store
        ≡ (serve failing (in_memory uuid 9) no_beneficiaries (deposit_money ten) app).1.store)
serve_any_dispatch_example =
    serve_any_dispatch listening failing (in_memory uuid 9) no_beneficiaries (deposit_money ten) app

abbrev history : List Command
history = deposit_money ten ∷ withdraw_money hundred ∷ send_money gift ∷ withdraw_money ten ∷ []

serve_all-IsValid_example :
    IsValid uuid (serve_all listening (in_memory uuid 9) no_beneficiaries history app).store
unfolding matches_dto match_rate
serve_all-IsValid_example =
    serve_all-IsValid uuid 9 uuid-IsInjective listening no_beneficiaries history app
      (refl, (refl, (refl, (refl, tt)))) memory-IsValid
