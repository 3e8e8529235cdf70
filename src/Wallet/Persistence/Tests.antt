-- ===== src/Wallet/Persistence/Tests.antt =====
-- Two requests race for one wallet of 50 USD.
use payflow_x.Prelude.{ℕ, suc, Bool, true, false, ◌&&◌, ◌==◌, Option, none, some, if◌then◌else◌}
use payflow_x.Prelude.Int.{ℤ, pos, ◌+ℤ◌, ◌-ℤ◌}
use payflow_x.Prelude.Result.{Result, ok, err}
use payflow_x.Amount.{MoneyError, usd}
use payflow_x.Money.{Money, restore, to_ledger_string}
use payflow_x.Http.{Action, other, throw}
use payflow_x.Wallet.Ports.{WalletSnapshot}
use payflow_x.Wallet.Persistence.{Client, WalletRow, Change, increment, decrement, debit}
use payflow_x.Wallet.Persistence.Statements.{is_sound}
use payflow_x.Wallet.Persistence.Races.{System, hold}

abbrev units : ℤ → ℤ
units d = d

abbrev decimal_of : Result MoneyError Money → ℤ
decimal_of (ok m) = m.ledger_units
decimal_of (err e) = pos 0

abbrev apply : Change ℤ → ℤ → ℤ
apply (increment d) u = u +ℤ d
apply (decrement d) u = u -ℤ d

abbrev write : Change ℤ → WalletRow ℤ → WalletRow ℤ
write change row = record row { balance = apply change row.balance; version = suc row.version }

abbrev is_at : ℕ → ℕ → WalletRow ℤ → Bool
is_at i v row = (row.id == i) && (row.version == v)

-- The column and its constraint.
abbrev store_if : Bool → Change ℤ → Action (WalletRow ℤ) ℕ
store_if true change s = (ok 1, write change s)
store_if false change s = (err (other "23514"), s)

abbrev upsert_if : Bool → Action (WalletRow ℤ) (WalletRow ℤ)
upsert_if true s = (ok s, s)
upsert_if false s = (err (other "P2003"), s)

-- The database is the one wallet, of the user 1.
abbrev client : Client (WalletRow ℤ) ℤ
client = record {
  to_fixed = λ d. to_ledger_string (record { ledger_units = d; currency = usd });
  to_text = λ d. to_ledger_string (record { ledger_units = d; currency = usd });
  decimal = λ t. decimal_of (restore t usd);
  find_unique = λ u cur s. if u == 1 then some s else none;
  upsert = λ u cur s. upsert_if (u == 1) s;
  update_many = λ i v change s.
      if is_at i v s then store_if (is_sound (apply change s.balance)) change s else (ok 0, s);
  create_transaction = λ row. throw (other "none");
}

abbrev row_of : ℕ → WalletRow ℤ → Option (WalletRow ℤ)
row_of i s = if s.id == i then some s else none

abbrev swap_if : Bool → Change ℤ → Action (WalletRow ℤ) ℕ
swap_if at change s =
    if at then store_if (is_sound (apply change s.balance)) change s else (ok 0, s)

abbrev wallet : WalletRow ℤ
wallet = record {
  id = 3;
  user_id = some 1;
  currency = usd;
  balance = pos 5_000_000_000;
  version = 7;
}

abbrev fifty : WalletSnapshot
fifty = record {
  id = 3;
  user_id = some 1;
  currency = usd;
  balance = record { ledger_units = pos 5_000_000_000; currency = usd };
  version = 7;
}

abbrev forty : Money
forty = record { ledger_units = pos 4_000_000_000; currency = usd }

abbrev start : System (WalletRow ℤ)
start = record { db = wallet; held = λ i. none }

abbrev after : WalletRow ℤ
after = (debit client 3 7 forty wallet).1

-- Both requests have read the wallet, and then the first debits it.
abbrev holding : ℕ → Option WalletSnapshot
holding = hold 1 (some fifty) (hold 0 (some fifty) (λ i. none))
