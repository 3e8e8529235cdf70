-- ===== src/Wallet/Exchange/Tests.antt =====
-- An exchange of 10 USD into ARS.
use payflow_x.Prelude.{◌*◌, ◌≡◌, ◌≢◌, refl, none, some, [], arith, ltb}
use payflow_x.Prelude.Int.{ℤ, pos, ◌+ℤ◌, ◌-ℤ◌, magnitude, ltb_ℤ}
use payflow_x.Prelude.Result.{ok, err}
use payflow_x.Amount.{ars, usd}
use payflow_x.Money.{restore}
use payflow_x.Http.{Error}
use payflow_x.Wallet.Exchange.{Market, Exchange, exchange_work}
use payflow_x.Wallet.Exchange.Legs.{WritesBoth, debit_leg, credit_leg}
use payflow_x.Wallet.Exchange.Outcome.{exchange_overflows, exchange-WritesBoth, recorded}
use payflow_x.Wallet.Exchange.Stored.{
  Db, row, row_of, units, put, client, decimal_of, client-IsClient, of_currency,
}

-- The user 2 has 50 USD and no ARS; a dollar is 3 pesos.
abbrev market : Market Db ℤ
market = record {
  new_decimal = λ t. ok (decimal_of (restore t usd));
  decimal_places = λ d. 2;
  less_than = ltb_ℤ;
  times = λ a b. pos (magnitude a * magnitude b);
  after = λ i j. ltb j i;
  find_rate = λ a b s. some (record { rate = pos 3; date = 1_000 });
  create_conversion = λ row s. (ok (record { id = 6; given = row }), s);
}

abbrev start : Db
start = put 9 (pos 5_000_000_000, 7) (put 8 (pos 0, 1) (λ i. none))

abbrev order : Exchange
order = record { user_id = 2; from_currency = usd; to_currency = ars; amount = [] }

abbrev ten : ℤ
ten = pos 1_000_000_000

usd_not_ars : usd ≢ ars
usd_not_ars h = cc

exchange-WritesBoth_example :
    (s' : Db) × WritesBoth client units row_of
      (debit_leg (row 9 (pos 5_000_000_000, 7)) ten)
      (credit_leg (row 8 (pos 0, 1)) (pos 3_000_000_000))
      start
      s'
    × (exchange_work client market 500 1_200 order ten start
        ≡ recorded client market order
            (row 9 (pos 5_000_000_000, 7))
            (row 8 (pos 0, 1))
            (record { rate = pos 3; date = 1_000 })
            ten
            s')
unfolding ◌+ℤ◌ ◌-ℤ◌
exchange-WritesBoth_example =
    exchange-WritesBoth client market units row_of client-IsClient of_currency 500 1_200 order ten
      start (row 9 (pos 5_000_000_000, 7)) (row 8 (pos 0, 1))
      (record { rate = pos 3; date = 1_000 }) refl refl refl usd_not_ars (omega arith) refl
      (refl, omega arith) (refl, omega arith)

-- The target wallet is one unit below the ceiling.
abbrev full : Db
full = put 9 (pos 5_000_000_000, 7) (put 8 (pos 99_999_999_999_999_999_999, 1) (λ i. none))

exchange_overflows_example :
    (e : Error) × (s' : Db) × (exchange_work client market 500 1_200 order ten full ≡ (err e, s'))
    × (row_of 8 s' ≡ some (row 8 (pos 99_999_999_999_999_999_999, 1)))
unfolding ◌+ℤ◌ ◌-ℤ◌
exchange_overflows_example =
    exchange_overflows client market units row_of client-IsClient of_currency 500 1_200 order ten
      full (row 9 (pos 5_000_000_000, 7)) (row 8 (pos 99_999_999_999_999_999_999, 1))
      (record { rate = pos 3; date = 1_000 }) refl refl refl usd_not_ars (omega arith) refl
      (refl, omega arith) (omega arith)
