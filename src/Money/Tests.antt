-- ===== src/Money/Tests.antt =====
-- Runs of money.ts on concrete texts, and its theorems at concrete values.
use payflow_x.Prelude.{◌≡◌, refl, arith}
use payflow_x.Prelude.Result.{ok, err}
use payflow_x.Prelude.Int.{pos, negsuc, ◌+ℤ◌, scale, quotient}
use payflow_x.Text.{
  codes, to_decimal, pad_start, value, value_from, trim_start_zeros, trim_end_zeros, pad_end,
}
use payflow_x.Amount.{
  ars, usd, usdt, precision, amount_too_large, invalid_amount, currency_mismatch, parse_amount,
  to_ledger_units, parse_rate, match_rate, match_amount, Rate,
}
use payflow_x.Money.{
  Money, zero_money, of, restore, add, convert_to, to_string, to_ledger_string, from_units,
  IsBelowCeiling, rounded,
}
use payflow_x.Money.LedgerText.{restore-to_ledger_string}
use payflow_x.Money.Ceiling.{make, sum, make-IsBelowCeiling}
use payflow_x.Money.Conversion.{IsTruncation, convert_to-IsTruncation}
use payflow_x.Money.Display.{displayed, of-to_string}

-- A balance that FX rounding left before precision was enforced: 1.0005 USD.
abbrev legacy : Money
legacy = record { ledger_units = pos 100_050_000; currency = usd }

abbrev debt : Money
debt = record { ledger_units = negsuc 0; currency = usdt }

restore-zero : restore (codes "0") ars ≡ ok (zero_money ars)
unfolding restore value_from parse_amount match_amount match_rate to_ledger_units from_units value
    trim_start_zeros trim_end_zeros pad_end
restore-zero = refl

to_string-legacy : to_string legacy ≡ codes "1.00"
unfolding to_string to_decimal pad_start
to_string-legacy = refl

to_ledger_string-debt : to_ledger_string debt ≡ codes "-0.00000001"
unfolding to_ledger_string to_decimal pad_start
to_ledger_string-debt = refl

restore-to_ledger_string_example : restore (to_ledger_string legacy) usd ≡ ok legacy
restore-to_ledger_string_example = restore-to_ledger_string legacy (omega arith)

make-IsBelowCeiling_example :
    IsBelowCeiling (record { ledger_units = pos 200_100_000; currency = usd })
unfolding make add from_units ◌+ℤ◌
make-IsBelowCeiling_example = make-IsBelowCeiling (sum legacy legacy) refl

abbrev pesos : Money
pesos = record { ledger_units = pos 100_050_000_000; currency = ars }

converted :
    convert_to legacy ars (codes "1000.129")
    ≡ ok (record { ledger_units = pos 100_062_000_000; currency = ars })
unfolding convert_to parse_rate match_rate value value_from from_units scale quotient
converted = refl

convert_to-IsTruncation_example :
    (r : Rate) × (parse_rate (codes "1000.129") ≡ ok r)
    × IsTruncation legacy r ars (record { ledger_units = pos 100_062_000_000; currency = ars })
convert_to-IsTruncation_example = convert_to-IsTruncation legacy ars (codes "1000.129") converted

of-to_string_example : of (to_string legacy) usd ≡ ok (displayed legacy)
unfolding rounded
of-to_string_example = of-to_string legacy (omega arith)

-- A trailing zero is no decimal: "10.100" is within two decimals.
tenth : of (codes "10.100") usd ≡ ok (record { ledger_units = pos 1_010_000_000; currency = usd })
unfolding of parse_amount match_amount match_rate to_ledger_units from_units value value_from
    trim_start_zeros trim_end_zeros pad_end
tenth = refl

rejected :
    (of (codes "1.005") usd ≡ err (precision usd 2 (codes "1.005")))
    × (of (codes "1e9") usd ≡ err (invalid_amount (codes "1e9")))
    × (of (codes "1000000000000") ars ≡ err (amount_too_large (codes "1000000000000")))
    × (add legacy pesos ≡ err (currency_mismatch usd ars))
unfolding of add parse_amount match_amount match_rate to_ledger_units from_units value value_from
    trim_start_zeros trim_end_zeros pad_end
rejected = (refl, refl, refl, refl)
