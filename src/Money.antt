-- ===== src/Money.antt =====
-- The value object `Money` (src/shared/kernel/money.ts): a signed count of 10^-8 units with its
-- currency, and every method of it. The proofs are in the modules below.
pub mod Ceiling
pub mod LedgerText
pub mod Conversion
pub mod Display
pub mod Precision
mod Tests
use payflow_x.Prelude.{
  ℕ, ◌+◌, ◌-◌, ◌*◌, ◌/◌, ◌%◌, ◌^◌, ◌<◌, Bool, not, ◌&&◌, ◌||◌, List, [], ◌∷◌, ◌++◌, ltb, leb, ◌==◌,
  if◌then◌else◌,
}
use payflow_x.Prelude.Result.{Result, ok, err, ◌>>=◌, ◌>>◌, throw_if}
use payflow_x.Prelude.Lists.{length}
use payflow_x.Prelude.Int.{
  ℤ, pos, is_negative, magnitude, signed, ◌+ℤ◌, ◌-ℤ◌, scale, quotient, ltb_ℤ, eqb_ℤ,
}
use payflow_x.Text.{Text, to_decimal, pad_start}
use payflow_x.Amount.{
  Currency, currency_decimals, same_currency, ledger_scale, ledger_unit, ceiling_units, MoneyError,
  invalid_amount, precision, currency_mismatch, amount_too_large, ParsedAmount, parse_amount,
  to_ledger_units, Rate, parse_rate,
}

pub record Money : Type 0 where
  pub ledger_units : ℤ
  pub currency : Currency

-- The minus of a negative number.
abbrev pub minus : Bool → Text
minus negative = if negative then b'-' ∷ [] else []

unfoldable pub to_ledger_string : Money → Text
to_ledger_string m =
    let n = magnitude m.ledger_units in
    minus (is_negative m.ledger_units)
    ++ (to_decimal (n / ledger_unit)
        ++ b'.' ∷ pad_start ledger_scale (to_decimal (n % ledger_unit)))

-- `ledgerUnits >= CEILING_UNITS || ledgerUnits <= -CEILING_UNITS`
abbrev pub over_ceiling : ℤ → Bool
over_ceiling u = leb ceiling_units (magnitude u)

-- `context ?? …`: the text that the error quotes.
unfoldable pub from_units : ℤ → Currency → Text → Result MoneyError Money
from_units u c context =
    if over_ceiling u
    then err (amount_too_large context)
    else ok (record { ledger_units = u; currency = c })

-- `fromUnits` with no context.
abbrev pub from_own_units : ℤ → Currency → Result MoneyError Money
from_own_units u c = from_units u c (to_ledger_string (record { ledger_units = u; currency = c }))

-- `Money.of`
unfoldable pub of : Text → Currency → Result MoneyError Money
of raw c = do
  p ← parse_amount raw
  throw_if (ltb (currency_decimals c) (length p.fraction)) (precision c (currency_decimals c) raw)
  u ← to_ledger_units p raw
  from_units u c raw

-- `Money.restore`
unfoldable pub restore : Text → Currency → Result MoneyError Money
restore raw c = do
  p ← parse_amount raw
  throw_if (ltb ledger_scale (length p.fraction)) (invalid_amount raw)
  u ← to_ledger_units p raw
  from_units u c raw

-- `Money.zero`
abbrev pub zero_money : Currency → Money
zero_money c = record { ledger_units = pos 0; currency = c }

-- `assertSameCurrency`
abbrev pub assert_same_currency : Money → Money → Result MoneyError (Unit {0})
assert_same_currency a b =
    throw_if (not (same_currency a.currency b.currency)) (currency_mismatch a.currency b.currency)

unfoldable pub add : Money → Money → Result MoneyError Money
add a b = do assert_same_currency a b; from_own_units (a.ledger_units +ℤ b.ledger_units) a.currency

unfoldable pub subtract : Money → Money → Result MoneyError Money
subtract a b = do
  assert_same_currency a b
  from_own_units (a.ledger_units -ℤ b.ledger_units) a.currency

-- One unit of the currency's last decimal, in ledger units.
abbrev pub step : Currency → ℕ
step c = 10 ^ (ledger_scale - currency_decimals c)

unfoldable pub convert_to : Money → Currency → Text → Result MoneyError Money
convert_to m target raw = do
  throw_if (same_currency target m.currency) (currency_mismatch m.currency target)
  r ← parse_rate raw
  let exact = quotient (scale m.ledger_units r.numerator) r.denominator
  from_own_units (scale (quotient exact (step target)) (step target)) target

unfoldable pub equals : Money → Money → Bool
equals a b = same_currency a.currency b.currency && eqb_ℤ a.ledger_units b.ledger_units

unfoldable pub is_less_than : Money → Money → Result MoneyError Bool
is_less_than a b = do assert_same_currency a b; ok (ltb_ℤ a.ledger_units b.ledger_units)

unfoldable pub is_greater_than_or_equal : Money → Money → Result MoneyError Bool
is_greater_than_or_equal a b = do
  assert_same_currency a b
  ok (not (ltb_ℤ a.ledger_units b.ledger_units))

unfoldable pub is_zero : Money → Bool
is_zero m = eqb_ℤ m.ledger_units (pos 0)

-- The displayed number of last-decimal units: rounded half away from zero.
unfoldable pub rounded : ℕ → ℕ → ℕ
rounded n s = if leb s (n % s * 2) then n / s + 1 else n / s

-- `toString`, which `toJSON` returns.
unfoldable pub to_string : Money → Text
unfolding rounded
to_string m =
    let decimals = currency_decimals m.currency in
    let q = rounded (magnitude m.ledger_units) (step m.currency) in
    let base = 10 ^ decimals in
    let text =
      if ltb 0 decimals
      then to_decimal (q / base) ++ b'.' ∷ pad_start decimals (to_decimal (q % base))
      else to_decimal (q / base) in
    minus (is_negative m.ledger_units && not (q == 0)) ++ text

-- What the private constructor and `fromUnits` guarantee of every value.
abbrev pub IsBelowCeiling : Money → Type 0
IsBelowCeiling m = magnitude m.ledger_units < ceiling_units
