-- ===== src/Amount.antt =====
-- Currencies, the errors of money.ts, and the two parsers for text sent by a client: `parseAmount`
-- and `parseRate` (src/shared/kernel/money.ts). Text is a list of character codes.
pub mod Parsing
use payflow_x.Prelude.{
  ℕ, zero, suc, ◌+◌, ◌*◌, ◌^◌, ◌≡◌, Bool, true, false, ◌&&◌, Option, none, some, List, [], ◌∷◌,
  ◌++◌, ltb, ◌==◌, if◌then◌else◌, refl,
}
use payflow_x.Prelude.Result.{Result, ok, err}
use payflow_x.Prelude.Lists.{length}
use payflow_x.Prelude.Int.{ℤ, pos, negsuc, signed}
use payflow_x.Text.{
  Text, codes, is_digit, value, value_from, pad_end, trim_start_zeros, trim_end_zeros,
}

pub data Currency : Type 0 where
  ars usd usdt brl : Currency

-- `CURRENCY_DECIMALS`
abbrev pub currency_decimals : Currency → ℕ
currency_decimals ars = 2
currency_decimals usd = 2
currency_decimals usdt = 6
currency_decimals brl = 2

-- `a === b`
abbrev pub same_currency : Currency → Currency → Bool
same_currency ars ars = true
same_currency usd usd = true
same_currency usdt usdt = true
same_currency brl brl = true
same_currency _ _ = false

abbrev pub ledger_scale : ℕ
ledger_scale = 8

abbrev pub ledger_unit : ℕ
ledger_unit = 10 ^ 8

abbrev pub ceiling_text : Text
ceiling_text = codes "1000000000000"

-- `BigInt(CEILING_TEXT) * LEDGER_UNIT`
abbrev pub ceiling_units : ℕ
ceiling_units = 1_000_000_000_000 * ledger_unit

abbrev pub max_rate_digits : ℕ
max_rate_digits = 36

-- The four error classes; `amount_too_large` carries the text that its message quotes.
pub data MoneyError : Type 0 where
  invalid_amount : Text → MoneyError
  precision : Currency → ℕ → Text → MoneyError
  currency_mismatch : Currency → Currency → MoneyError
  amount_too_large : Text → MoneyError

-- `ParsedAmount`
pub record ParsedAmount : Type 0 where
  pub negative : Bool
  pub whole : Text
  pub fraction : Text

-- The greedy `\d+` at the front of a text, and what is left.
unfoldable pub span_digits : Text → Text × Text
span_digits [] = ([], [])
span_digits (c ∷ s) = let (d, r) = span_digits s in if is_digit c then (c ∷ d, r) else ([], c ∷ s)

-- `(?:\.(\d+))?$` at the end of a match: the group, or that it is absent; `none` is no match.
fraction_rest : Text → Text × Text → Option (Text × Option Text)
fraction_rest whole (fraction, []) =
    if ltb 0 (length fraction) then some (whole, some fraction) else none
fraction_rest whole (fraction, c ∷ r) = none

fraction_part : Text → Text → Option (Text × Option Text)
unfolding fraction_rest span_digits
fraction_part whole [] = some (whole, none)
fraction_part whole (c ∷ s) = if c == b'.' then fraction_rest whole (span_digits s) else none

-- `RATE_PATTERN`, `/^(\d+)(?:\.(\d+))?$/`: the two groups.
digits_part : Text × Text → Option (Text × Option Text)
unfolding fraction_part
digits_part ([], r) = none
digits_part (c ∷ d, r) = fraction_part (c ∷ d) r

unfoldable pub match_rate : Text → Option (Text × Option Text)
unfolding digits_part span_digits
match_rate s = digits_part (span_digits s)

-- `AMOUNT_PATTERN`, which allows a minus in front.
with_sign : Bool → Option (Text × Option Text) → Option (Bool × Text × Option Text)
with_sign negative none = none
with_sign negative (some (w, f)) = some (negative, w, f)

unfoldable pub match_amount : Text → Option (Bool × Text × Option Text)
unfolding with_sign match_rate
match_amount [] = none
match_amount (c ∷ s) =
    if c == b'-' then with_sign true (match_rate s) else with_sign false (match_rate (c ∷ s))

-- `match[3] ?? ""`
abbrev pub or_empty : Option Text → Text
or_empty none = []
or_empty (some s) = s

parsed : Text → Option (Bool × Text × Option Text) → Result MoneyError ParsedAmount
parsed raw none = err (invalid_amount raw)
parsed raw (some (n, w, f)) =
    ok (record { negative = n; whole = trim_start_zeros w; fraction = trim_end_zeros (or_empty f) })

unfoldable pub parse_amount : Text → Result MoneyError ParsedAmount
unfolding parsed
parse_amount raw = parsed raw (match_amount raw)

-- `toLedgerUnits`
unfoldable pub to_ledger_units : ParsedAmount → Text → Result MoneyError ℤ
to_ledger_units p raw =
    if ltb (length ceiling_text) (length p.whole)
    then err (amount_too_large raw)
    else ok
        (signed p.negative (value p.whole * ledger_unit + value (pad_end ledger_scale p.fraction)))

-- A rate as a fraction of two numbers.
pub record Rate : Type 0 where
  pub numerator : ℕ
  pub denominator : ℕ

rate_of : Text → Option (Text × Option Text) → Result MoneyError Rate
rate_of raw none = err (invalid_amount raw)
rate_of raw (some (w, f)) =
    let fraction = or_empty f in
    if ltb max_rate_digits (length w + length fraction)
    then err (invalid_amount raw)
    else if value (w ++ fraction) == 0
    then err (invalid_amount raw)
    else ok (record { numerator = value (w ++ fraction); denominator = 10 ^ length fraction })

unfoldable pub parse_rate : Text → Result MoneyError Rate
unfolding rate_of
parse_rate raw = rate_of raw (match_rate raw)
