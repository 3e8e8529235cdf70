-- ===== src/Money/LedgerText.antt =====
-- `toLedgerString` and `restore` are inverse: what is written to the database is read back.
use payflow_x.Prelude.{
  ℕ, suc, ltb, ◌+◌, ◌*◌, ◌/◌, ◌%◌, ◌<◌, ◌≤◌, ◌≡◌, refl, Bool, true, false, ◌∷◌, ◌++◌, arith, le→ltb,
}
use payflow_x.Prelude.Result.{ok}
use payflow_x.Prelude.Lists.{length}
use payflow_x.Prelude.Int.{ℤ, pos, negsuc, magnitude, signed}
use payflow_x.Text.{
  Text, to_decimal, value, value-to_decimal, All-IsDigit-to_decimal, to_decimal-pos,
  length-to_decimal, pad_start, pad_end, value-pad_start, length-pad_start, All-IsDigit-pad_start,
  trim_start_zeros, trim_end_zeros, value-trim_start_zeros, length-trim_start_zeros,
  length-trim_end_zeros, pad_end-trim_end_zeros,
}
use payflow_x.Amount.{
  ParsedAmount, ledger_scale, ledger_unit, ceiling_units, parse_amount, to_ledger_units, Currency,
}
use payflow_x.Amount.Parsing.{sign_text, parse_amount_decimal}
use payflow_x.Money.{Money, to_ledger_string, restore, from_units, IsBelowCeiling}

-- The whole part and the eight decimals of a number of ledger units.
abbrev whole_text : ℕ → Text
whole_text n = to_decimal (n / ledger_unit)

abbrev fraction_text : ℕ → Text
fraction_text n = pad_start ledger_scale (to_decimal (n % ledger_unit))

fraction_digits : (n : ℕ) → length (to_decimal (n % ledger_unit)) ≤ 8
fraction_digits n = length-to_decimal 7 (n % ledger_unit) (omega arith)

length-fraction_text : (n : ℕ) → length (fraction_text n) ≡ 8
length-fraction_text n = length-pad_start 8 (to_decimal (n % ledger_unit)) (fraction_digits n)

value-fraction_text :
    (n : ℕ) → value (pad_end 8 (trim_end_zeros (fraction_text n))) ≡ n % ledger_unit
value-fraction_text n =
    let back : pad_end 8 (trim_end_zeros (fraction_text n)) ≡ fraction_text n =
      rw (length-fraction_text n) at (pad_end-trim_end_zeros (fraction_text n)) in
    rw (back, value-pad_start) (value-to_decimal (n % ledger_unit))

parsed_text : Bool → ℕ → ParsedAmount
parsed_text b n = record {
  negative = b;
  whole = trim_start_zeros (whole_text n);
  fraction = trim_end_zeros (fraction_text n);
}

-- A text of this form parses to its parts.
parse_amount-text :
    (b : Bool) (n : ℕ)
    → parse_amount (sign_text b ++ (whole_text n ++ b'.' ∷ fraction_text n)) ≡ ok (parsed_text b n)
unfolding parsed_text
parse_amount-text b n =
    parse_amount_decimal b (whole_text n) (fraction_text n)
      (All-IsDigit-to_decimal (n / ledger_unit))
      (All-IsDigit-pad_start 8 (to_decimal (n % ledger_unit))
        (All-IsDigit-to_decimal (n % ledger_unit)))
      (to_decimal-pos (n / ledger_unit)) (omega (arith, length-fraction_text n))

-- The parts make up the number again.
to_ledger_units-text :
    (b : Bool) (n : ℕ) (raw : Text)
    → n < ceiling_units
    → to_ledger_units (parsed_text b n) raw ≡ ok (signed b n)
unfolding to_ledger_units parsed_text
to_ledger_units-text b n raw h =
    let short : length (trim_start_zeros (whole_text n)) ≤ 13 = omega (
      arith,
      length-trim_start_zeros (whole_text n),
      length-to_decimal 11 (n / ledger_unit) (omega arith),
    ) in
    let exact : value (trim_start_zeros (whole_text n)) * ledger_unit
          + value (pad_end 8 (trim_end_zeros (fraction_text n)))
        ≡ n =
      omega (
        arith,
        value-trim_start_zeros (whole_text n),
        value-to_decimal (n / ledger_unit),
        value-fraction_text n,
      ) in
    rw (le→ltb 13 (length (trim_start_zeros (whole_text n))) short, exact)

restore-text :
    (b : Bool) (n : ℕ) (c : Currency)
    → n < ceiling_units
    → restore (sign_text b ++ (whole_text n ++ b'.' ∷ fraction_text n)) c
      ≡ from_units (signed b n) c (sign_text b ++ (whole_text n ++ b'.' ∷ fraction_text n))
unfolding restore
restore-text b n c h =
    let short : length (trim_end_zeros (fraction_text n)) ≤ 8 =
      omega (arith, length-trim_end_zeros (fraction_text n), length-fraction_text n) in
    let e : ltb 8 (length (parsed_text b n).fraction) ≡ false =
      unfold parsed_text in le→ltb 8 (length (trim_end_zeros (fraction_text n))) short in
    rw (parse_amount-text b n) (rw (e, to_ledger_units-text b n _ h) refl)

restore-units :
    (u : ℤ) (c : Currency)
    → magnitude u < ceiling_units
    → restore (to_ledger_string (record { ledger_units = u; currency = c })) c
      ≡ ok (record { ledger_units = u; currency = c })
unfolding to_ledger_string from_units
restore-units (pos n) c h = rw (restore-text false n c h) (ground arith)
restore-units (negsuc n) c h = rw (restore-text true (suc n) c h) (ground arith)

-- Every value that a Money can hold is read back from the text that is stored for it: exactly, with
-- its sign and all eight decimals, whatever its currency's own precision.
pub restore-to_ledger_string :
    (m : Money) → IsBelowCeiling m → restore (to_ledger_string m) m.currency ≡ ok m
restore-to_ledger_string m h = restore-units m.ledger_units m.currency h
