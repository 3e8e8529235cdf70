-- ===== src/Money/Display.antt =====
-- `toString`: what a user sees, and what happens when it is sent back as an amount.
use native.Mathlib.Nat.{mod-lt, div-add-mod}
use payflow_x.Prelude.{
  ℕ, zero, suc, ◌+◌, ◌*◌, ◌/◌, ◌%◌, ◌^◌, ◌<◌, ◌≤◌, ◌≡◌, refl, ap, Bool, true, false, not, ◌&&◌, ◌∷◌,
  ◌++◌, arith, le→ltb, ltb, leb, ◌==◌, Bool-cases, lt→leb, inl, inr, ◌∙◌,
}
use payflow_x.Prelude.Result.{ok}
use payflow_x.Prelude.Lists.{length}
use payflow_x.Prelude.Int.{ℤ, is_negative, magnitude, signed, magnitude-signed}
use payflow_x.Text.{
  Text, to_decimal, value, value-to_decimal, All-IsDigit-to_decimal, to_decimal-pos,
  length-to_decimal, pad_start, pad_end, value-pad_start, length-pad_start, All-IsDigit-pad_start,
  trim_start_zeros, trim_end_zeros, value-trim_start_zeros, length-trim_start_zeros,
  length-trim_end_zeros, value-pad_end-trim_end_zeros,
}
use payflow_x.Amount.{
  Currency, ars, usd, usdt, brl, currency_decimals, ledger_unit, ceiling_units, parse_amount,
  to_ledger_units, ParsedAmount,
}
use payflow_x.Amount.Parsing.{sign_text, parse_amount_decimal, pow-pos}
use payflow_x.Money.{Money, of, to_string, from_units, rounded, step}

-- Rounding is to the nearest step, and a half goes up.
pub rounded_nearest :
    (n s : ℕ) → 0 < s → (2 * n < 2 * (rounded n s * s) + s) × (2 * (rounded n s * s) ≤ 2 * n + s)
unfolding rounded
rounded_nearest n s h = elim (Bool-cases (leb s (n % s * 2))) [
  | inl up ↦
      rw up (let far : s ≤ n % s * 2 = ground arith in omega (arith, mod-lt n h, div-add-mod n s))
  | inr down ↦
      rw down
        (let near : n % s * 2 < s = ground arith in omega (arith, mod-lt n h, div-add-mod n s))
]

-- `q` steps of a currency with `k` decimals, as text.
abbrev whole_text : ℕ → ℕ → Text
whole_text k q = to_decimal (q / 10 ^ k)

abbrev fraction_text : ℕ → ℕ → Text
fraction_text k q = pad_start k (to_decimal (q % 10 ^ k))

abbrev shown : Bool → ℕ → ℕ → Text
shown b k q = sign_text b ++ (whole_text k q ++ b'.' ∷ fraction_text k q)

length-fraction_text : (j q : ℕ) → length (fraction_text (suc j) q) ≡ suc j
length-fraction_text j q =
    length-pad_start (suc j) (to_decimal (q % 10 ^ suc j))
      (length-to_decimal j (q % 10 ^ suc j) (mod-lt q (pow-pos (suc j))))

module _ (c : Currency) (j d q : ℕ) (decimals : currency_decimals c ≡ suc j)
    (fits : suc j + d ≡ 8) where
  value-fraction_text :
      value (pad_end 8 (trim_end_zeros (fraction_text (suc j) q))) ≡ q % 10 ^ suc j * 10 ^ d
  value-fraction_text =
      let e : length (fraction_text (suc j) q) + d ≡ 8 = omega (arith, length-fraction_text j q) in
      (rw e at (value-pad_end-trim_end_zeros d (fraction_text (suc j) q)))
      ∙ ap (λ v. v * 10 ^ d)
          (value-pad_start (suc j) (to_decimal (q % 10 ^ suc j))
            ∙ value-to_decimal (q % 10 ^ suc j))

  parts : Bool → ParsedAmount
  parts b = record {
    negative = b;
    whole = trim_start_zeros (whole_text (suc j) q);
    fraction = trim_end_zeros (fraction_text (suc j) q);
  }

  parse_amount-shown : (b : Bool) → parse_amount (shown b (suc j) q) ≡ ok (parts b)
  unfolding parts
  parse_amount-shown b =
      parse_amount_decimal b (whole_text (suc j) q) (fraction_text (suc j) q)
        (All-IsDigit-to_decimal (q / 10 ^ suc j))
        (All-IsDigit-pad_start (suc j) (to_decimal (q % 10 ^ suc j))
          (All-IsDigit-to_decimal (q % 10 ^ suc j)))
        (to_decimal-pos (q / 10 ^ suc j)) (omega (arith, length-fraction_text j q))

  module _ (small : q / 10 ^ suc j < 10 ^ 12)
      (sum : q / 10 ^ suc j * ledger_unit + q % 10 ^ suc j * 10 ^ d ≡ q * 10 ^ d) where
    to_ledger_units-parts :
        (b : Bool) (raw : Text) → to_ledger_units (parts b) raw ≡ ok (signed b (q * 10 ^ d))
    unfolding to_ledger_units parts
    to_ledger_units-parts b raw =
        let short : length (trim_start_zeros (whole_text (suc j) q)) ≤ 13 = omega (
          arith,
          length-trim_start_zeros (whole_text (suc j) q),
          length-to_decimal 11 (q / 10 ^ suc j) small,
        ) in
        let whole : value (trim_start_zeros (whole_text (suc j) q)) ≡ q / 10 ^ suc j =
          value-trim_start_zeros (whole_text (suc j) q) ∙ value-to_decimal (q / 10 ^ suc j) in
        rw (
          le→ltb 13 (length (trim_start_zeros (whole_text (suc j) q))) short,
          whole,
          value-fraction_text,
          sum,
        )

    of-shown :
        (b : Bool)
        → of (shown b (suc j) q) c ≡ from_units (signed b (q * 10 ^ d)) c (shown b (suc j) q)
    unfolding of
    of-shown b =
        let short : length (trim_end_zeros (fraction_text (suc j) q)) ≤ currency_decimals c =
          omega
            (arith, length-trim_end_zeros (fraction_text (suc j) q), length-fraction_text j q) in
        let e : ltb (currency_decimals c) (length (parts b).fraction) ≡ false =
          unfold parts in
          le→ltb (currency_decimals c) (length (trim_end_zeros (fraction_text (suc j) q))) short in
        rw (parse_amount-shown b) (rw (e, to_ledger_units-parts b (shown b (suc j) q)) refl)

-- Client input of this form is accepted, in each currency.
of-shown_currency :
    (c : Currency) (b : Bool) (q : ℕ)
    → q * step c < ceiling_units
    → of (shown b (currency_decimals c) q) c
      ≡ from_units (signed b (q * step c)) c (shown b (currency_decimals c) q)
of-shown_currency ars b q h = of-shown ars 1 6 q refl (omega arith) (omega arith) (omega arith) b
of-shown_currency usd b q h = of-shown usd 1 6 q refl (omega arith) (omega arith) (omega arith) b
of-shown_currency usdt b q h = of-shown usdt 5 2 q refl (omega arith) (omega arith) (omega arith) b
of-shown_currency brl b q h = of-shown brl 1 6 q refl (omega arith) (omega arith) (omega arith) b

-- The value that is displayed: the nearest whole number of steps.
pub displayed : Money → Money
displayed m = record m {
  ledger_units =
      signed (is_negative m.ledger_units)
        (rounded (magnitude m.ledger_units) (step m.currency) * step m.currency);
}

to_string-shown :
    (u : ℤ) (c : Currency)
    → to_string (record { ledger_units = u; currency = c })
      ≡ shown
          (is_negative u && not (rounded (magnitude u) (step c) == 0))
          (currency_decimals c)
          (rounded (magnitude u) (step c))
unfolding to_string
to_string-shown u ars = ground arith
to_string-shown u usd = ground arith
to_string-shown u usdt = ground arith
to_string-shown u brl = ground arith

signed-unless_zero : (n : Bool) (q s : ℕ) → signed (n && not (q == 0)) (q * s) ≡ signed n (q * s)
signed-unless_zero false q s = refl
signed-unless_zero true zero s = let e : 0 * s ≡ 0 = omega arith in rw e refl
signed-unless_zero true (suc q) s = ground arith

of-to_string_units :
    (u : ℤ) (c : Currency)
    → rounded (magnitude u) (step c) * step c < ceiling_units
    → of (to_string (record { ledger_units = u; currency = c })) c
      ≡ ok (displayed (record { ledger_units = u; currency = c }))
unfolding displayed from_units
of-to_string_units u c h = rw (to_string-shown u c) (
    rw
      (
        of-shown_currency c (is_negative u && not (rounded (magnitude u) (step c) == 0))
            (rounded (magnitude u) (step c)) h,
        signed-unless_zero (is_negative u) (rounded (magnitude u) (step c)) (step c),
      )
      (rw
        (
          magnitude-signed (is_negative u) (rounded (magnitude u) (step c) * step c),
          lt→leb (rounded (magnitude u) (step c) * step c) ceiling_units h,
        )
        refl))

-- Sent back as client input, the displayed text of a value is accepted and stands for the value
-- rounded to the nearest step, unless that rounding reaches the ceiling.
pub of-to_string :
    (m : Money)
    → rounded (magnitude m.ledger_units) (step m.currency) * step m.currency < ceiling_units
    → of (to_string m) m.currency ≡ ok (displayed m)
of-to_string m h = of-to_string_units m.ledger_units m.currency h
