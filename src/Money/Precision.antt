-- ===== src/Money/Precision.antt =====
-- What `Money.of` accepts: client input within the currency's own decimals, and never a negative
-- value from text that the request's pattern lets through (src/modules/wallet/dto/amount.dto.ts).
use payflow_x.Prelude.{
  ℕ, ◌+◌, ◌*◌, ◌%◌, ◌≤◌, ◌≡◌, refl, Bool, true, false, [], ◌∷◌, arith, is_some, inl, inr,
}
use payflow_x.Prelude.Result.{ok, err, Result-cases}
use payflow_x.Prelude.Lists.{length}
use payflow_x.Prelude.Int.{is_negative, magnitude, signed, magnitude-signed}
use payflow_x.Text.{Text, value, pad_end, value-pad_end}
use payflow_x.Amount.{
  MoneyError, Currency, ars, usd, usdt, brl, currency_decimals, ledger_unit, ParsedAmount,
  parse_amount, to_ledger_units, match_rate, match_amount,
}
use payflow_x.Money.{Money, of, from_units, step}

module _ (w : ℕ) (f : Text) where
  on_grid :
      (c : Currency)
      → length f ≤ currency_decimals c
      → (w * ledger_unit + value (pad_end 8 f)) % step c ≡ 0
  on_grid ars h = omega (arith, value-pad_end 2 6 f h)
  on_grid usd h = omega (arith, value-pad_end 2 6 f h)
  on_grid usdt h = omega (arith, value-pad_end 6 2 f h)
  on_grid brl h = omega (arith, value-pad_end 2 6 f h)

of_parts :
    (raw : Text) (c : Currency) (p : ParsedAmount) {m : Money}
    → parse_amount raw ≡ ok p
    → of raw c ≡ ok m
    → (length p.fraction ≤ currency_decimals c)
      × (m.currency ≡ c)
      × (m.ledger_units
          ≡ signed p.negative (value p.whole * ledger_unit + value (pad_end 8 p.fraction)))
unfolding of to_ledger_units from_units
of_parts raw c p e h = ground arith

not-of :
    (raw : Text) (c : Currency) {m : Money} {x : MoneyError}
    → parse_amount raw ≡ err x
    → of raw c ≡ ok m
    → ⊥
unfolding of
not-of raw c e h = ground arith

-- An accepted amount is in the given currency and a whole number of its last decimal.
pub of_on_grid :
    (raw : Text) (c : Currency) {m : Money}
    → of raw c ≡ ok m
    → (m.currency ≡ c) × (magnitude m.ledger_units % step c ≡ 0)
of_on_grid raw c {m} h = elim (Result-cases (parse_amount raw)) [
  | inl (p, e) ↦
      let (short, same, units) = of_parts raw c p e h in
      (same, rw (units, magnitude-signed) (on_grid (value p.whole) p.fraction c short))
  | inr (x, e) ↦ absurd (not-of raw c e h)
]

-- `AMOUNT_PATTERN` of amount.dto.ts, `/^\d+(\.\d+)?$/`: the same pattern as a rate's.
unfoldable pub matches_dto : Text → Bool
matches_dto raw = is_some (match_rate raw)

unsigned :
    (raw : Text) (p : ParsedAmount)
    → matches_dto raw ≡ true
    → parse_amount raw ≡ ok p
    → p.negative ≡ false
unfolding matches_dto parse_amount match_amount match_rate
unsigned [] p d h = cc
unsigned (c ∷ s) p d h = ground arith

-- An amount that passes the request's validation is never negative.
pub of_dto_nonneg :
    (raw : Text) (c : Currency) {m : Money}
    → matches_dto raw ≡ true
    → of raw c ≡ ok m
    → is_negative m.ledger_units ≡ false
of_dto_nonneg raw c {m} d h = elim (Result-cases (parse_amount raw)) [
  | inl (p, e) ↦
      let (short, same, units) = of_parts raw c p e h in rw (units, unsigned raw p d e) refl
  | inr (x, e) ↦ absurd (not-of raw c e h)
]
