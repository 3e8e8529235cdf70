-- ===== src/Money/Conversion.antt =====
-- `convertTo` truncates toward zero, once, to the target's own precision.
use native.Mathlib.Nat.{mul-mod_left, div-div-eq-div-mul, div-mul-le_self, lt-div-mul-add}
use payflow_x.Prelude.{ℕ, ◌+◌, ◌*◌, ◌/◌, ◌%◌, ◌<◌, ◌≤◌, ◌≡◌, refl, ap, ◌∙◌, inl, inr, true, arith}
use payflow_x.Prelude.Result.{ok, err, Result-cases}
use payflow_x.Prelude.Int.{
  ℤ, pos, negsuc, is_negative, magnitude, scale, quotient, magnitude-signed,
}
use payflow_x.Text.{Text}
use payflow_x.Amount.{MoneyError, Currency, ars, usd, usdt, brl, Rate, parse_rate}
use payflow_x.Amount.Parsing.{parse_rate_pos}
use payflow_x.Money.{Money, convert_to, from_units, step}

magnitude-scale : (u : ℤ) (k : ℕ) → magnitude (scale u k) ≡ magnitude u * k
unfolding scale
magnitude-scale u k = magnitude-signed (is_negative u) (magnitude u * k)

magnitude-quotient : (u : ℤ) (k : ℕ) → magnitude (quotient u k) ≡ magnitude u / k
unfolding quotient
magnitude-quotient u k = magnitude-signed (is_negative u) (magnitude u / k)

is_negative-scale : (u : ℤ) (k : ℕ) → is_negative (scale u k) ≡ true → is_negative u ≡ true
unfolding scale
is_negative-scale (pos n) k h = ground arith
is_negative-scale (negsuc n) k h = refl

is_negative-quotient : (u : ℤ) (k : ℕ) → is_negative (quotient u k) ≡ true → is_negative u ≡ true
unfolding quotient
is_negative-quotient (pos n) k h = ground arith
is_negative-quotient (negsuc n) k h = refl

-- The units that `convertTo` computes from `u` at the rate n / d with step s.
abbrev converted : ℤ → ℕ → ℕ → ℕ → ℤ
converted u n d s = scale (quotient (quotient (scale u n) d) s) s

magnitude-converted :
    (u : ℤ) (n d s : ℕ) → magnitude (converted u n d s) ≡ magnitude u * n / d / s * s
magnitude-converted u n d s =
    rw (magnitude-scale, magnitude-quotient, magnitude-quotient, magnitude-scale) refl

step-pos : (c : Currency) → 0 < step c
step-pos ars = omega arith
step-pos usd = omega arith
step-pos usdt = omega arith
step-pos brl = omega arith

-- Two truncations in a row, in numbers: the result is a multiple of the step, at most a / d, and
-- less than one step below it.
truncated : (a d s : ℕ) → 0 < d * s → (a / d / s * s * d ≤ a) × (a < (a / d / s * s + s) * d)
truncated a d s h =
    rw (div-div-eq-div-mul a d s)
      (omega (arith, div-mul-le_self a (d * s), lt-div-mul-add {a = a} h))

-- What a conversion of the value `m` at the rate `r` may return.
pub record IsTruncation (m : Money) (r : Rate) (target : Currency) (m' : Money) : Type 0 where
  -- the target's currency, in whole steps of its own precision
  pub in_target : m'.currency ≡ target
  pub on_grid : magnitude m'.ledger_units % step target ≡ 0
  -- never more than the exact value, and less than one step below it
  pub at_most : magnitude m'.ledger_units * r.denominator ≤ magnitude m.ledger_units * r.numerator
  pub closest :
      magnitude m.ledger_units * r.numerator
      < (magnitude m'.ledger_units + step target) * r.denominator
  -- one division by the two divisors gives the same count of steps
  pub at_once :
      magnitude m'.ledger_units
      ≡ magnitude m.ledger_units * r.numerator / (r.denominator * step target) * step target
  -- the sign does not change
  pub same_sign : is_negative m'.ledger_units ≡ true → is_negative m.ledger_units ≡ true

mul-pos : (a b : ℕ) → 0 < a → 0 < b → 0 < a * b
mul-pos a b ha hb = grind arith

converted-IsTruncation :
    (m : Money) (r : Rate) (c : Currency)
    → 0 < r.denominator
    → IsTruncation m r c (record {
      ledger_units = converted m.ledger_units r.numerator r.denominator (step c);
      currency = c;
    })
converted-IsTruncation m r c h =
    let a = magnitude m.ledger_units * r.numerator in
    let e = magnitude-converted m.ledger_units r.numerator r.denominator (step c) in
    let t = truncated a r.denominator (step c) (mul-pos r.denominator (step c) h (step-pos c)) in
    record {
      in_target = refl;
      on_grid = rw e (mul-mod_left (a / r.denominator / step c) (step c));
      at_most = rw e t.0;
      closest = rw e t.1;
      at_once = e ∙ ap (λ q. q * step c) (div-div-eq-div-mul a r.denominator (step c));
      same_sign = λ n. is_negative-scale m.ledger_units r.numerator (
          is_negative-quotient _ r.denominator
            (is_negative-quotient _ (step c) (is_negative-scale _ (step c) n)));
    }

converted_of_ok :
    (m : Money) (c : Currency) (raw : Text) (r : Rate) {m' : Money}
    → parse_rate raw ≡ ok r
    → convert_to m c raw ≡ ok m'
    → m' ≡ record {
      ledger_units = converted m.ledger_units r.numerator r.denominator (step c);
      currency = c;
    }
unfolding convert_to from_units
converted_of_ok m c raw r e h = ground arith

not-convert_to :
    (m : Money) (c : Currency) (raw : Text) {m' : Money} {x : MoneyError}
    → parse_rate raw ≡ err x
    → convert_to m c raw ≡ ok m'
    → ⊥
unfolding convert_to
not-convert_to m c raw e h = ground arith

-- A conversion that succeeds used a valid rate, and truncated toward zero to the target's
-- precision: the two books are never credited more than the amount justifies.
pub convert_to-IsTruncation :
    (m : Money) (target : Currency) (raw : Text) {m' : Money}
    → convert_to m target raw ≡ ok m'
    → (r : Rate) × (parse_rate raw ≡ ok r) × IsTruncation m r target m'
convert_to-IsTruncation m target raw {m'} h = elim (Result-cases (parse_rate raw)) [
  | inl (r, e) ↦ (
    r,
    e,
    rw (converted_of_ok m target raw r e h)
        (converted-IsTruncation m r target (parse_rate_pos raw e).1),
  )
  | inr (x, e) ↦ absurd (not-convert_to m target raw e h)
]
