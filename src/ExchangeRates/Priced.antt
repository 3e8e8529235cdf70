-- ===== src/ExchangeRates/Priced.antt =====
-- The rates that a refresh stores, by pair, and the latest row of a list.
use mathlib.Core.List.{append-nil}
use payflow_x.Prelude.{
  ℕ, ◌≤◌, ◌≡◌, refl, ap, ◌++◌, ◌&&◌, List, [], ◌∷◌, map, Option, none, some, arith, if◌then◌else◌,
}
use payflow_x.Prelude.Lists.{length}
use payflow_x.Amount.{Currency, ars, usd, usdt, brl, same_currency}
use payflow_x.ExchangeRates.{RateRow, ConversionRates, Numbers, pairs_of, dated}

abbrev pub last : {A : Type 0} → List A → Option A
last [] = none
last (x ∷ []) = some x
last (x ∷ y ∷ xs) = last (y ∷ xs)

abbrev pub one_row : {A : Type 0} → Option A → List A
one_row none = []
one_row (some a) = a ∷ []

abbrev pub newest : {A : Type 0} → Option A → Option A → Option A
newest none o = o
newest (some a) o = some a

last-append : {A : Type 0} (xs : List A) (y : A) → last (xs ++ (y ∷ [])) ≡ some y
last-append [] y = refl
last-append (x ∷ []) y = refl
last-append (x ∷ x' ∷ xs) y = last-append (x' ∷ xs) y

pub last-one_row :
    {A : Type 0} (xs : List A) (o : Option A) → last (xs ++ one_row o) ≡ newest o (last xs)
last-one_row xs none = ap last (append-nil xs)
last-one_row xs (some y) = last-append xs y

pub length-one_row : {A : Type 0} (o : Option A) → length (one_row o) ≤ 1
length-one_row none = omega arith
length-one_row (some a) = omega arith

module _ {F : Type 0} (n : Numbers F) where
  -- The rate of a pair by the rates of the remote service, or none for a pair that is not supported.
  abbrev pub price : Currency → Currency → ConversionRates F → Option F
  price usd ars rates = some rates.to_ars
  price ars usd rates = some (n.round8 (n.over n.one rates.to_ars))
  price usd usdt rates = some n.usdt_of_usd
  price usdt usd rates = some n.usd_of_usdt
  price usdt ars rates = some (n.round4 (n.times rates.to_ars n.usd_of_usdt))
  price usd brl rates = some rates.to_brl
  price _ _ rates = none

module _ {F R : Type 0} (stored : F → R) where
  -- The row that is stored of the data of one.
  abbrev pub row_of : Currency → Currency → ℕ → F → RateRow R
  row_of from to now x = record {
    from_currency = from;
    to_currency = to;
    rate = stored x;
    date = now;
  }

  abbrev pub row_if : Currency → Currency → ℕ → Option F → Option (RateRow R)
  row_if from to now none = none
  row_if from to now (some x) = some (row_of from to now x)

  abbrev pub rows_for : Currency → Currency → List (RateRow F) → List (RateRow R)
  rows_for from to [] = []
  rows_for from to (r ∷ rs) =
      let rest = rows_for from to rs in
      if same_currency r.from_currency from && same_currency r.to_currency to
      then row_of from to r.date r.rate ∷ rest
      else rest

  module _ (n : Numbers F) (now : ℕ) (rates : ConversionRates F) where
    -- The supported pairs with their new rates, in the order of getCurrent.
    abbrev pub new_rates : List (RateRow R)
    new_rates =
        row_of usd ars now rates.to_ars
        ∷ row_of ars usd now (n.round8 (n.over n.one rates.to_ars))
        ∷ row_of usd usdt now n.usdt_of_usd
        ∷ row_of usdt usd now n.usd_of_usdt
        ∷ row_of usdt ars now (n.round4 (n.times rates.to_ars n.usd_of_usdt))
        ∷ row_of usd brl now rates.to_brl
        ∷ []

    abbrev pub Priced : Currency → Currency → Type 0
    Priced from to =
        rows_for from to (map (dated now) (pairs_of n rates))
        ≡ one_row (row_if from to now (price n from to rates))

    pub rows-price : (from to : Currency) → Priced from to
    unfolding pairs_of
    rows-price usd ars = refl
    rows-price usd usd = refl
    rows-price usd usdt = refl
    rows-price usd brl = refl
    rows-price ars ars = refl
    rows-price ars usd = refl
    rows-price ars usdt = refl
    rows-price ars brl = refl
    rows-price usdt ars = refl
    rows-price usdt usd = refl
    rows-price usdt usdt = refl
    rows-price usdt brl = refl
    rows-price brl ars = refl
    rows-price brl usd = refl
    rows-price brl usdt = refl
    rows-price brl brl = refl
