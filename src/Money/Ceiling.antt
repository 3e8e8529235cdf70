-- ===== src/Money/Ceiling.antt =====
-- No operation makes a value that the column NUMERIC(20,8) would reject.
use payflow_x.Prelude.{◌≡◌, arith}
use payflow_x.Prelude.Result.{Result, ok}
use payflow_x.Text.{Text}
use payflow_x.Amount.{Currency, MoneyError}
use payflow_x.Money.{
  Money, from_units, of, restore, add, subtract, convert_to, IsBelowCeiling, zero_money,
}

-- Every public way to obtain a Money from text or from other values.
pub data Route : Type 0 where
  of_text restore_text : Text → Currency → Route
  zero_of : Currency → Route
  sum difference : Money → Money → Route
  conversion : Money → Currency → Text → Route

unfoldable pub make : Route → Result MoneyError Money
make (of_text t c) = of t c
make (restore_text t c) = restore t c
make (zero_of c) = ok (zero_money c)
make (sum a b) = add a b
make (difference a b) = subtract a b
make (conversion m c rate) = convert_to m c rate

-- Whatever route produced it, and from whatever arguments, a Money is strictly below 10^12 in
-- magnitude.
pub make-IsBelowCeiling : (r : Route) {m : Money} → make r ≡ ok m → IsBelowCeiling m
unfolding make of restore add subtract convert_to from_units
make-IsBelowCeiling (of_text t c) h = ground arith
make-IsBelowCeiling (restore_text t c) h = ground arith
make-IsBelowCeiling (zero_of c) h = ground arith
make-IsBelowCeiling (sum a b) h = ground arith
make-IsBelowCeiling (difference a b) h = ground arith
make-IsBelowCeiling (conversion m c rate) h = ground arith
