-- ===== src/Wallet/Boundary.antt =====
-- Where the client's text becomes Money: `toMoney` (src/modules/wallet/application/to-money.ts).
use payflow_x.Prelude.Result.{Result, ok, err}
use payflow_x.Text.{Text}
use payflow_x.Amount.{
  Currency, MoneyError, invalid_amount, precision, currency_mismatch, amount_too_large,
  ceiling_text,
}
use payflow_x.Money.{Money, of}
use payflow_x.Http.{bad_request, max_decimals, less_than, not_valid, Error, http, domain}

-- The `catch` of `toMoney`.
unfoldable pub http_of : MoneyError → Error
http_of (precision c k raw) = http bad_request (max_decimals c k)
http_of (amount_too_large raw) = http bad_request (less_than ceiling_text)
http_of (invalid_amount raw) = http bad_request (not_valid raw)
http_of (currency_mismatch a b) = domain (currency_mismatch a b)

answered : Result MoneyError Money → Result Error Money
answered (ok m) = ok m
answered (err e) = err (http_of e)

unfoldable pub to_money : Text → Currency → Result Error Money
unfolding answered http_of
to_money raw c = answered (of raw c)
