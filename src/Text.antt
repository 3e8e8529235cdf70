-- ===== src/Text.antt =====
-- The program's strings as lists of character codes, and what money.ts uses of the language on
-- them: `padStart`, `padEnd`, `BigInt(digits)`, `bigint.toString()`, and the two `replace` calls
-- that drop zeros (src/shared/kernel/money.ts).
mod Decimal
mod Trim
pub use Decimal.*
pub use Trim.*
unfoldable pub use Decimal.{value_from, value, to_decimal, pad_start, pad_end}
unfoldable pub use Trim.{trim_start_zeros, trim_end_zeros}
