-- ===== src/Money.antt =====
-- The Money value object (cmd/internal/domain/money.go).
mod Int64
mod Defs
mod Decimal
pub mod Digits
pub mod RoundTrip
pub mod Canonical
pub mod Arith
pub use Int64.*
unfoldable pub use Int64.{wrap64}
unfoldable pub use Defs.{
  is_valid_iso4217, new_money, zero_money, validate, require_same_currency, add, subtract, negate,
  compare_money, equals,
}
pub use Defs.*
unfoldable pub use Decimal.{parse_money, numeral, amount_string}
pub use Decimal.*
