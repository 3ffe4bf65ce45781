-- ===== src/Decimal.antt =====
-- src/common/utils/decimal.ts, with `formatStroops` of src/policy/policy.service.ts and the digits
-- of numbers, the base of both. A text is the list of its code units.
mod Digits
mod Text
mod Parse
mod Amount
pub mod Print
pub mod Plain
pub mod Whole
pub mod RoundTrip
pub mod Trigger
unfoldable pub use Digits.*
unfoldable pub use Text.*
unfoldable pub use Parse.*
unfoldable pub use Amount.*
