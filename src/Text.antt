-- ===== src/Text.antt =====
-- What the program uses of Rust's `str` and `u64`. A `str` is the list of its characters' codes.
mod Decimal
mod Chars
mod Lines
unfoldable pub use Decimal.*
unfoldable pub use Chars.*
unfoldable pub use Lines.*
