-- ===== src/Text.antt =====
-- Texts as lists of bytes, and the operations of `std::string`, `<cstdlib>` and `<sstream>` that
-- the program uses.
mod Defs
mod Decimal
mod Split
mod Number
mod Search
mod Words
unfoldable pub use Defs.*
unfoldable pub use Decimal.*
unfoldable pub use Split.*
unfoldable pub use Number.*
unfoldable pub use Search.*
unfoldable pub use Words.*
