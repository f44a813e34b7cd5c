-- ===== src/StdMap.antt =====
-- `std::map` and `std::set`: association lists in the order of the keys.
mod Order
mod Defs
mod Laws
mod Sorted
pub mod StdSet
unfoldable pub use Order.*
unfoldable pub use Defs.*
pub use Laws.*
pub use Sorted.*
