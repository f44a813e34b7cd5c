-- ===== src/Stats.antt =====
-- What src/software.h and src/hardware.h share: series of samples under the names of fields, and
-- the rows of the CSV output.
mod Series
mod Align
mod Csv
unfoldable pub use Series.*
pub use Align.*
unfoldable pub use Csv.*
