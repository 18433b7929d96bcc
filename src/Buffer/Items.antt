-- ===== src/Buffer/Items.antt =====
-- The items of a scope as a plain list: the lookups that the two maps must agree with, the sums that
-- the byte counters must agree with, and the order of the seqs. Specification, not code.
mod Order
mod Erase
mod Replace
mod Insert
mod Drop
mod Sized
pub use Order.*
pub use Erase.*
pub use Replace.*
pub use Insert.*
pub use Drop.*
pub use Sized.*
pub mod Defs
unfoldable pub use Defs.*
