-- ===== src/BTreeMap.antt =====
-- The ordered map that the program keeps its counters and leases in: an association list with
-- ascending keys, over an order on the keys.
pub mod Ord
mod Map
mod Laws
unfoldable pub use Ord.*
unfoldable pub use Map.*
pub use Laws.*
