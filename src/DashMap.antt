-- ===== src/DashMap.antt =====
-- The concurrent hash map of the crate `dashmap`, which the stores use and do not implement: its
-- operations and their documented behaviour, one atomic step each, as a record that the stores
-- take as a parameter. `assoc` is a list that meets the laws.
mod Interface
mod Assoc
pub use Interface.{DashMap, kept, weight}
unfoldable pub use Assoc.{assoc}
