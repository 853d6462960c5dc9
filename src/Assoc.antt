-- ===== src/Assoc.antt =====
-- Go's `map[K]V` as an association list in one iteration order. The proofs are in the children.
mod Lookup
pub mod Keys
pub mod Entries
unfoldable pub use Lookup.*
