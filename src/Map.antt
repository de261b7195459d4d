-- ===== src/Map.antt =====
-- `HashMap<K, V>` and `HashSet<T>` of the standard library, as the crates use them. A map is an
-- association list in which no key stands twice; the theorems speak of a map through `get`.
mod Assoc
mod Defs
mod Laws
mod Keys
mod Iterate
mod Retain
unfoldable pub use Assoc.{lookup, set, IsUnique}
pub use Defs.{Map}
unfoldable pub use Defs.{get, empty, insert, remove, merge_with, merge_entries, Same}
pub use Laws.*
unfoldable pub use Keys.*
unfoldable pub use Iterate.*
unfoldable pub use Retain.*
