-- ===== src/GoMap.antt =====
-- Go's maps with string keys. Clients have the laws; the program never ranges over such a map.
mod Defs
mod Laws
pub use Defs.{GoMap}
unfoldable pub use Defs.{empty, lookup, insert, remove}
pub use Laws.*
