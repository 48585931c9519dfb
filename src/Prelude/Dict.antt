-- ===== src/Prelude/Dict.antt =====
-- Maps keyed by texts: `BTreeMap`, and `HashMap`, whose order the program never shows.
mod Defs
mod Laws
pub mod Order
unfoldable pub use Defs.{Dict, empty, get, insert, remove, retain, values}
pub use Laws.*
