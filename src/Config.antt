-- ===== src/Config.antt =====
-- crates/atomr-config/src: the value tree, its merges, and the HOCON parser. A `String` is its UTF-8
-- bytes; a `BTreeMap` is its entries in the order of their keys.
pub mod Value
pub mod Cursor
pub mod Scalar
pub mod Strings
pub mod Dotted
pub mod Hocon
pub mod Resolve
mod Tests
