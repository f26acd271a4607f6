-- ===== src/Hash.antt =====
-- The calls that src/ubx.c makes of uthash (HASH_FIND_STR, HASH_ADD_KEYPTR, HASH_DEL, HASH_COUNT,
-- HASH_ITER), as an interface. uthash is another project's code, and so a parameter; the laws are
-- what its user guide documents of tables with distinct keys.
mod Defs
mod Laws
mod Assoc
pub use Defs.{Hash, IsDistinct, Absent}
unfoldable pub use Defs.{lookup, without}
pub use Laws.*
pub use Assoc.{assoc}
