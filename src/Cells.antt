-- ===== src/Cells.antt =====
-- Arrays of C whose last element is marked: a NULL pointer, or a struct whose name is NULL. A list
-- holds the cells of the allocation; `stop` tells the mark. The array's elements are those before
-- the first mark. The loops stop at the end of the allocation as well, which `IsTerminated` shows
-- that they never reach.
mod Defs
mod Laws
unfoldable pub use Defs.{resize, count, elems, has_mark, take_out}
pub use Defs.{IsTerminated}
pub use Laws.*
