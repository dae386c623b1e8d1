-- ===== src/Bytes.antt =====
-- Byte strings (Go's []byte) as lists of numbers: `bytes.Compare`, slices and the fixed-width
-- integers of encoding/binary, in both byte orders.
pub mod Order
pub mod Fixed
pub mod Reader
use ban_db.Prelude.{ℕ, List}

abbrev pub Bytes : Type 0
Bytes = List ℕ
