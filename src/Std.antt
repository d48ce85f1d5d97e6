-- ===== src/Std.antt =====
-- What the program uses of Go's standard library: bytes.Reader and encoding/binary,
-- encoding/hex, strconv, time.
pub mod Binary
pub mod Hex
pub mod Decimal
pub mod Int
pub mod Clock
pub mod Text
pub mod Space
