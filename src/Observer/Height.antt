-- ===== src/Observer/Height.antt =====
-- observer/alliaob.go: the height in the file last_height.
use btc_vendor_tools.Base.{ℕ, ◌^◌, ◌<◌, ◌≡◌, Option, none, some, Result, ok, arith}
use btc_vendor_tools.Std.Binary.{Bytes}
use btc_vendor_tools.Std.Decimal.{format_uint, parse_uint, parse_uint-format_uint, trim}

abbrev or_zero : Result ℕ → ℕ
or_zero (ok h) = h
or_zero _ = 0

-- The file is `none` where it cannot be read.
unfoldable pub get_last_height : Option Bytes → ℕ
get_last_height none = 0
get_last_height (some val) = or_zero (parse_uint 32 (trim val))

-- What setLastHeight writes.
unfoldable pub last_height_file : ℕ → Bytes
last_height_file h = format_uint h

-- A height of 32 bits that setLastHeight writes is the height that getLastHeight reads.
pub get_last_height-last_height_file :
    (h : ℕ) → h < 2 ^ 32 → get_last_height (some (last_height_file h)) ≡ h
unfolding get_last_height last_height_file
get_last_height-last_height_file h small = rw (parse_uint-format_uint 32 h small (omega arith))
