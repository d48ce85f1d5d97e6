-- ===== src/Std/Text.antt =====
-- Go strings as lists of their bytes.
use Prim.Native.Char.{code}
use Prim.Native.String.{String}
use btc_vendor_tools.Base.{[], ◌∷◌}
use btc_vendor_tools.Std.Binary.{Bytes}

-- The bytes of an ASCII literal.
abbrev pub codes : String → Bytes
codes String.[] = []
codes (String.◌∷◌ c s) = code c ∷ codes s
