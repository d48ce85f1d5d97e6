-- ===== src/Std/Hex.antt =====
-- encoding/hex. A text is the list of its bytes.
use btc_vendor_tools.Base.{
  ap, ℕ, ◌+◌, ◌-◌, ◌*◌, ◌/◌, ◌%◌, ◌≤◌, ◌<◌, ◌≡◌, refl, [], ◌∷◌, arith, ltb, leb, if◌then◌else◌,
  ◌&&◌, All, Result, ok, err, odd_length, bad_char, ◌>>=◌,
}
use btc_vendor_tools.Std.Binary.{Bytes, IsByte}

hex_digit : ℕ → ℕ
hex_digit n = if ltb n 10 then n + 48 else n + 87

-- `hex.EncodeToString`, in lower case.
unfoldable pub hex_encode : Bytes → Bytes
unfolding hex_digit
hex_encode [] = []
hex_encode (b ∷ bs) = hex_digit (b / 16) ∷ hex_digit (b % 16) ∷ hex_encode bs

from_hex_char : ℕ → Result ℕ
from_hex_char c =
    if leb 48 c && leb c 57
    then ok (c - 48)
    else if leb 97 c && leb c 102
    then ok (c - 87)
    else if leb 65 c && leb c 70
    then ok (c - 55)
    else err bad_char

-- `hex.DecodeString`, in either case; of the errors the leftmost counts.
unfoldable pub hex_decode : Bytes → Result Bytes
unfolding from_hex_char
hex_decode [] = ok []
hex_decode (a ∷ []) = from_hex_char a >>= λ _. err odd_length
hex_decode (a ∷ b ∷ rest) = do
  x ← from_hex_char a
  y ← from_hex_char b
  bs ← hex_decode rest
  ok ((x * 16 + y) ∷ bs)

from_hex_char-hex_digit : (n : ℕ) → n < 16 → from_hex_char (hex_digit n) ≡ ok n
unfolding from_hex_char hex_digit
from_hex_char-hex_digit n h = ground arith

pub hex_decode-hex_encode : (bs : Bytes) → All IsByte bs → hex_decode (hex_encode bs) ≡ ok bs
unfolding hex_decode hex_encode
hex_decode-hex_encode [] h = refl
hex_decode-hex_encode (b ∷ bs) h = rw (from_hex_char-hex_digit (b / 16) (omega arith)) (
    rw (from_hex_char-hex_digit (b % 16) (omega arith))
      (rw (hex_decode-hex_encode bs h.1) (ap (λ (c : ℕ). ok (c ∷ bs)) (omega arith))))

-- A digit that hex_encode writes.
abbrev pub IsHexChar : ℕ → Type 0
IsHexChar c = (48 ≤ c) × (c ≤ 102)

hex_digit-IsHexChar : (n : ℕ) → n < 16 → IsHexChar (hex_digit n)
unfolding hex_digit
hex_digit-IsHexChar n h = (ground arith, ground arith)

pub hex_encode-IsHexChar : (bs : Bytes) → All IsByte bs → All IsHexChar (hex_encode bs)
unfolding hex_encode
hex_encode-IsHexChar [] h = tt
hex_encode-IsHexChar (b ∷ bs) h = (
  hex_digit-IsHexChar (b / 16) (omega arith),
  (hex_digit-IsHexChar (b % 16) (omega arith), hex_encode-IsHexChar bs h.1),
)
