-- ===== src/Web/Strings.antt =====
-- What web/service/service.go uses of the package strings, and the hex lists of its arguments.
use btc_vendor_tools.Base.{
  ℕ, ◌≡◌, refl, Bool, true, false, ◌&&◌, List, [], ◌∷◌, ◌++◌, map, All, arith, ◌==◌, ==-no,
  if◌then◌else◌, Result, ok, ◌>>=◌,
}
use btc_vendor_tools.Std.Binary.{Bytes, IsByte}
use btc_vendor_tools.Std.Hex.{
  hex_encode, hex_decode, hex_decode-hex_encode, IsHexChar, hex_encode-IsHexChar,
}

-- `strings.Replace(s, "0x", "", 1)`.
unfoldable pub replace_0x : Bytes → Bytes
replace_0x [] = []
replace_0x (a ∷ []) = a ∷ []
replace_0x (a ∷ b ∷ rest) = if a == 48 && b == 120 then rest else a ∷ replace_0x (b ∷ rest)

abbrev pub prepend : ℕ → List Bytes → List Bytes
prepend c [] = (c ∷ []) ∷ []
prepend c (x ∷ xs) = (c ∷ x) ∷ xs

-- `strings.Split(s, ",")`.
unfoldable pub split : Bytes → List Bytes
split [] = [] ∷ []
split (c ∷ cs) = if c == 44 then [] ∷ split cs else prepend c (split cs)

-- The loop over the signatures; the first one that is refused ends it.
unfoldable pub decode_all : List Bytes → Result (List Bytes)
decode_all [] = ok []
decode_all (s ∷ rest) = do raw ← hex_decode s; raws ← decode_all rest; ok (raw ∷ raws)

-- Texts with a comma between one and the next.
unfoldable pub join : Bytes → List Bytes → Bytes
join x [] = x
join x (y ∷ ys) = x ++ 44 ∷ join y ys

and_false : (b : Bool) → (b && false) ≡ false
and_false true = refl
and_false false = refl

replace_0x-hex : (s : Bytes) → All IsHexChar s → replace_0x s ≡ s
unfolding replace_0x
replace_0x-hex [] h = refl
replace_0x-hex (a ∷ []) h = refl
replace_0x-hex (a ∷ b ∷ rest) h =
    let no : (b == 120) ≡ false = ==-no (omega (arith, h.1.0)) in
    rw (no, and_false (a == 48), replace_0x-hex (b ∷ rest) h.1) refl

split-hex : (s : Bytes) → All IsHexChar s → split s ≡ s ∷ []
unfolding split
split-hex [] h = refl
split-hex (c ∷ cs) h =
    let no : (c == 44) ≡ false = ==-no (omega (arith, h.0)) in rw (no, split-hex cs h.1) refl

split-comma : (s rest : Bytes) → All IsHexChar s → split (s ++ 44 ∷ rest) ≡ s ∷ split rest
unfolding split
split-comma [] rest h = refl
split-comma (c ∷ cs) rest h =
    let no : (c == 44) ≡ false = ==-no (omega (arith, h.0)) in rw (no, split-comma cs rest h.1) refl

-- Hex texts with commas between them are split again.
pub split-join :
    (x : Bytes) (xs : List Bytes)
    → All IsByte x
    → All (All IsByte) xs
    → split (join (hex_encode x) (map hex_encode xs)) ≡ hex_encode x ∷ map hex_encode xs
unfolding join
split-join x [] b bs = split-hex (hex_encode x) (hex_encode-IsHexChar x b)
split-join x (y ∷ xs) b bs =
    rw
      (split-comma (hex_encode x) (join (hex_encode y) (map hex_encode xs))
        (hex_encode-IsHexChar x b))
      (rw (split-join y xs bs.0 bs.1) refl)

decode_all-hex : (xs : List Bytes) → All (All IsByte) xs → decode_all (map hex_encode xs) ≡ ok xs
unfolding decode_all
decode_all-hex [] bs = refl
decode_all-hex (x ∷ xs) bs = rw (hex_decode-hex_encode x bs.0) (rw (decode_all-hex xs bs.1) refl)

-- Signatures in hex with commas between them are split and decoded again.
pub decode_all-split-join :
    (sig : Bytes) (sigs : List Bytes)
    → All IsByte sig
    → All (All IsByte) sigs
    → decode_all (split (join (hex_encode sig) (map hex_encode sigs))) ≡ ok (sig ∷ sigs)
decode_all-split-join sig sigs b bs =
    rw (split-join sig sigs b bs) (decode_all-hex (sig ∷ sigs) (b, bs))

-- A contract in hex is decoded with and without `0x` before it.
pub hex_decode-replace_0x :
    (c : Bytes)
    → All IsByte c
    → (hex_decode (replace_0x (hex_encode c)) ≡ ok c)
      × (hex_decode (replace_0x (48 ∷ 120 ∷ hex_encode c)) ≡ ok c)
unfolding replace_0x
hex_decode-replace_0x c b = (
  rw (replace_0x-hex (hex_encode c) (hex_encode-IsHexChar c b)) (hex_decode-hex_encode c b),
  hex_decode-hex_encode c b,
)
