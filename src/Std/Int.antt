-- ===== src/Std/Int.antt =====
-- Go's signed 64-bit numbers, and strconv.Itoa, ParseInt and Atoi in base 10.
use btc_vendor_tools.Base.{
  ℕ, zero, suc, ◌-◌, ◌*◌, ◌%◌, ◌&&◌, ◌^◌, ◌<◌, ◌≡◌, refl, Bool, true, false, [], ◌∷◌, arith, ltb,
  ◌==◌, if◌then◌else◌, out_of_range, Result, ok, err, ◌>>=◌, ==-no,
}
use btc_vendor_tools.Std.Binary.{Bytes}
use btc_vendor_tools.Std.Decimal.{
  format_uint, parse_uint, parse_uint-format_uint_plain, IsNumeral, format_uint-IsNumeral,
}

-- `negsuc n` is -(n + 1).
pub data ℤ : Type 0 where
  pos : ℕ → ℤ
  negsuc : ℕ → ℤ

-- The numbers of int64.
abbrev pub IsInt64 : ℤ → Type 0
IsInt64 (pos n) = n < 2 ^ 63
IsInt64 (negsuc n) = n < 2 ^ 63

-- `strconv.Itoa`.
abbrev pub format_int : ℤ → Bytes
format_int (pos n) = format_uint n
format_int (negsuc n) = 45 ∷ format_uint (suc n)

-- Whether a text has a minus sign, and the text behind its sign.
abbrev pub split_sign : Bytes → Bool × Bytes
split_sign [] = (false, [])
split_sign (c ∷ cs) =
    if c == 45 then (true, cs) else if c == 43 then (false, cs) else (false, c ∷ cs)

abbrev pub to_int64 : Bool → ℕ → Result ℤ
to_int64 true zero = ok (pos 0)
to_int64 true (suc n) = if ltb n (2 ^ 63) then ok (negsuc n) else err out_of_range
to_int64 false n = if ltb n (2 ^ 63) then ok (pos n) else err out_of_range

-- `strconv.ParseInt(s, 10, 64)`; the empty text is one that ParseUint refuses.
unfoldable pub parse_int : Bytes → Result ℤ
parse_int s = let (neg, digits) = split_sign s in do un ← parse_uint 64 digits; to_int64 neg un

-- The value of `strconv.Atoi` without its error: out of range it is the nearest int, and for a text
-- that is no number it is 0.
abbrev pub nearest : Bool → Result ℤ → ℤ
nearest neg (ok z) = z
nearest true (err out_of_range) = negsuc (2 ^ 63 - 1)
nearest false (err out_of_range) = pos (2 ^ 63 - 1)
nearest neg _ = pos 0

unfoldable pub atoi : Bytes → ℤ
unfolding parse_int
atoi s = nearest (split_sign s).0 (parse_int s)

split_sign-IsNumeral : (s : Bytes) → IsNumeral s → split_sign s ≡ (false, s)
split_sign-IsNumeral [] h = absurd h
split_sign-IsNumeral (c ∷ cs) h =
    let minus : (c == 45) ≡ false = ==-no (omega (arith, h)) in
    let plus : (c == 43) ≡ false = ==-no (omega (arith, h)) in rw (minus, plus) refl

-- What Itoa writes, ParseInt reads.
pub parse_int-format_int : (z : ℤ) → IsInt64 z → parse_int (format_int z) ≡ ok z
unfolding parse_int
parse_int-format_int (pos n) h =
    let read = parse_uint-format_uint_plain 64 n (omega arith) (omega arith) in
    rw (split_sign-IsNumeral (format_uint n) (format_uint-IsNumeral n (omega arith)), read)
      (ground arith)
parse_int-format_int (negsuc n) h =
    let read = parse_uint-format_uint_plain 64 (suc n) (omega arith) (omega arith) in
    rw read (ground arith)

pub atoi-format_int : (z : ℤ) → IsInt64 z → atoi (format_int z) ≡ z
unfolding atoi
atoi-format_int z h = rw (parse_int-format_int z h) refl

-- `z * k > 0` on int64, for a factor of int64 that is positive.
abbrev pub positive_product : ℕ → ℤ → Bool
positive_product k (pos n) = let m = n * k % 2 ^ 64 in ltb 0 m && ltb m (2 ^ 63)
positive_product k (negsuc n) = let m = suc n * k % 2 ^ 64 in ltb (2 ^ 63) m

abbrev pub is_positive : ℤ → Bool
is_positive (pos n) = ltb 0 n
is_positive (negsuc n) = false
