-- ===== src/Std/Binary.antt =====
-- encoding/binary in big-endian order, and bytes.Reader. A byte string is a list of numbers, and a
-- reader is the list of the bytes that it has not handed out.
use native.Mathlib.Nat.{mul-le-mul_right, pow-suc, div-lt_iff_lt-mul}
use btc_vendor_tools.Base.{
  ◌⊎◌, >>=-eq-ok, append-nil, sym, ap, ◌∙◌, ◌≤◌, true, take-append, drop-append, All-take, All-drop,
  length-take, take-append-drop, append_assoc, Bool-cases, inl, inr, ℕ, zero, suc, ◌+◌, ◌-◌, ◌*◌,
  ◌/◌, ◌%◌, ◌^◌, ◌≤◌, ◌<◌, ◌≡◌, refl, ap, ◌∙◌, true, false, List, [], ◌∷◌, ◌++◌, append_assoc,
  arith, ◌==◌, leb, if◌then◌else◌, length, length-append, take, drop, replicate, All, All-append,
  Result, ok, err, eof, unexpected_eof, ◌>>=◌,
}

abbrev pub Bytes : Type 0
Bytes = List ℕ

abbrev pub IsByte : ℕ → Type 0
IsByte b = b < 256

-- `binary.Write(buf, binary.BigEndian, v)` of an unsigned integer of n bytes.
unfoldable pub be : ℕ → ℕ → Bytes
be zero v = []
be (suc n) v = be n (v / 256) ++ (v % 256 ∷ [])

-- `binary.BigEndian.Uint64` and the like, over the bytes of one integer.
unfoldable pub from_be : ℕ → Bytes → ℕ
from_be acc [] = acc
from_be acc (b ∷ bs) = from_be (acc * 256 + b) bs

from_be-append : (acc : ℕ) (xs ys : Bytes) → from_be acc (xs ++ ys) ≡ from_be (from_be acc xs) ys
unfolding from_be
from_be-append acc [] ys = refl
from_be-append acc (x ∷ xs) ys = from_be-append (acc * 256 + x) xs ys

pub length-be : (n v : ℕ) → length (be n v) ≡ n
unfolding be
length-be zero v = refl
length-be (suc n) v =
    omega (arith, length-append (be n (v / 256)) (v % 256 ∷ []), length-be n (v / 256))

pub be-IsByte : (n v : ℕ) → All IsByte (be n v)
unfolding be
be-IsByte zero v = tt
be-IsByte (suc n) v =
    All-append IsByte (be n (v / 256)) (v % 256 ∷ []) (be-IsByte n (v / 256)) (omega arith)

pub from_be-be : (n v : ℕ) → v < 256 ^ n → from_be 0 (be n v) ≡ v
unfolding be from_be
from_be-be zero v h = omega arith
from_be-be (suc n) v h =
    rw (from_be-append 0 (be n (v / 256)) (v % 256 ∷ []))
      (rw (from_be-be n (v / 256) below) (omega arith))
  where
    below : v / 256 < 256 ^ n
    below = (div-lt_iff_lt-mul (omega arith)).1 (rw (pow-suc 256 n) at h)

-- `io.ReadFull` of n bytes: all of them, or EOF at the end, or ErrUnexpectedEOF inside.
unfoldable pub read_full : ℕ → Bytes → Result (Bytes × Bytes)
read_full n r =
    if leb n (length r)
    then ok (take n r, drop n r)
    else if length r == 0
    then err eof
    else err unexpected_eof

-- `binary.Read(r, binary.BigEndian, &v)` of an unsigned integer of n bytes.
unfoldable pub read_be : ℕ → Bytes → Result (ℕ × Bytes)
unfolding read_full from_be
read_be n r = do (bs, r') ← read_full n r; ok (from_be 0 bs, r')

-- `r.Read(make([]byte, n))`: EOF at the end, even for n = 0; otherwise what there is, and the rest
-- of the buffer keeps its zeros. A short read is no error.
unfoldable pub read_some : ℕ → Bytes → Result (Bytes × Bytes)
read_some n r =
    if length r == 0 then err eof else ok (take n r ++ replicate (n - length r) 0, drop n r)

-- What was written is read back, whatever follows it.
pub read_be-append :
    (n v : ℕ) (rest : Bytes) → v < 256 ^ n → read_be n (be n v ++ rest) ≡ ok (v, rest)
unfolding read_be
read_be-append n v rest h =
    let k = sym (length-be n v) in
    let enough : leb n (length (be n v ++ rest)) ≡ true =
      ground (arith, length-append (be n v) rest, k) in
    rw enough
      (rw (take-append n (be n v) rest k, drop-append n (be n v) rest k, from_be-be n v h) refl)

pub read_be-be : (n v : ℕ) → v < 256 ^ n → read_be n (be n v) ≡ ok (v, [])
read_be-be n v h = rw append-nil at (read_be-append n v [] h)

pub read_some-append :
    (n : ℕ) (xs rest : Bytes)
    → n ≡ length xs
    → 0 < length (xs ++ rest)
    → read_some n (xs ++ rest) ≡ ok (xs, rest)
unfolding read_some
read_some-append n xs rest e h =
    let filled : (length (xs ++ rest) == 0) ≡ false = ground arith in
    let no_pad : n - length (xs ++ rest) ≡ 0 = omega (arith, length-append xs rest) in
    rw filled (rw (no_pad, take-append n xs rest e, drop-append n xs rest e, append-nil xs) refl)

be-from_be :
    (n k acc : ℕ) (bs : Bytes)
    → n ≡ k + length bs
    → All IsByte bs
    → be n (from_be acc bs) ≡ be k acc ++ bs
unfolding be from_be
be-from_be n k acc [] e b = let same : n ≡ k = omega arith in rw (same, append-nil (be k acc)) refl
be-from_be n k acc (x ∷ bs) e b =
    let high : (acc * 256 + x) / 256 ≡ acc = omega arith in
    let low : (acc * 256 + x) % 256 ≡ x = omega arith in
    be-from_be n (suc k) (acc * 256 + x) bs (omega arith) b.1
    ∙ rw (high, low) (append_assoc (be k acc) (x ∷ []) bs)

from_be-lt : (acc : ℕ) (bs : Bytes) → All IsByte bs → from_be acc bs < (acc + 1) * 256 ^ length bs
unfolding from_be
from_be-lt acc [] b = omega arith
from_be-lt acc (x ∷ bs) b =
    let fits : acc * 256 + x + 1 ≤ (acc + 1) * 256 = omega arith in
    let power : ℕ = 256 ^ length bs in
    omega (
      arith,
      from_be-lt (acc * 256 + x) bs b.1,
      mul-le-mul_right (256 ^ length bs) fits,
      ap (λ (t : ℕ). (acc + 1) * t) (pow-suc 256 (length bs)),
    )

-- A read that succeeds took the n bytes that stood first.
pub read_full-inverts :
    (n : ℕ) (r bs rest : Bytes)
    → read_full n r ≡ ok (bs, rest)
    → (r ≡ bs ++ rest) × (length bs ≡ n) × (bs ≡ take n r) × (rest ≡ drop n r)
unfolding read_full
read_full-inverts n r bs rest h = elim (Bool-cases (leb n (length r))) [
  | inl enough ↦ (
    ground (arith, take-append-drop n r),
    ground (arith, length-take n r),
    ground arith,
    ground arith,
  )
  | inr short ↦ ground arith
]

pub read_be-inverts :
    (n : ℕ) (r : Bytes) (v : ℕ) (rest : Bytes)
    → All IsByte r
    → read_be n r ≡ ok (v, rest)
    → (r ≡ be n v ++ rest) × All IsByte rest × (v < 256 ^ n)
unfolding read_be be
read_be-inverts n r v rest b h =
    let (p, full, e) = >>=-eq-ok (read_full n r) _ h in
    let (split, size, taken, left) = read_full-inverts n r p.0 p.1 full in
    let value : v ≡ from_be 0 p.0 = ground arith in
    let tail : rest ≡ p.1 = ground arith in
    let bytes : All IsByte p.0 = rw taken (All-take IsByte n r b) in
    (
      ground (arith, be-from_be n 0 0 p.0 (omega arith) bytes),
      rw (tail, left) (All-drop IsByte n r b),
      rw value (omega (arith, from_be-lt 0 p.0 bytes, ap (λ (t : ℕ). 256 ^ t) size)),
    )

drop_all : (n : ℕ) (r : Bytes) → length r ≤ n → drop n r ≡ []
drop_all zero [] h = refl
drop_all zero (x ∷ r) h = absurd (omega arith)
drop_all (suc n) [] h = refl
drop_all (suc n) (x ∷ r) h = drop_all n r (omega arith)

-- `r.Read` either fills the buffer from the front, or empties the reader.
pub read_some-inverts :
    (n : ℕ) (r bs rest : Bytes)
    → All IsByte r
    → read_some n r ≡ ok (bs, rest)
    → ((r ≡ bs ++ rest) × (length bs ≡ n) × All IsByte rest) ⊎ (rest ≡ [])
unfolding read_some
read_some-inverts n r bs rest b h = elim (Bool-cases (leb n (length r))) [
  | inl enough ↦
      let no_pad : n - length r ≡ 0 = ground arith in
      let full : take n r ++ replicate (n - length r) 0 ≡ take n r =
        rw no_pad (append-nil (take n r)) in
      inl (
        ground (arith, full, take-append-drop n r),
        ground (arith, full, length-take n r),
        (let tail : rest ≡ drop n r = ground arith in rw tail (All-drop IsByte n r b)),
      )
  | inr short ↦ inr (ground (arith, drop_all n r))
]
