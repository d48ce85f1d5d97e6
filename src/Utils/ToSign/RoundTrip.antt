-- ===== src/Utils/ToSign/RoundTrip.antt =====
-- utils/utils.go: a serialized ToSignItem is deserialized as itself.
use btc_vendor_tools.Base.{
  ℕ, ◌+◌, ◌*◌, ◌%◌, ◌^◌, ◌<◌, ◌≡◌, refl, List, [], ◌∷◌, ◌++◌, append-nil, append_assoc, arith,
  length, length-append, All, All-append, ok,
}
use btc_vendor_tools.Std.Binary.{
  Bytes, IsByte, be, length-be, be-IsByte, read_be-append, read_some-append,
}
use btc_vendor_tools.Wire.{Wire, IsOnWire}
use btc_vendor_tools.Utils.ToSign.{ToSignItem, write_amts, serialize, read_amts, deserialize}

abbrev pub IsU64 : ℕ → Type 0
IsU64 v = v < 2 ^ 64

pub length-write_amts : (vs : List ℕ) → length (write_amts vs) ≡ 8 * length vs
unfolding write_amts
length-write_amts [] = refl
length-write_amts (v ∷ vs) =
    omega (arith, length-append (be 8 v) (write_amts vs), length-be 8 v, length-write_amts vs)

write_amts-IsByte : (vs : List ℕ) → All IsByte (write_amts vs)
unfolding write_amts
write_amts-IsByte [] = tt
write_amts-IsByte (v ∷ vs) =
    All-append IsByte (be 8 v) (write_amts vs) (be-IsByte 8 v) (write_amts-IsByte vs)

pub read_amts-write_amts :
    (vs : List ℕ) (rest : Bytes)
    → All IsU64 vs
    → read_amts (length vs) (write_amts vs ++ rest) ≡ ok vs
unfolding read_amts write_amts
read_amts-write_amts [] rest h = refl
read_amts-write_amts (v ∷ vs) rest h =
    rw (append_assoc (be 8 v) (write_amts vs) rest)
      (rw (read_be-append 8 v (write_amts vs ++ rest) h.0) (rw (read_amts-write_amts vs rest h.1)))

-- An item that fits: the transaction is on the wire, and the amounts are as many as Go can hold.
pub record IsItem (w : Wire) (item : ToSignItem) : Type 0 where
  pub tx : IsOnWire w item.mtx
  pub amounts : All IsU64 item.amts
  pub few : length item.amts < 2 ^ 27

-- The stored form, written out.
abbrev pub layout : Bytes → List ℕ → Bytes
layout raw amts = be 4 (length raw) ++ (raw ++ (be 4 (length amts) ++ write_amts amts))

pub layout_regroup :
    (tx : Bytes) (vs : List ℕ) (rest : Bytes)
    → layout tx vs ++ rest
      ≡ be 4 (length tx) ++ (tx ++ (be 4 (length vs) ++ (write_amts vs ++ rest)))
layout_regroup tx vs rest = simp append_assoc

pub length-layout :
    (tx : Bytes) (vs : List ℕ) → length (layout tx vs) ≡ 8 + length tx + 8 * length vs
length-layout tx vs = omega (
  arith,
  length-append (be 4 (length tx)) (tx ++ (be 4 (length vs) ++ write_amts vs)),
  length-append tx (be 4 (length vs) ++ write_amts vs),
  length-append (be 4 (length vs)) (write_amts vs),
  length-be 4 (length tx),
  length-be 4 (length vs),
  length-write_amts vs,
)

pub layout-IsByte : (tx : Bytes) (vs : List ℕ) → All IsByte tx → All IsByte (layout tx vs)
layout-IsByte tx vs h =
    All-append IsByte (be 4 (length tx)) (tx ++ (be 4 (length vs) ++ write_amts vs))
      (be-IsByte 4 (length tx))
      (All-append IsByte tx (be 4 (length vs) ++ write_amts vs) h (
        All-append IsByte (be 4 (length vs)) (write_amts vs) (be-IsByte 4 (length vs))
          (write_amts-IsByte vs)))

module _ (w : Wire) (item : ToSignItem) (h : IsItem w item) where
  pub serialize-layout : serialize w item ≡ ok (layout h.tx.raw item.amts)
  unfolding serialize
  serialize-layout =
      let short = h.tx.short in
      let few = h.few in
      let m : length h.tx.raw % 2 ^ 32 ≡ length h.tx.raw = omega arith in
      let n : length item.amts % 2 ^ 32 ≡ length item.amts = omega arith in
      rw h.tx.encoded (rw (m, n))

  -- Whatever follows the item is not read.
  pub deserialize-layout :
      (rest : Bytes) → deserialize w (layout h.tx.raw item.amts ++ rest) ≡ ok item
  deserialize-layout rest =
      let tx : Bytes = h.tx.raw in
      let vs : List ℕ = item.amts in
      let tail : Bytes = write_amts vs ++ rest in
      let short = h.tx.short in
      let few = h.few in
      let left : 0 < length (tx ++ (be 4 (length vs) ++ tail)) = omega (
        arith,
        length-append tx (be 4 (length vs) ++ tail),
        length-append (be 4 (length vs)) tail,
        length-be 4 (length vs),
      ) in
      rw (layout_regroup tx vs rest) (
        unfold deserialize in
        rw (read_be-append 4 (length tx) (tx ++ (be 4 (length vs) ++ tail)) (omega arith)) (
          rw (read_some-append (length tx) tx (be 4 (length vs) ++ tail) refl left) (
            rw h.tx.decoded (
              rw (read_be-append 4 (length vs) tail (omega arith))
                (rw (read_amts-write_amts vs rest h.amounts))))))

  -- For an item whose transaction the wire format has, and whose amounts are 64-bit numbers and
  -- fewer than 2 ^ 27, what Serialize writes is not empty, fits 32 bits, and is read back by
  -- Deserialize as the item.
  pub deserialize-serialize :
      (raw : Bytes) × (serialize w item ≡ ok raw)
      × All IsByte raw
      × (length raw < 2 ^ 32)
      × (0 < length raw)
      × (deserialize w raw ≡ ok item)
  deserialize-serialize =
      let short = h.tx.short in
      let few = h.few in
      (
        layout h.tx.raw item.amts,
        serialize-layout,
        layout-IsByte h.tx.raw item.amts h.tx.bytes,
        omega (arith, length-layout h.tx.raw item.amts),
        omega (arith, length-layout h.tx.raw item.amts),
        rw append-nil at (deserialize-layout []),
      )
