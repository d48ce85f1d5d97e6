-- ===== src/Utils/ToSign/Rejects.antt =====
-- utils/utils.go: which buffers ToSignItem.Deserialize accepts.
use btc_vendor_tools.Base.{
  drop-append, ◌≢◌, ℕ, zero, suc, ◌^◌, ◌<◌, ◌≡◌, refl, sym, ap, ◌∙◌, inl, inr, List, [], ◌∷◌, ◌++◌,
  append_assoc, arith, length, length-append, All, Result, ok, >>=-eq-ok, take, drop,
  take-append-drop, All-take, length-drop,
}
use btc_vendor_tools.Std.Binary.{
  Bytes, IsByte, be, read_be, read_be-append, read_be-inverts, read_some, read_some-inverts,
}
use btc_vendor_tools.Wire.{Wire}
use btc_vendor_tools.Utils.ToSign.{ToSignItem, write_amts, serialize, read_amts, deserialize}
use btc_vendor_tools.Utils.ToSign.RoundTrip.{
  layout, layout_regroup, IsItem, length-layout, serialize-layout, layout-IsByte,
}

read_amts-inverts :
    (n : ℕ) (r : Bytes) (vs : List ℕ)
    → All IsByte r
    → read_amts n r ≡ ok vs
    → (rest : Bytes) × (r ≡ write_amts vs ++ rest) × (length vs ≡ n)
unfolding read_amts write_amts
read_amts-inverts zero r vs b h = (r, ground arith, ground arith)
read_amts-inverts (suc n) r vs b h =
    let (p, first, h') = >>=-eq-ok (read_be 8 r) _ h in
    let (ws, others, e) = >>=-eq-ok (read_amts n p.1) _ h' in
    let (split, b', _) = read_be-inverts 8 r p.0 p.1 b first in
    let (rest, split', size) = read_amts-inverts n p.1 ws b' others in
    let shape : p.0 ∷ ws ≡ vs = cc e in
    (
      rest,
      split
          ∙ ap (◌++◌ (be 8 p.0)) split'
          ∙ sym (append_assoc (be 8 p.0) (write_amts ws) rest)
          ∙ ap (λ us. write_amts us ++ rest) shape,
      ap length (sym shape) ∙ ap suc size,
    )

read_be-nil : (v : ℕ) (r : Bytes) → read_be 4 [] ≢ ok (v, r)
unfolding read_be
read_be-nil v r e = cc

reassemble :
    (raw : Bytes) (vs : List ℕ) (rest : Bytes) {buf r q t : Bytes} {n m : ℕ}
    → buf ≡ be 4 n ++ r
    → r ≡ raw ++ q
    → q ≡ be 4 m ++ t
    → t ≡ write_amts vs ++ rest
    → length raw ≡ n
    → length vs ≡ m
    → (amts : List ℕ) → vs ≡ amts
    → (buf ≡ layout raw amts ++ rest) × (length amts ≡ m)
reassemble raw vs rest e₁ e₂ e₃ e₄ size size' amts e =
    (cc (e₁, e₂, e₃, e₄, size, size', layout_regroup raw vs rest, e), ap length (sym e) ∙ size')

-- A buffer of bytes that Deserialize accepts is the stored form of the item, of some encoding of
-- its transaction, with any bytes behind it; the two lengths in it fit 32 bits.
pub deserialize-inverts :
    (w : Wire) (buf : Bytes) (item : ToSignItem)
    → All IsByte buf
    → deserialize w buf ≡ ok item
    → (raw rest : Bytes) × (buf ≡ layout raw item.amts ++ rest)
      × (w.btc_decode raw ≡ ok item.mtx)
      × (length raw < 2 ^ 32)
      × (length item.amts < 2 ^ 32)
unfolding deserialize
deserialize-inverts w buf item b h =
    let (p, got_len, h₁) = >>=-eq-ok (read_be 4 buf) _ h in
    let (q, got_raw, h₂) = >>=-eq-ok (read_some p.0 p.1) _ h₁ in
    let (tx, got_tx, h₃) = >>=-eq-ok (w.btc_decode q.0) _ h₂ in
    let (c, got_count, h₄) = >>=-eq-ok (read_be 4 q.1) _ h₃ in
    let (vs, got_amts, e) = >>=-eq-ok (read_amts c.0 c.1) _ h₄ in
    let (split, b₁, small) = read_be-inverts 4 buf p.0 p.1 b got_len in
    elim (read_some-inverts p.0 p.1 q.0 q.1 b₁ got_raw) [
      | inr empty ↦ absurd (read_be-nil c.0 c.1 (rw empty at got_count))
      | inl (split₁, size, b₂) ↦
          let (split₂, b₃, small₂) = read_be-inverts 4 q.1 c.0 c.1 b₂ got_count in
          let (rest, split₃, size₂) = read_amts-inverts c.0 c.1 vs b₃ got_amts in
          let amts : vs ≡ item.amts = cc e in
          let mtx : tx ≡ item.mtx = cc e in
          let (whole, count) =
            reassemble q.0 vs rest split split₁ split₂ split₃ size size₂ item.amts amts in
          (q.0, rest, whole, got_tx ∙ ap (λ t. ok t) mtx, omega arith, omega arith)
    ]

be_cancel :
    (n m : ℕ) (x y : Bytes)
    → n < 2 ^ 32
    → m < 2 ^ 32
    → be 4 n ++ x ≡ be 4 m ++ y
    → (n ≡ m) × (x ≡ y)
be_cancel n m x y hn hm e =
    let same : ◌≡◌ {A = Result (ℕ × Bytes)} (ok (n, x)) (ok (m, y)) =
      sym (read_be-append 4 n x hn) ∙ ap (read_be 4) e ∙ read_be-append 4 m y hm in
    (ground arith, ground arith)

append_cancel : (xs ys a b : Bytes) → length xs ≡ length ys → xs ++ a ≡ ys ++ b → a ≡ b
append_cancel xs ys a b size e =
    sym (drop-append (length xs) xs a refl)
    ∙ ap (drop (length xs)) e
    ∙ drop-append (length xs) ys b size

-- Two stored forms of which one begins with the other are of one length.
layout_prefix :
    (raw raw' : Bytes) (vs vs' : List ℕ) (rest : Bytes)
    → length raw < 2 ^ 32
    → length raw' < 2 ^ 32
    → length vs < 2 ^ 32
    → length vs' < 2 ^ 32
    → layout raw' vs' ≡ layout raw vs ++ rest
    → length (layout raw' vs') ≡ length (layout raw vs)
layout_prefix raw raw' vs vs' rest r r' v v' e =
    let tail : Bytes = be 4 (length vs) ++ (write_amts vs ++ rest) in
    let tail' : Bytes = be 4 (length vs') ++ write_amts vs' in
    let (size, e₁) =
      be_cancel (length raw') (length raw) (raw' ++ tail') (raw ++ tail) r' r
        (e ∙ layout_regroup raw vs rest) in
    let e₂ = append_cancel raw' raw tail' tail size e₁ in
    let (count, _) =
      be_cancel (length vs') (length vs) (write_amts vs') (write_amts vs ++ rest) v' v e₂ in
    omega (arith, length-layout raw vs, length-layout raw' vs')

-- No strict prefix of what Serialize writes of an item that fits the stored form is accepted by
-- Deserialize.
pub deserialize_truncated :
    (w : Wire) (item : ToSignItem)
    → IsItem w item
    → (bs : Bytes) (cut : ℕ) (other : ToSignItem) → serialize w item ≡ ok bs
    → cut < length bs
    → deserialize w (take cut bs) ≢ ok other
deserialize_truncated w item h bs cut other e less accepted =
    let short = h.tx.short in
    let few = h.few in
    let whole : Bytes = layout h.tx.raw item.amts in
    let stored : bs ≡ whole = cc (e, serialize-layout w item h) in
    let bytes : All IsByte (take cut bs) =
      rw stored (All-take IsByte cut whole (layout-IsByte h.tx.raw item.amts h.tx.bytes)) in
    let (raw, rest, shape, _, r, v) = deserialize-inverts w (take cut bs) other bytes accepted in
    let again : whole ≡ layout raw other.amts ++ (rest ++ drop cut bs) =
      sym stored
      ∙ sym (take-append-drop cut bs)
      ∙ ap (λ t. t ++ drop cut bs) shape
      ∙ append_assoc (layout raw other.amts) rest (drop cut bs) in
    let same =
      layout_prefix raw h.tx.raw other.amts item.amts (rest ++ drop cut bs) r (omega arith) v
        (omega arith) again in
    absurd (
      omega (
        arith,
        same,
        ap length again,
        ap length stored,
        length-drop cut bs,
        length-append (layout raw other.amts) (rest ++ drop cut bs),
        length-append rest (drop cut bs),
      ))
