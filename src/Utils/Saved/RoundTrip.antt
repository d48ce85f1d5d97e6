-- ===== src/Utils/Saved/RoundTrip.antt =====
-- utils/utils.go: a serialized SavedItem is deserialized as itself.
use btc_vendor_tools.Base.{
  ℕ, ◌%◌, ◌^◌, ◌<◌, ◌≡◌, refl, ◌++◌, arith, length, Bool, true, false, not, ◌==◌, length-append, ok,
}
use btc_vendor_tools.Std.Binary.{Bytes, be, length-be, read_be-append, read_be-be, read_some-append}
use btc_vendor_tools.Std.Clock.{IsTime, gob_round_trip, gob_decode}
use btc_vendor_tools.Wire.{Wire}
use btc_vendor_tools.Utils.ToSign
use btc_vendor_tools.Utils.ToSign.RoundTrip.{IsItem, deserialize-serialize}
use btc_vendor_tools.Utils.Saved.{SavedItem, write_bool, serialize, deserialize}

pub record IsSaved (w : Wire) (s : SavedItem) : Type 0 where
  pub item : IsItem w s.item
  pub time : IsTime s.time_received

-- The four fields in their order; `raw` and `t` are the item's and the time's own forms.
abbrev fields : Bytes → Bytes → Bool → Bytes
fields raw t done = be 4 (length raw) ++ (raw ++ (be 4 (length t) ++ (t ++ write_bool done)))

flag : (b : Bool) → (n : ℕ) × (write_bool b ≡ be 1 n) × (n < 256) × (not (n == 0) ≡ b)
unfolding write_bool be
flag true = (1, refl, omega arith, refl)
flag false = (0, refl, omega arith, refl)

deserialize-fields :
    (w : Wire) (s : SavedItem) (raw t : Bytes)
    → length raw < 2 ^ 32
    → length t ≡ 15
    → ToSign.deserialize w raw ≡ ok s.item
    → gob_decode t ≡ ok s.time_received
    → deserialize w (fields raw t s.done) ≡ ok s
deserialize-fields w s raw t fits size d g =
    let (n, bits, bound, back) = flag s.done in
    let tail : Bytes = be 4 (length t) ++ (t ++ be 1 n) in
    let more : 0 < length (raw ++ tail) = omega (
      arith,
      length-append raw tail,
      length-append (be 4 (length t)) (t ++ be 1 n),
      length-be 4 (length t),
    ) in
    let more' : 0 < length (t ++ be 1 n) = omega (arith, length-append t (be 1 n)) in
    rw bits (
      unfold deserialize in
      rw (read_be-append 4 (length raw) (raw ++ tail) (omega arith)) (
        rw (read_some-append (length raw) raw tail refl more) (
          rw d (
            rw (read_be-append 4 (length t) (t ++ be 1 n) (omega arith)) (
              rw (read_some-append (length t) t (be 1 n) refl more')
                (rw g (rw (read_be-be 1 n bound) (rw back))))))))

-- For a saved item whose ToSignItem fits its stored form, and whose time GobEncode accepts, what
-- Serialize writes is read back by Deserialize as the item.
pub saved_round_trip :
    (w : Wire) (s : SavedItem)
    → IsSaved w s
    → (bs : Bytes) × (serialize w s ≡ ok bs) × (deserialize w bs ≡ ok s)
saved_round_trip w s h =
    let (raw, enc, _, fits, _, dec) = deserialize-serialize w s.item h.item in
    let (t, gob, size, ungob) = gob_round_trip s.time_received h.time in
    let m : length raw % 2 ^ 32 ≡ length raw = omega arith in
    let n : length t % 2 ^ 32 ≡ length t = omega arith in
    (
      fields raw t s.done,
      unfold serialize in rw enc (rw gob (rw (m, n))),
      deserialize-fields w s raw t fits size dec ungob,
    )
