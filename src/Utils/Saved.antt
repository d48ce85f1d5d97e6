-- ===== src/Utils/Saved.antt =====
-- utils/utils.go: SavedItem with Serialize and Deserialize, and the order of SavedItemArr.
pub mod RoundTrip
use btc_vendor_tools.Base.{
  ℕ, ◌%◌, ◌^◌, Bool, true, false, not, List, [], ◌∷◌, ◌++◌, length, get_elem?, Option, none, some,
  ◌==◌, if◌then◌else◌, Result, ok, panic, ◌>>=◌,
}
use btc_vendor_tools.Std.Binary.{Bytes, be, read_be, read_some}
use btc_vendor_tools.Std.Clock.{Time, gob_encode, gob_decode, before}
use btc_vendor_tools.Wire.{Wire}
use btc_vendor_tools.Utils.ToSign
use btc_vendor_tools.Utils.ToSign.{ToSignItem}

pub record SavedItem : Type 0 where
  pub item : ToSignItem
  pub time_received : Time
  pub done : Bool

-- `binary.Write` and `binary.Read` of a bool: one byte, and any byte but 0 is true.
unfoldable pub write_bool : Bool → Bytes
write_bool true = 1 ∷ []
write_bool false = 0 ∷ []

unfoldable pub serialize : Wire → SavedItem → Result Bytes
unfolding write_bool
serialize w saved = do
  raw ← ToSign.serialize w saved.item
  t ← gob_encode saved.time_received
  ok (
      be 4 (length raw % 2 ^ 32)
      ++ (raw ++ (be 4 (length t % 2 ^ 32) ++ (t ++ write_bool saved.done))))

unfoldable pub deserialize : Wire → Bytes → Result SavedItem
deserialize w buf = do
  (len_item, r) ← read_be 4 buf
  (raw, r') ← read_some len_item r
  item ← ToSign.deserialize w raw
  (len_tr, r'') ← read_be 4 r'
  (raw', r''') ← read_some len_tr r''
  tr ← gob_decode raw'
  (done, _) ← read_be 1 r'''
  ok (record { item = item; time_received = tr; done = not (done == 0) })

-- `SavedItemArr.Less`, on the two elements.
unfoldable pub less : SavedItem → SavedItem → Bool
less a b = if before a.time_received b.time_received then true else false
