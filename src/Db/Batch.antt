-- ===== src/Db/Batch.antt =====
-- db/db.go: how ReadFirstBatch reads and sorts what is stored.
pub mod Sorting
use btc_vendor_tools.Base.{List, [], ◌∷◌, if◌then◌else◌, Result, ok, ◌>>=◌}
use btc_vendor_tools.Std.Binary.{Bytes}
use btc_vendor_tools.Wire.{Wire}
use btc_vendor_tools.Utils.Saved
use btc_vendor_tools.Utils.Saved.{SavedItem, less}

-- The loop over the iterator; the first value that is refused ends it.
unfoldable pub deserialize_all : Wire → List Bytes → Result (List SavedItem)
deserialize_all w [] = ok []
deserialize_all w (val ∷ rest) = do
  item ← Saved.deserialize w val
  items ← deserialize_all w rest
  ok (item ∷ items)

-- `sort.Sort(sort.Reverse(arr))`. Go leaves the order of entries with equal times open; here they
-- keep theirs.
unfoldable pub insert_newest : SavedItem → List SavedItem → List SavedItem
insert_newest x [] = x ∷ []
insert_newest x (y ∷ ys) = if less x y then y ∷ insert_newest x ys else x ∷ y ∷ ys

unfoldable pub newest_first : List SavedItem → List SavedItem
unfolding insert_newest
newest_first [] = []
newest_first (x ∷ xs) = insert_newest x (newest_first xs)
