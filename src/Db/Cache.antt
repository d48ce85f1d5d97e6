-- ===== src/Db/Cache.antt =====
-- db/db.go: VendorCache. The list runs from Front, the oldest entry, to Back.
pub mod Lookup
pub mod Recency
use btc_vendor_tools.Base.{
  ℕ, ◌+◌, ◌%◌, ◌^◌, Bool, true, Option, none, some, List, [], ◌∷◌, ◌++◌, reverse, ltb,
  if◌then◌else◌, bytes_eq, length, drop,
}
use btc_vendor_tools.Std.Binary.{Bytes}
use btc_vendor_tools.Wire.{Wire}
use btc_vendor_tools.Utils.Saved.{SavedItem}

pub record VendorCache : Type 0 where
  pub l : List SavedItem
  pub size : ℕ
  pub total_cache : ℕ

-- `PushBack`; above the size the front entry goes.
unfoldable pub put : SavedItem → VendorCache → VendorCache
put item cache =
    let l = cache.l ++ item ∷ [] in
    record cache {
      l = if ltb cache.size (length l) then drop 1 l else l;
      total_cache = (cache.total_cache + 1) % 2 ^ 64;
    }

unfoldable pub put_to_front : SavedItem → VendorCache → VendorCache
put_to_front item cache = record cache { l = item ∷ cache.l }

abbrev pub hash_of : Wire → SavedItem → Bytes
hash_of w saved = w.tx_hash saved.item.mtx

-- The loop of Get, over the entries that it has still to look at.
unfoldable pub find : Wire → Bytes → List SavedItem → Option SavedItem
find w tx_hash [] = none
find w tx_hash (v ∷ rest) = if bytes_eq (hash_of w v) tx_hash then some v else find w tx_hash rest

-- From Back to Front.
unfoldable pub get : Wire → Bytes → VendorCache → Option SavedItem
get w tx_hash cache = find w tx_hash (reverse cache.l)

unfoldable pub get_all : VendorCache → List SavedItem
get_all cache = reverse cache.l

abbrev pub len : VendorCache → ℕ
len cache = length cache.l

-- `val.Done = true` on the entry that Get has found, which the list shares.
unfoldable pub mark_first : Wire → Bytes → List SavedItem → List SavedItem
mark_first w tx_hash [] = []
mark_first w tx_hash (v ∷ rest) =
    if bytes_eq (hash_of w v) tx_hash
    then record v { done = true } ∷ rest
    else v ∷ mark_first w tx_hash rest

unfoldable pub mark_done : Wire → Bytes → VendorCache → VendorCache
unfolding mark_first
mark_done w tx_hash cache = record cache { l = reverse (mark_first w tx_hash (reverse cache.l)) }

-- The loop of ReadFirstBatch that puts arr[i], arr[i + 1], … to the front while i is below the
-- bound; the list is arr from i on.
unfoldable pub fill : ℕ → ℕ → List SavedItem → VendorCache → VendorCache
unfolding put_to_front
fill bound i [] cache = cache
fill bound i (item ∷ rest) cache =
    let more = fill bound (i + 1) rest (put_to_front item cache) in
    if ltb i bound then more else cache
