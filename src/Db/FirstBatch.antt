-- ===== src/Db/FirstBatch.antt =====
-- db/db.go: ReadFirstBatch returns the newest entries of the database, and fills the cache with them.
use btc_vendor_tools.Base.{
  ℕ, ◌≤◌, ◌≡◌, true, List, [], ◌++◌, length, take, drop, ok, All, false, ◌⊎◌,
}
use btc_vendor_tools.Wire.{Wire}
use btc_vendor_tools.LevelDb.{LevelDb}
use btc_vendor_tools.Utils.Saved.{SavedItem, less}
use btc_vendor_tools.Db.Cache
use btc_vendor_tools.Db.Batch.{deserialize_all, newest_first}
use btc_vendor_tools.Db.Batch.Sorting.{Falling}
use mathlib.Core.List.{Permᴰ}
use btc_vendor_tools.Db.{VendorDb, cache_size, tx_prefix}

module _ (w : Wire) (L : LevelDb) where
  -- The cache holds the first of the entries that the iterator yields, in the order of the sort, and
  -- counts all of them.
  pub record IsFresh (v : VendorDb L.State) (items : List SavedItem) : Type 0 where
    pub read : deserialize_all w (L.scan v.db tx_prefix).0 ≡ ok items
    pub intact : (L.scan v.db tx_prefix).1 ≡ true
    pub bounded : length v.tx_cache.l ≤ cache_size
    pub newest : Cache.get_all v.tx_cache ≡ take (length v.tx_cache.l) (newest_first items)
    pub counted : v.tx_cache.total_cache ≡ length items

module _ (w : Wire) (L : LevelDb) (v : VendorDb L.State) (items : List SavedItem)
    (h : IsFresh w L v items) where
  abbrev arr : List SavedItem
  arr = newest_first items

  abbrev n : ℕ
  n = length v.tx_cache.l

  filled : Cache.VendorCache
  filled = Cache.fill cache_size n (drop n arr) v.tx_cache

-- The first entries of a list in falling order are as many as the cache holds and fall as well, and
-- none of the rest was received after one of them.
pub record IsNewest (items out : List SavedItem) : Type 0 where
  pub rest : List SavedItem
  pub same : Permᴰ (out ++ rest) items
  pub falling : Falling out
  pub newer : All (λ x. All (λ y. less x y ≡ false) rest) out
  pub count : (length out ≡ cache_size) ⊎ (rest ≡ [])
  pub most : length out ≤ cache_size
