-- ===== src/Db.antt =====
-- db/db.go: VendorDB. Every method holds the lock from its first line to its last, so each is one
-- step here. The cache is in Db/Cache.
pub mod Cache
pub mod Batch
pub mod View
pub mod Put
pub mod Done
pub mod Total
pub mod Unwritten
pub mod FirstBatch
pub mod Reopen
pub mod Reliable
pub mod Keeps
pub mod Reach
use btc_vendor_tools.Base.{
  ℕ, ◌%◌, ◌^◌, Bool, true, false, ◌||◌, Option, none, some, List, [], ◌∷◌, ◌++◌, ltb, leb, ◌==◌,
  if◌then◌else◌, length, take, drop, Error, not_found, storage, Result, ok, err, panic, ◌>>=◌,
}
use btc_vendor_tools.Std.Binary.{Bytes, be, from_be}
use btc_vendor_tools.Wire.{Wire}
use btc_vendor_tools.LevelDb.{LevelDb}
use btc_vendor_tools.Utils.Saved
use btc_vendor_tools.Utils.Saved.{SavedItem}
use Cache
use Cache.{VendorCache}
use Batch.{deserialize_all, newest_first}

abbrev pub cache_size : ℕ
cache_size = 100

-- "tx" and "total".
abbrev pub tx_prefix : Bytes
tx_prefix = 116 ∷ 120 ∷ []

abbrev pub totalnum_prefix : Bytes
totalnum_prefix = 116 ∷ 111 ∷ 116 ∷ 97 ∷ 108 ∷ []

-- `append(tx_prefix, txHash...)`.
abbrev pub tx_key : Bytes → Bytes
tx_key tx_hash = tx_prefix ++ tx_hash

pub record VendorDb (State : Type 0) : Type 0 where
  pub db : State
  pub tx_cache : VendorCache

-- `err != leveldb.ErrNotFound`, the other way round.
abbrev pub is_not_found : Error → Bool
is_not_found not_found = true
is_not_found _ = false

-- `binary.BigEndian.Uint64(val)`: it panics on fewer than 8 bytes.
unfoldable pub uint64 : Bytes → Result ℕ
uint64 val = if leb 8 (length val) then ok (from_be 0 (take 8 val)) else panic

module _ (w : Wire) (L : LevelDb) where
  -- PutSignedTx from the first `v.db.Put` on.
  unfoldable pub store_new :
      Bytes → Bytes → SavedItem → VendorDb L.State → Result (Unit {0}) × VendorDb L.State
  store_new tx_hash val item v =
      let (stored, d) = L.put v.db (tx_key tx_hash) val in
      let cache = Cache.put item v.tx_cache in
      let (counted, d') = L.put d totalnum_prefix (be 8 cache.total_cache) in
      if stored
      then ((if counted then ok tt else err storage), record { db = d'; tx_cache = cache })
      else (err storage, record { db = d; tx_cache = v.tx_cache })

  -- PutSignedTx behind the test of the cache. A failure to read is answered as if the item were
  -- there: `return nil`.
  unfoldable pub put_uncached :
      Bytes → SavedItem → VendorDb L.State → Result (Unit {0}) × VendorDb L.State
  unfolding store_new
  put_uncached tx_hash item v = elim (L.get v.db (tx_key tx_hash)) [
    | ok old ↦ (ok tt, v)
    | panic ↦ (panic, v)
    | err e ↦
        if is_not_found e
        then (elim (Saved.serialize w item) [
          | ok val ↦ store_new tx_hash val item v
          | err e' ↦ (err e', v)
          | panic ↦ (panic, v)
        ])
        else (ok tt, v)
  ]

  unfoldable pub put_signed_tx :
      Bytes → SavedItem → VendorDb L.State → Result (Unit {0}) × VendorDb L.State
  unfolding put_uncached
  put_signed_tx tx_hash item v = elim (Cache.get w tx_hash v.tx_cache) [
    | some old ↦ (ok tt, v)
    | none ↦ put_uncached tx_hash item v
  ]

  -- The read behind the cache, in GetSignedTx and in SetTxDone.
  unfoldable pub read_stored : Bytes → L.State → Result SavedItem
  read_stored tx_hash d = do val ← L.get d (tx_key tx_hash); Saved.deserialize w val

  unfoldable pub get_signed_tx : Bytes → VendorDb L.State → Result SavedItem
  unfolding read_stored
  get_signed_tx tx_hash v = elim (Cache.get w tx_hash v.tx_cache) [
    | some res ↦ ok res
    | none ↦ read_stored tx_hash v.db
  ]

  -- `raw, _ := item.Serialize()`: an error leaves raw nil.
  abbrev pub or_nil : Result Bytes → Bytes
  or_nil (ok raw) = raw
  or_nil _ = []

  -- The cached entry is marked first, also where the rest fails.
  unfoldable pub set_tx_done : Bytes → VendorDb L.State → Result (Unit {0}) × VendorDb L.State
  unfolding read_stored
  set_tx_done tx_hash v =
      let cache = Cache.mark_done w tx_hash v.tx_cache in
      elim (read_stored tx_hash v.db) [
        | ok item ↦
            let raw = or_nil (Saved.serialize w (record item { done = true })) in
            let (stored, d) = L.put v.db (tx_key tx_hash) raw in
            ((if stored then ok tt else err storage), record { db = d; tx_cache = cache })
        | err e ↦ (err e, record v { tx_cache = cache })
        | panic ↦ (panic, record v { tx_cache = cache })
      ]

  unfoldable pub get_total_tx_num : VendorDb L.State → Result ℕ
  unfolding uint64
  get_total_tx_num v =
      if ltb 0 v.tx_cache.total_cache
      then ok v.tx_cache.total_cache
      else (elim (L.get v.db totalnum_prefix) [
        | ok val ↦ uint64 val
        | err e ↦ ok 0
        | panic ↦ panic
      ])

  abbrev pub fresh : L.State → ℕ → VendorDb L.State
  fresh d total = record {
    db = d;
    tx_cache = record { l = []; size = cache_size; total_cache = total };
  }

  -- NewVendorDB, over a database that has been opened.
  unfoldable pub new_vendor_db : L.State → Result (VendorDb L.State)
  unfolding get_total_tx_num
  new_vendor_db d = do total ← get_total_tx_num (fresh d 0); ok (fresh d total)

  unfoldable pub read_first_batch : VendorDb L.State → Result (List SavedItem) × VendorDb L.State
  read_first_batch v =
      let n = Cache.len v.tx_cache in
      let (values, intact) = L.scan v.db tx_prefix in
      if n == cache_size || n == v.tx_cache.total_cache
      then (ok (Cache.get_all v.tx_cache), v)
      else (elim (deserialize_all w values) [
        | err e ↦ (err e, v)
        | panic ↦ (panic, v)
        | ok items ↦
            let arr = newest_first items in
            let cache = Cache.fill cache_size n (drop n arr) v.tx_cache in
            if intact
            then (
              ok (if ltb cache_size (length arr) then take cache_size arr else arr),
              record v { tx_cache = cache },
            )
            else (err storage, v)
      ])
