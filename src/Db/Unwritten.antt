-- ===== src/Db/Unwritten.antt =====
-- db/db.go: SetTxDone where the write fails for an entry that is cached.
use mathlib.Core.Option
use btc_vendor_tools.Base.{◌≡◌, refl, ap, ◌∙◌, some, true, false, storage, ok, err, bytes_eq_refl}
use btc_vendor_tools.Std.Binary.{Bytes}
use btc_vendor_tools.Wire.{Wire}
use btc_vendor_tools.LevelDb.{LevelDb}
use btc_vendor_tools.Utils.Saved
use btc_vendor_tools.Utils.Saved.{SavedItem}
use btc_vendor_tools.Db.Cache
use btc_vendor_tools.Db.Cache.Lookup.{get-mark_done, set_done}
use btc_vendor_tools.Db.{VendorDb, tx_key, read_stored, get_signed_tx, set_tx_done, or_nil}

unwritten :
    (w : Wire) (L : LevelDb) (h : Bytes) (v : VendorDb L.State) (item : SavedItem)
    → read_stored w L h v.db ≡ ok item
    → L.put v.db (tx_key h) (or_nil w L (Saved.serialize w (record item { done = true })))
      ≡ (false, v.db)
    → set_tx_done w L h v ≡ (err storage, record v { tx_cache = Cache.mark_done w h v.tx_cache })
unfolding set_tx_done
unwritten w L h v item read refuses = rw (read, set_tx_done) (rw refuses refl)

got :
    (w : Wire) (L : LevelDb) (h : Bytes) (v : VendorDb L.State) (it : SavedItem)
    → Cache.get w h v.tx_cache ≡ some it
    → get_signed_tx w L h v ≡ ok it
unfolding get_signed_tx
got w L h v it hit = rw (hit, get_signed_tx) refl

-- SetTxDone of an entry that is cached, over a database that refuses the write and stays as it was,
-- returns an error, but GetSignedTx then returns the entry with Done set, while the database still
-- has the item that it had.
pub set_tx_done-unwritten :
    (w : Wire) (L : LevelDb) (h : Bytes) (v : VendorDb L.State) (it item : SavedItem)
    → Cache.get w h v.tx_cache ≡ some it
    → read_stored w L h v.db ≡ ok item
    → L.put v.db (tx_key h) (or_nil w L (Saved.serialize w (record item { done = true })))
      ≡ (false, v.db)
    → (set_tx_done w L h v ≡ (err storage, record v { tx_cache = Cache.mark_done w h v.tx_cache }))
      × (get_signed_tx w L h (set_tx_done w L h v).1 ≡ ok (set_done it))
      × (read_stored w L h (set_tx_done w L h v).1.db ≡ ok item)
set_tx_done-unwritten w L h v it item cached read refuses =
    let after = unwritten w L h v item read refuses in
    let hit : Cache.get w h (Cache.mark_done w h v.tx_cache) ≡ some (set_done it) =
      get-mark_done w h h v.tx_cache
      ∙ rw (bytes_eq_refl h) (ap (λ o. Option.map set_done o) cached) in
    (
      after,
      ap (λ p. get_signed_tx w L h p.1) after ∙ got w L h _ (set_done it) hit,
      ap (λ p. read_stored w L h p.1.db) after ∙ read,
    )
