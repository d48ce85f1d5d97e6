-- ===== src/Db/Reach.antt =====
-- db/db.go: the states that a VendorDB goes through while its methods are called, in any order.
use btc_vendor_tools.Base.{◌≤◌, ◌≡◌, length, Error, ok, err, IsErr}
use btc_vendor_tools.Std.Binary.{Bytes}
use btc_vendor_tools.Wire.{Wire}
use btc_vendor_tools.LevelDb.{LevelDb, IsLevelDb, IsIterable}
use btc_vendor_tools.Utils.Saved.{SavedItem}
use btc_vendor_tools.Utils.Saved.RoundTrip.{IsSaved}
use btc_vendor_tools.Db.Cache.{hash_of}
use btc_vendor_tools.Db.{
  VendorDb, read_stored, put_signed_tx, get_signed_tx, set_tx_done, new_vendor_db, read_first_batch,
}
use btc_vendor_tools.Db.View.{IsStored, Inv, get_signed_tx-eq-read_stored}
use btc_vendor_tools.Db.Put.{get_signed_tx-put_signed_tx}
use btc_vendor_tools.Db.Done.{get_signed_tx-set_tx_done}
use btc_vendor_tools.Db.Reopen.{get_signed_tx-new_vendor_db, new_vendor_db-Inv}
use btc_vendor_tools.Db.Keeps.{Inv-mark_unknown, Inv-first_batch}

module _ (w : Wire) (L : LevelDb) where
  -- One call of a method, by the signer, the observer or the REST service, or a new start. A write
  -- that fails is a step only where it leaves everything as it was: SetTxDone marks the cached entry
  -- before it writes, so that a write that fails parts the cache from the database.
  pub data Step : VendorDb L.State → VendorDb L.State → Type 0 where
    put :
        (h : Bytes) (item : SavedItem) {v v' : VendorDb L.State}
        → IsSaved w item
        → hash_of w item ≡ h
        → put_signed_tx w L h item v ≡ (ok tt, v')
        → Step v v'
    mark : (h : Bytes) {v v' : VendorDb L.State} → set_tx_done w L h v ≡ (ok tt, v') → Step v v'
    put_refused :
        (h : Bytes) (item : SavedItem) {v : VendorDb L.State} {e : Error}
        → put_signed_tx w L h item v ≡ (err e, v)
        → Step v v
    mark_refused :
        (h : Bytes) {v : VendorDb L.State} {e : Error} → set_tx_done w L h v ≡ (err e, v) → Step v v
    mark_unknown :
        (h : Bytes) {v : VendorDb L.State}
        → IsErr (read_stored w L h v.db)
        → Step v (set_tx_done w L h v).1
    first_batch : {v : VendorDb L.State} → Step v (read_first_batch w L v).1
    reopen : {v v' : VendorDb L.State} → new_vendor_db w L v.db ≡ ok v' → Step v v'

  pub data Reach : VendorDb L.State → VendorDb L.State → Type 0 where
    here : {v : VendorDb L.State} → Reach v v
    after : {v v' v'' : VendorDb L.State} → Reach v v' → Step v' v'' → Reach v v''

module _ (w : Wire) (L : LevelDb) (lawful : IsLevelDb L) (scans : IsIterable L) where
  Inv-Step : {v v' : VendorDb L.State} → Inv w L v → Step w L v v' → Inv w L v'
  Inv-Step {v} {v'} inv (put h item saved hash e) =
      (get_signed_tx-put_signed_tx w L lawful h item v v' inv saved hash e).0
  Inv-Step {v} {v'} inv (mark h e) = (get_signed_tx-set_tx_done w L lawful h v v' inv e).2
  Inv-Step {v} inv (put_refused h item e) = inv
  Inv-Step {v} inv (mark_refused h e) = inv
  Inv-Step {v} inv (mark_unknown h bad) = Inv-mark_unknown w L v inv h bad
  Inv-Step {v} inv first_batch = Inv-first_batch w L v inv scans
  Inv-Step {v} {v'} inv (reopen e) = (get_signed_tx-new_vendor_db w L v v' inv e).0

  Inv-Reach : {v v' : VendorDb L.State} → Inv w L v → Reach w L v v' → Inv w L v'
  Inv-Reach inv here = inv
  Inv-Reach inv (after way step) = Inv-Step (Inv-Reach inv way) step

-- Over a database that holds under each key of a transaction the stored form of an item with that
-- hash, a VendorDB that NewVendorDB returns and that goes through any calls of PutSignedTx and
-- SetTxDone that return nil, for items that fit the stored form and under their hashes, or that
-- return an error and leave the VendorDB as it was, calls of SetTxDone for hashes that cannot be
-- read, calls of ReadFirstBatch and new starts, holds at most 100 entries in its cache, and
-- GetSignedTx returns what a read of the database alone returns.
pub Reach-cached :
    (w : Wire) (L : LevelDb)
    → IsLevelDb L
    → IsIterable L
    → (d : L.State) (v v' : VendorDb L.State) → IsStored w L d
    → new_vendor_db w L d ≡ ok v
    → Reach w L v v'
    → (length v'.tx_cache.l ≤ 100)
      × ((h : Bytes) → get_signed_tx w L h v' ≡ read_stored w L h v'.db)
Reach-cached w L lawful scans d v v' stored opened way =
    let inv = Inv-Reach w L lawful scans (new_vendor_db-Inv w L d v stored opened) way in
    (inv.bounded, λ h. get_signed_tx-eq-read_stored w L v' h inv)
