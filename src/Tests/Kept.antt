-- ===== src/Tests/Kept.antt =====
-- The batches, new starts and call sequences of the database at concrete inputs.
use btc_vendor_tools.Db.Reopen.{get_signed_tx-new_vendor_db}
use btc_vendor_tools.Db.{new_vendor_db, get_total_tx_num, uint64}
use btc_vendor_tools.Std.Clock.{utc}
use btc_vendor_tools.Base.{◌≤◌, ◌≡◌, refl, true, [], ◌∷◌, ◌++◌, take, length, bytes_eq, ok}
use btc_vendor_tools.Std.Binary.{Bytes, be, from_be}
use btc_vendor_tools.Std.Clock.{zone_bits, gob_encode}
use btc_vendor_tools.Utils.ToSign
use btc_vendor_tools.Utils.ToSign.{ToSignItem}
use btc_vendor_tools.Utils.Saved
use btc_vendor_tools.Utils.Saved.{SavedItem}
use btc_vendor_tools.Db.{
  VendorDb, fresh, put_signed_tx, put_uncached, store_new, get_signed_tx, read_stored,
  get_total_tx_num, new_vendor_db, read_first_batch,
}
use btc_vendor_tools.Db.Cache
use btc_vendor_tools.Db.Cache.{VendorCache}
use btc_vendor_tools.Db.Reach.{Reach, Reach-cached, after, here, put, mark, first_batch}
use btc_vendor_tools.Db.View.{Inv}
use btc_vendor_tools.LevelDb.{LevelDb}
use btc_vendor_tools.Tests.Toy.{
  wire, store, store-IsLevelDb, store-IsIterable, saved_bare, saved_bare-IsSaved, empty_db,
  empty_db-Inv,
}
use btc_vendor_tools.Tests.Stored.{
  stored_bare, bare_hash, put_bare, bare_db, bare_db-Inv, done_db, done_bare,
}

-- Two stored items, of which the later one stands behind the other, in a database that is opened
-- with a total of two and an empty cache.
abbrev evening : SavedItem
evening = record saved_bare { time_received = record { sec = 1000; nsec = 6; zone = utc } }

abbrev stored_evening : Bytes
stored_evening = take 48 stored_bare ++ 6 ∷ 255 ∷ 255 ∷ 0 ∷ []

abbrev two_stored : LevelDb
two_stored = record store { scan = λ d prefix. (stored_bare ∷ stored_evening ∷ [], true) }

abbrev opened : VendorDb two_stored.State
opened = fresh wire two_stored [] 2

abbrev reopened : VendorDb store.State
reopened = fresh wire store bare_db.db 1

opened_again : new_vendor_db wire store bare_db.db ≡ ok reopened
unfolding new_vendor_db get_total_tx_num put_signed_tx put_uncached store_new Cache.get Cache.find
    Cache.put Saved.serialize ToSign.serialize gob_encode zone_bits be bytes_eq uint64 from_be
opened_again = refl

get_signed_tx-new_vendor_db_example :
    Inv wire store reopened
    × ((j : Bytes) → get_signed_tx wire store j reopened ≡ get_signed_tx wire store j bare_db)
get_signed_tx-new_vendor_db_example =
    get_signed_tx-new_vendor_db wire store bare_db reopened bare_db-Inv opened_again

opened_empty : new_vendor_db wire store [] ≡ ok empty_db
unfolding new_vendor_db get_total_tx_num
opened_empty = refl

put_mark_batch : Reach wire store empty_db (read_first_batch wire store done_db).1
put_mark_batch =
    after
      (after (after here (put bare_hash saved_bare saved_bare-IsSaved refl put_bare))
        (mark bare_hash done_bare))
      first_batch

Reach-cached_example :
    (length (read_first_batch wire store done_db).1.tx_cache.l ≤ 100)
    × ((h : Bytes)
        → get_signed_tx wire store h (read_first_batch wire store done_db).1
          ≡ read_stored wire store h (read_first_batch wire store done_db).1.db)
Reach-cached_example =
    Reach-cached wire store store-IsLevelDb store-IsIterable [] empty_db
      (read_first_batch wire store done_db).1 empty_db-Inv.stored opened_empty put_mark_batch
