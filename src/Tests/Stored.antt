-- ===== src/Tests/Stored.antt =====
-- The stored forms and the database at concrete inputs.
use btc_vendor_tools.Db.{new_vendor_db, get_total_tx_num}
use btc_vendor_tools.Base.{
  ◌+◌, ◌<◌, ◌^◌, ◌≡◌, ◌≢◌, refl, true, ◌&&◌, [], ◌∷◌, ◌++◌, take, length, All, arith, bytes_eq,
  if◌then◌else◌, ok,
}
use btc_vendor_tools.Std.Binary.{Bytes, IsByte, be, from_be, read_be, read_full, read_some}
use btc_vendor_tools.Std.Clock.{zone_bits, zone_of_bits, gob_encode, gob_decode}
use btc_vendor_tools.Utils.ToSign
use btc_vendor_tools.Utils.ToSign.{ToSignItem}
use btc_vendor_tools.Utils.ToSign.RoundTrip.{layout, deserialize-serialize}
use btc_vendor_tools.Utils.ToSign.Rejects.{deserialize-inverts, deserialize_truncated}
use btc_vendor_tools.Utils.Saved
use btc_vendor_tools.Utils.Saved.{SavedItem}
use btc_vendor_tools.Utils.Saved.RoundTrip.{saved_round_trip}
use btc_vendor_tools.Db.{
  VendorDb, tx_key, put_signed_tx, put_uncached, store_new, get_signed_tx, read_stored, set_tx_done,
  get_total_tx_num, new_vendor_db,
}
use btc_vendor_tools.Db.Cache
use btc_vendor_tools.Db.Cache.{VendorCache}
use btc_vendor_tools.Db.View.{Inv}
use btc_vendor_tools.Db.Put.{is_absent, get_signed_tx-put_signed_tx}
use btc_vendor_tools.Db.Done.{get_signed_tx-set_tx_done}
use btc_vendor_tools.Db.Total.{IsCounted, get_total_tx_num-put_signed_tx}
use btc_vendor_tools.Db.Cache.Lookup.{set_done}
use btc_vendor_tools.Tests.Toy.{
  wire, store, store-IsLevelDb, item_two, item_two-IsItem, saved_bare, saved_bare-IsSaved, empty_db,
  empty_db-Inv,
}

-- The stored form of item_two.
abbrev stored_two : Bytes
stored_two =
    0 ∷ 0 ∷ 0 ∷ 4 ∷ 7 ∷ 1 ∷ 8 ∷ 2 ∷ 0 ∷ 0 ∷ 0 ∷ 2 ∷ 0 ∷ 0 ∷ 0 ∷ 0 ∷ 0 ∷ 0 ∷ 0 ∷ 5 ∷ 0 ∷ 0 ∷ 0 ∷ 0
    ∷ 0 ∷ 0 ∷ 2 ∷ 88 ∷ []

serialize_two : ToSign.serialize wire item_two ≡ ok stored_two
unfolding ToSign.serialize ToSign.write_amts be
serialize_two = refl

stored_two-bytes : All IsByte stored_two
stored_two-bytes = (
  omega arith,
  (
    omega arith,
    (
      omega arith,
      (
        omega arith,
        (
          omega arith,
          (
            omega arith,
            (
              omega arith,
              (
                omega arith,
                (
                  omega arith,
                  (
                    omega arith,
                    (
                      omega arith,
                      (
                        omega arith,
                        (
                          omega arith,
                          (
                            omega arith,
                            (
                              omega arith,
                              (
                                omega arith,
                                (
                                  omega arith,
                                  (
                                    omega arith,
                                    (
                                      omega arith,
                                      (
                                        omega arith,
                                        (
                                          omega arith,
                                          (
                                            omega arith,
                                            (
                                              omega arith,
                                              (
                                                omega arith,
                                                (
                                                  omega arith,
                                                  (omega arith, (omega arith, (omega arith, tt))),
                                                ),
                                              ),
                                            ),
                                          ),
                                        ),
                                      ),
                                    ),
                                  ),
                                ),
                              ),
                            ),
                          ),
                        ),
                      ),
                    ),
                  ),
                ),
              ),
            ),
          ),
        ),
      ),
    ),
  ),
)

deserialize_two : ToSign.deserialize wire stored_two ≡ ok item_two
unfolding ToSign.deserialize ToSign.read_amts read_be read_full read_some from_be
deserialize_two = refl

deserialize-serialize_example :
    (raw : Bytes) × (ToSign.serialize wire item_two ≡ ok raw)
    × All IsByte raw
    × (length raw < 2 ^ 32)
    × (0 < length raw)
    × (ToSign.deserialize wire raw ≡ ok item_two)
deserialize-serialize_example = deserialize-serialize wire item_two item_two-IsItem

deserialize_truncated_example : ToSign.deserialize wire (take 20 stored_two) ≢ ok item_two
deserialize_truncated_example =
    deserialize_truncated wire item_two item_two-IsItem stored_two 20 item_two serialize_two
      (omega arith)

saved_round_trip_example :
    (bs : Bytes) × (Saved.serialize wire saved_bare ≡ ok bs)
    × (Saved.deserialize wire bs ≡ ok saved_bare)
saved_round_trip_example = saved_round_trip wire saved_bare saved_bare-IsSaved

abbrev small_cache : VendorCache
small_cache = record { l = saved_bare ∷ []; size = 1; total_cache = 1 }

abbrev pub later : SavedItem
later = record saved_bare { done = true }

abbrev pub stored_bare : Bytes
stored_bare =
    0 ∷ 0 ∷ 0 ∷ 28 ∷ 0 ∷ 0 ∷ 0 ∷ 4 ∷ 7 ∷ 0 ∷ 8 ∷ 0 ∷ 0 ∷ 0 ∷ 0 ∷ 2 ∷ 0 ∷ 0 ∷ 0 ∷ 0 ∷ 0 ∷ 0 ∷ 0 ∷ 5
    ∷ 0 ∷ 0 ∷ 0 ∷ 0 ∷ 0 ∷ 0 ∷ 2 ∷ 88 ∷ 0 ∷ 0 ∷ 0 ∷ 15 ∷ 1 ∷ 0 ∷ 0 ∷ 0 ∷ 0 ∷ 0 ∷ 0 ∷ 3 ∷ 232 ∷ 0 ∷ 0
    ∷ 0 ∷ 5 ∷ 255 ∷ 255 ∷ 0 ∷ []

abbrev pub bare_hash : Bytes
bare_hash = 7 ∷ 0 ∷ 8 ∷ 0 ∷ []

abbrev pub bare_db : VendorDb store.State
bare_db = (put_signed_tx wire store bare_hash saved_bare empty_db).1

pub put_bare : put_signed_tx wire store bare_hash saved_bare empty_db ≡ (ok tt, bare_db)
unfolding put_signed_tx put_uncached store_new Cache.get Cache.find Saved.serialize ToSign.serialize
    gob_encode zone_bits
put_bare = refl

get_signed_tx-put_signed_tx_example :
    Inv wire store bare_db
    × ((j : Bytes)
        → get_signed_tx wire store j bare_db ≡ (
            if bytes_eq bare_hash j && is_absent (store.get [] (tx_key bare_hash))
            then ok saved_bare
            else get_signed_tx wire store j empty_db))
get_signed_tx-put_signed_tx_example =
    get_signed_tx-put_signed_tx wire store store-IsLevelDb bare_hash saved_bare empty_db bare_db
      empty_db-Inv saved_bare-IsSaved refl put_bare

pub bare_db-Inv : Inv wire store bare_db
bare_db-Inv =
    (get_signed_tx-put_signed_tx wire store store-IsLevelDb bare_hash saved_bare empty_db bare_db
      empty_db-Inv saved_bare-IsSaved refl put_bare).0

empty_db-IsCounted : IsCounted wire store empty_db
unfolding new_vendor_db get_total_tx_num
empty_db-IsCounted = refl

get_total_tx_num-put_signed_tx_example :
    IsCounted wire store bare_db
    × (get_total_tx_num wire store bare_db
        ≡ ok (if is_absent (store.get [] (tx_key bare_hash)) then 0 + 1 else 0))
get_total_tx_num-put_signed_tx_example =
    get_total_tx_num-put_signed_tx wire store store-IsLevelDb bare_hash saved_bare empty_db bare_db
      empty_db-Inv empty_db-IsCounted (omega arith) put_bare

abbrev pub done_db : VendorDb store.State
done_db = (set_tx_done wire store bare_hash bare_db).1

pub done_bare : set_tx_done wire store bare_hash bare_db ≡ (ok tt, done_db)
unfolding set_tx_done read_stored put_signed_tx put_uncached store_new Cache.get Cache.find
    Cache.put Saved.serialize Saved.write_bool ToSign.serialize ToSign.write_amts gob_encode
    zone_bits be Saved.deserialize ToSign.deserialize ToSign.read_amts read_be read_full read_some
    from_be gob_decode zone_of_bits bytes_eq
done_bare = refl

get_signed_tx-set_tx_done_example :
    (item : SavedItem) × (get_signed_tx wire store bare_hash bare_db ≡ ok item)
    × Inv wire store done_db
    × ((j : Bytes)
        → get_signed_tx wire store j done_db ≡ (
            if bytes_eq bare_hash j
            then ok (set_done item)
            else get_signed_tx wire store j bare_db))
get_signed_tx-set_tx_done_example =
    get_signed_tx-set_tx_done wire store store-IsLevelDb bare_hash bare_db done_db bare_db-Inv
      done_bare

deserialize-inverts_example :
    (raw rest : Bytes) × (stored_two ≡ layout raw item_two.amts ++ rest)
    × (wire.btc_decode raw ≡ ok item_two.mtx)
    × (length raw < 2 ^ 32)
    × (length item_two.amts < 2 ^ 32)
deserialize-inverts_example =
    deserialize-inverts wire stored_two item_two stored_two-bytes deserialize_two
