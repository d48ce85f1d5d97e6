-- ===== src/Db/Total.antt =====
-- db/db.go: the number of transactions, in the cache and in the database.
use btc_vendor_tools.Base.{
  ℕ, ◌+◌, ◌^◌, ◌<◌, ◌≡◌, true, inl, inr, arith, bytes_eq_refl, if◌then◌else◌, take_all, ok, ◌∙◌, ap,
}
use btc_vendor_tools.Std.Binary.{Bytes, be, length-be, from_be-be}
use btc_vendor_tools.Wire.{Wire}
use btc_vendor_tools.LevelDb.{LevelDb, IsLevelDb}
use btc_vendor_tools.Utils.Saved.{SavedItem}
use btc_vendor_tools.Db.Cache
use btc_vendor_tools.Db.Cache.Recency.{total_cache-put}
use btc_vendor_tools.Db.{
  VendorDb, tx_key, totalnum_prefix, uint64, put_signed_tx, get_total_tx_num, new_vendor_db, fresh,
}
use btc_vendor_tools.Db.View.{Inv, pair_true}
use btc_vendor_tools.Db.Put.{is_absent, put_signed_tx_cases, store_new-ok}

uint64-be : (n : ℕ) → n < 2 ^ 64 → uint64 (be 8 n) ≡ ok n
unfolding uint64
uint64-be n h =
    let size = length-be 8 n in
    rw (size, take_all 8 (be 8 n) (omega arith)) (ap (λ (t : ℕ). ok t) (from_be-be 8 n h))

module _ (w : Wire) (L : LevelDb) where
  -- A database opened anew reads the total that the cache holds.
  abbrev pub IsCounted : VendorDb L.State → Type 0
  IsCounted v = new_vendor_db w L v.db ≡ ok (fresh w L v.db v.tx_cache.total_cache)

  reopen :
      (d : L.State) (n : ℕ)
      → n < 2 ^ 64
      → L.get d totalnum_prefix ≡ ok (be 8 n)
      → new_vendor_db w L d ≡ ok (fresh w L d n)
  unfolding new_vendor_db
  reopen d n small got = rw got (rw (uint64-be n small))

  -- The total that is reported is the cached one, or else the stored one.
  get_total-IsCounted :
      (v : VendorDb L.State) → IsCounted v → get_total_tx_num w L v ≡ ok v.tx_cache.total_cache
  unfolding new_vendor_db get_total_tx_num
  get_total-IsCounted v counted = ground arith

module _ (w : Wire) (L : LevelDb) (lawful : IsLevelDb L) (d d' : L.State) (n : ℕ) where
  written_total :
      n < 2 ^ 64
      → L.put d totalnum_prefix (be 8 n) ≡ (true, d')
      → new_vendor_db w L d' ≡ ok (fresh w L d' n)
  written_total small e = reopen w L d' n small (
      lawful.get-put d d' totalnum_prefix (be 8 n) totalnum_prefix e
      ∙ rw (bytes_eq_refl totalnum_prefix))

-- Where cache and database keep the invariant, and the total does not overflow 64 bits, a call of
-- PutSignedTx that returns nil adds one to the total if the database answered that the hash was
-- not there, and nothing otherwise. If a database opened anew would have read the total, it still
-- does, and so does GetTotalTxNum.
pub get_total_tx_num-put_signed_tx :
    (w : Wire) (L : LevelDb)
    → IsLevelDb L
    → (h : Bytes) (item : SavedItem) (v v' : VendorDb L.State) → Inv w L v
    → IsCounted w L v
    → v.tx_cache.total_cache + 1 < 2 ^ 64
    → put_signed_tx w L h item v ≡ (ok tt, v')
    → IsCounted w L v'
      × (get_total_tx_num w L v'
          ≡ ok (
              if is_absent (L.get v.db (tx_key h))
              then v.tx_cache.total_cache + 1
              else v.tx_cache.total_cache))
get_total_tx_num-put_signed_tx w L lawful h item v v' inv counted small e =
    elim (put_signed_tx_cases w L h item inv e) [
      | inl (same, present) ↦
          (rw same counted, rw (same, present) (get_total-IsCounted w L v counted))
      | inr (absent, (val, ser, stored)) ↦
          let (e₁, e₂, after) = store_new-ok w L lawful h val item v stored in
          let count : (Cache.put item v.tx_cache).total_cache ≡ v.tx_cache.total_cache + 1 =
            total_cache-put item v.tx_cache ∙ omega arith in
          let again = written_total w L lawful _ _ _ (omega (arith, count)) (pair_true _ e₂) in
          let counted' : IsCounted w L v' = rw after again in
          let total : v'.tx_cache.total_cache ≡ v.tx_cache.total_cache + 1 = rw after count in
          (counted', rw absent (get_total-IsCounted w L v' counted' ∙ ap (λ (t : ℕ). ok t) total))
    ]
