-- ===== src/Db/View.antt =====
-- db/db.go: the invariant of a VendorDB, and what GetSignedTx returns under it.
use btc_vendor_tools.Base.{
  ◌≤◌, ◌≡◌, refl, Bool, true, false, Option-cases, inl, inr, some, length, ok, sym,
}
use btc_vendor_tools.Std.Binary.{Bytes}
use btc_vendor_tools.Wire.{Wire}
use btc_vendor_tools.LevelDb.{LevelDb}
use btc_vendor_tools.Utils.Saved
use btc_vendor_tools.Utils.Saved.{SavedItem}
use btc_vendor_tools.Utils.Saved.RoundTrip.{IsSaved}
use btc_vendor_tools.Db.Cache
use btc_vendor_tools.Db.Cache.{hash_of}
use btc_vendor_tools.Db.{VendorDb, cache_size, tx_key, read_stored, get_signed_tx}

module _ (w : Wire) (L : LevelDb) where
  -- What is stored under a hash is an item with that hash, in its stored form.
  pub record IsStored (d : L.State) : Type 0 where
    pub at :
        (tx_hash bs : Bytes)
        → L.get d (tx_key tx_hash) ≡ ok bs
        → (it : SavedItem) × (Saved.deserialize w bs ≡ ok it)
          × (hash_of w it ≡ tx_hash)
          × IsSaved w it

  -- The cache holds at most its size, and nothing that the database does not hold.
  pub record Inv (v : VendorDb L.State) : Type 0 where
    pub size : v.tx_cache.size ≡ cache_size
    pub bounded : length v.tx_cache.l ≤ cache_size
    pub cached :
        (tx_hash : Bytes) (it : SavedItem)
        → Cache.get w tx_hash v.tx_cache ≡ some it
        → read_stored w L tx_hash v.db ≡ ok it
    pub stored : IsStored v.db

  -- Where cache and database keep the invariant, the cache is transparent: GetSignedTx returns
  -- what a read of the database alone returns.
  pub get_signed_tx-eq-read_stored :
      (v : VendorDb L.State) (tx_hash : Bytes)
      → Inv v
      → get_signed_tx w L tx_hash v ≡ read_stored w L tx_hash v.db
  unfolding get_signed_tx
  get_signed_tx-eq-read_stored v tx_hash inv =
      elim (Option-cases (Cache.get w tx_hash v.tx_cache)) [
        | inl miss ↦ rw (miss, get_signed_tx)
        | inr (it, hit) ↦ rw (hit, get_signed_tx) (sym (inv.cached tx_hash it hit))
      ]

pub pair_true {ℓ} : {A : Type ℓ} (p : Bool × A) → p.0 ≡ true → p ≡ (true, p.1)
pair_true (true, a) h = refl
pair_true (false, a) h = cc
