-- ===== src/Db/Done.antt =====
-- db/db.go: SetTxDone marks the item of its hash as done, in the database and in the cache.
use mathlib.Core.Option
use mathlib.Core.Path.{subst}
use btc_vendor_tools.Base.{
  ◌≡◌, Bool, true, Option-cases, Bool-cases, inl, inr, Option, some, arith, bytes_eq,
  eq_of_bytes_eq, if◌then◌else◌, Result, ok, >>=-eq-ok, ◌∙◌, sym,
}
use btc_vendor_tools.Std.Binary.{Bytes}
use btc_vendor_tools.Wire.{Wire}
use btc_vendor_tools.LevelDb.{LevelDb, IsLevelDb}
use btc_vendor_tools.Utils.Saved
use btc_vendor_tools.Utils.Saved.{SavedItem}
use btc_vendor_tools.Utils.Saved.RoundTrip.{IsSaved, saved_round_trip}
use btc_vendor_tools.Db.Cache
use btc_vendor_tools.Db.Cache.{hash_of}
use btc_vendor_tools.Db.Cache.Lookup.{get-mark_done, length-mark_done, size-mark_done, set_done}
use btc_vendor_tools.Db.{VendorDb, tx_key, or_nil, read_stored, get_signed_tx, set_tx_done}
use btc_vendor_tools.Db.View.{IsStored, Inv, get_signed_tx-eq-read_stored, pair_true}
use btc_vendor_tools.Db.Put.{tx_key_eq}

module _ (w : Wire) (L : LevelDb) (h : Bytes) (d : L.State) (item : SavedItem) where
  -- What is read under a hash is an item with that hash that fits.
  pub read_stored-IsSaved :
      IsStored w L d → read_stored w L h d ≡ ok item → (hash_of w item ≡ h) × IsSaved w item
  unfolding read_stored
  read_stored-IsSaved stored e =
      let (bs, got, dec) = >>=-eq-ok (L.get d (tx_key h)) _ e in
      let (it, dec', hash, saved) = stored.at h bs got in
      let same : ◌≡◌ {A = Result SavedItem} (ok it) (ok item) = sym dec' ∙ dec in
      let value : it ≡ item = cc same in (rw (← value) hash, rw (← value) saved)

module _ (w : Wire) (L : LevelDb) (h : Bytes) (v : VendorDb L.State) (item : SavedItem) where
  abbrev raw : Bytes
  raw = or_nil w L (Saved.serialize w (set_done item))

  abbrev written : Bool × L.State
  written = L.put v.db (tx_key h) raw

module _ (w : Wire) (L : LevelDb) (lawful : IsLevelDb L) (h : Bytes) (v : VendorDb L.State)
    (item : SavedItem) (inv : Inv w L v) (got : read_stored w L h v.db ≡ ok item) where
  abbrev raw' : Bytes
  raw' = raw w L h v item

  abbrev written' : Bool × L.State
  written' = written w L h v item

  done_saved : (hash_of w item ≡ h) × IsSaved w (set_done item)
  done_saved =
      let (hash, saved) = read_stored-IsSaved w L h v.db item inv.stored got in
      (hash, record { item = saved.item; time = saved.time })

  raw-round : Saved.deserialize w raw' ≡ ok (set_done item)
  raw-round = let (bs, enc, dec) = saved_round_trip w (set_done item) done_saved.1 in rw enc dec

  module _ (e : written'.0 ≡ true) where
    get-written :
        (j : Bytes)
        → L.get written'.1 (tx_key j) ≡ (if bytes_eq h j then ok raw' else L.get v.db (tx_key j))
    get-written j =
        lawful.get-put v.db written'.1 (tx_key h) raw' (tx_key j) (pair_true written' e)
        ∙ rw (tx_key_eq h j)

    read_stored-written :
        (j : Bytes)
        → read_stored w L j written'.1
          ≡ (if bytes_eq h j then ok (set_done item) else read_stored w L j v.db)
    unfolding read_stored
    read_stored-written j =
        rw (get-written j)
          (elim (Bool-cases (bytes_eq h j)) [ inl same ↦ rw same raw-round | inr other ↦ rw other ])

    IsStored-written : IsStored w L written'.1
    IsStored-written = record {
      at = λ j bs e'.
          let found : (if bytes_eq h j then ok raw' else L.get v.db (tx_key j)) ≡ ok bs =
            sym (get-written j) ∙ e' in
          elim (Bool-cases (bytes_eq h j)) [
            | inl same ↦
                let here : ◌≡◌ {A = Result Bytes} (ok raw') (ok bs) = rw same at found in
                let value : raw' ≡ bs = cc here in
                let (hash, saved) = done_saved in
                (
                  set_done item,
                  subst (λ t. Saved.deserialize w t ≡ ok (set_done item)) value raw-round,
                  hash ∙ eq_of_bytes_eq h j same,
                  saved,
                )
            | inr other ↦ inv.stored.at j bs (rw other at found)
          ];
    }

    -- A cached entry that is marked was the item that the database held.
    marked :
        (j : Bytes) (it : SavedItem)
        → h ≡ j
        → Option.map set_done (Cache.get w j v.tx_cache) ≡ some it
        → ◌≡◌ {A = Result SavedItem} (ok (set_done item)) (ok it)
    marked j it e' found = elim (Option-cases (Cache.get w j v.tx_cache)) [
      | inl miss ↦ cc (rw miss at found)
      | inr (it', hit) ↦
          let marks : ◌≡◌ {A = Option SavedItem} (some (set_done it')) (some it) =
            rw hit at found in
          let same : ◌≡◌ {A = Result SavedItem} (ok it') (ok item) =
            sym (inv.cached j it' hit) ∙ rw e' at got in
          cc (marks, same)
    ]

    cached-written :
        (j : Bytes) (it : SavedItem)
        → Cache.get w j (Cache.mark_done w h v.tx_cache) ≡ some it
        → read_stored w L j written'.1 ≡ ok it
    cached-written j it e' =
        let found = sym (get-mark_done w h j v.tx_cache) ∙ e' in
        read_stored-written j ∙ elim (Bool-cases (bytes_eq h j)) [
          | inl same ↦ rw same (marked j it (eq_of_bytes_eq h j same) (rw same at found))
          | inr other ↦ rw other (inv.cached j it (rw other at found))
        ]

    pub Inv-written :
        Inv w L (record { db = written'.1; tx_cache = Cache.mark_done w h v.tx_cache })
    Inv-written = record {
      size = size-mark_done w h v.tx_cache ∙ inv.size;
      bounded = rw (length-mark_done w h v.tx_cache) inv.bounded;
      cached = cached-written;
      stored = IsStored-written;
    }

module _ (w : Wire) (L : LevelDb) (h : Bytes) (v v' : VendorDb L.State) where
  set_tx_done-ok :
      set_tx_done w L h v ≡ (ok tt, v')
      → (item : SavedItem) × (read_stored w L h v.db ≡ ok item)
        × ((written w L h v item).0 ≡ true)
        × (v' ≡ record { db = (written w L h v item).1; tx_cache = Cache.mark_done w h v.tx_cache })
  unfolding set_tx_done
  set_tx_done-ok e = ground arith

-- Where cache and database keep the invariant, a call of SetTxDone that returns nil keeps it; the
-- hash had an item before, and afterwards GetSignedTx returns that item with Done set, and under
-- every other hash what it returned before.
pub get_signed_tx-set_tx_done :
    (w : Wire) (L : LevelDb)
    → IsLevelDb L
    → (h : Bytes) (v v' : VendorDb L.State) → Inv w L v
    → set_tx_done w L h v ≡ (ok tt, v')
    → (item : SavedItem) × (get_signed_tx w L h v ≡ ok item)
      × Inv w L v'
      × ((j : Bytes)
          → get_signed_tx w L j v'
            ≡ (if bytes_eq h j then ok (set_done item) else get_signed_tx w L j v))
get_signed_tx-set_tx_done w L lawful h v v' inv e =
    let (item, got, wrote, after) = set_tx_done-ok w L h v v' e in
    let inv' = Inv-written w L lawful h v item inv got wrote in
    (
      item,
      get_signed_tx-eq-read_stored w L v h inv ∙ got,
      rw after inv',
      λ j. rw after (
          get_signed_tx-eq-read_stored w L _ j inv'
          ∙ read_stored-written w L lawful h v item inv got wrote j
          ∙ rw (get_signed_tx-eq-read_stored w L v j inv)),
    )
