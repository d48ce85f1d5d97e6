-- ===== src/Db/Reliable.antt =====
-- db/db.go: PutSignedTx and SetTxDone over a database that works.
use btc_vendor_tools.Base.{
  ◌≡◌, refl, sym, ap, ◌∙◌, ◌⊎◌, inl, inr, true, ◌&&◌, Bool-cases, Option-cases, bytes_eq,
  bytes_eq_refl, if◌then◌else◌, IsErr, IsErr-inverts, ok,
}
use btc_vendor_tools.Std.Binary.{Bytes, be}
use btc_vendor_tools.Wire.{Wire}
use btc_vendor_tools.LevelDb.{LevelDb, IsLevelDb, IsReliable}
use btc_vendor_tools.Utils.Saved
use btc_vendor_tools.Utils.Saved.{SavedItem}
use btc_vendor_tools.Utils.Saved.RoundTrip.{IsSaved, saved_round_trip}
use btc_vendor_tools.Db.Cache
use btc_vendor_tools.Db.Cache.{hash_of}
use btc_vendor_tools.Db.{
  VendorDb, tx_key, totalnum_prefix, store_new, put_uncached, put_signed_tx, read_stored,
  get_signed_tx, or_nil, set_tx_done,
}
use btc_vendor_tools.Db.View.{Inv, get_signed_tx-eq-read_stored}
use btc_vendor_tools.Db.Put.{is_absent, get_signed_tx-put_signed_tx}
use btc_vendor_tools.Db.Done.{get_signed_tx-set_tx_done}
use btc_vendor_tools.Db.Cache.Lookup.{set_done}
use btc_vendor_tools.Db.Keeps.{Inv-mark_unknown}

module _ (w : Wire) (L : LevelDb) where
  -- GetSignedTx returns an item.
  abbrev pub IsFound : Bytes → VendorDb L.State → Type 0
  IsFound h v = (it : SavedItem) × (get_signed_tx w L h v ≡ ok it)

module _ (w : Wire) (L : LevelDb) (reliable : IsReliable L) (h : Bytes) (v : VendorDb L.State) where
  store_new-ok :
      (val : Bytes) (item : SavedItem)
      → (v' : VendorDb L.State) × (store_new w L h val item v ≡ (ok tt, v'))
  unfolding store_new
  store_new-ok val item =
      let d = L.put v.db (tx_key h) val in
      let cache = Cache.put item v.tx_cache in
      let d' = L.put d.1 totalnum_prefix (be 8 cache.total_cache) in
      (
        record { db = d'.1; tx_cache = cache },
        rw
            (
              reliable.writes v.db (tx_key h) val,
              reliable.writes d.1 totalnum_prefix (be 8 cache.total_cache),
            )
            refl,
      )

  -- PutSignedTx returns nil for an item that fits the stored form.
  pub put_signed_tx-ok :
      (item : SavedItem)
      → IsSaved w item
      → (v' : VendorDb L.State) × (put_signed_tx w L h item v ≡ (ok tt, v'))
  unfolding put_signed_tx put_uncached
  put_signed_tx-ok item saved = elim (Option-cases (Cache.get w h v.tx_cache)) [
    | inr (it, hit) ↦ (v, rw (hit, put_signed_tx) refl)
    | inl miss ↦ elim (reliable.answers v.db (tx_key h)) [
      | inl (bs, found) ↦ (v, rw (miss, put_signed_tx) (rw (found, put_uncached) refl))
      | inr absent ↦
          let (bs, enc, dec) = saved_round_trip w item saved in
          let (v', stored) = store_new-ok bs item in
          (v', rw (miss, put_signed_tx) (rw (absent, put_uncached) (rw enc stored)))
    ]
  ]

  -- Under the invariant a read of the database does not panic.
  read_stored-answers :
      Inv w L v
      → ((it : SavedItem) × (read_stored w L h v.db ≡ ok it)) ⊎ IsErr (read_stored w L h v.db)
  unfolding read_stored
  read_stored-answers inv = elim (reliable.answers v.db (tx_key h)) [
    | inl (bs, found) ↦ let (it, dec, _, _) = inv.stored.at h bs found in inl (it, rw found dec)
    | inr absent ↦ inr (rw absent tt)
  ]

  set_tx_done-returns :
      (it : SavedItem)
      → read_stored w L h v.db ≡ ok it
      → set_tx_done w L h v ≡ (ok tt, (set_tx_done w L h v).1)
  unfolding set_tx_done
  set_tx_done-returns it found =
      let raw = or_nil w L (Saved.serialize w (record it { done = true })) in
      rw (found, set_tx_done) (rw (reliable.writes v.db (tx_key h) raw) refl)

  -- SetTxDone keeps the invariant, also for a hash that is not there.
  pub Inv-set_tx_done : IsLevelDb L → Inv w L v → Inv w L (set_tx_done w L h v).1
  Inv-set_tx_done lawful inv = elim (read_stored-answers inv) [
    | inr bad ↦ Inv-mark_unknown w L v inv h bad
    | inl (it, found) ↦
        (get_signed_tx-set_tx_done w L lawful h v (set_tx_done w L h v).1 inv
          (set_tx_done-returns it found)).2
  ]

  unknown-db : IsErr (read_stored w L h v.db) → (set_tx_done w L h v).1.db ≡ v.db
  unfolding set_tx_done
  unknown-db bad =
      let (e, unknown) = IsErr-inverts (read_stored w L h v.db) bad in
      rw (unknown, set_tx_done) refl

  -- What was found is found after SetTxDone.
  pub IsFound-set_tx_done :
      IsLevelDb L
      → Inv w L v
      → (j : Bytes) → IsFound w L j v
      → IsFound w L j (set_tx_done w L h v).1
  IsFound-set_tx_done lawful inv j (it, got) = elim (read_stored-answers inv) [
    | inr bad ↦
        let v' = (set_tx_done w L h v).1 in
        (
          it,
          get_signed_tx-eq-read_stored w L v' j (Inv-mark_unknown w L v inv h bad)
              ∙ ap (read_stored w L j) (unknown-db bad)
              ∙ sym (get_signed_tx-eq-read_stored w L v j inv)
              ∙ got,
        )
    | inl (it', found) ↦
        let (item, _, _, view) =
          get_signed_tx-set_tx_done w L lawful h v (set_tx_done w L h v).1 inv
            (set_tx_done-returns it' found) in
        elim (Bool-cases (bytes_eq h j)) [
          | inl same ↦ (set_done item, view j ∙ rw same refl)
          | inr other ↦ (it, view j ∙ rw other got)
        ]
  ]

  module _ (lawful : IsLevelDb L) (inv : Inv w L v) (item : SavedItem) (saved : IsSaved w item)
      (hash : hash_of w item ≡ h) (v' : VendorDb L.State)
      (put : put_signed_tx w L h item v ≡ (ok tt, v')) where
    pub Inv-put : Inv w L v'
    Inv-put = (get_signed_tx-put_signed_tx w L lawful h item v v' inv saved hash put).0

    view :
        (j : Bytes)
        → get_signed_tx w L j v' ≡ (
            if bytes_eq h j && is_absent (L.get v.db (tx_key h))
            then ok item
            else get_signed_tx w L j v)
    view = (get_signed_tx-put_signed_tx w L lawful h item v v' inv saved hash put).1

    -- What was found is found afterwards.
    pub IsFound-kept : (j : Bytes) → IsFound w L j v → IsFound w L j v'
    IsFound-kept j (it, found) =
        elim (Bool-cases (bytes_eq h j && is_absent (L.get v.db (tx_key h)))) [
          | inl new ↦ (item, view j ∙ rw new refl)
          | inr old ↦ (it, view j ∙ rw old found)
        ]

    -- The hash of the item is found.
    pub IsFound-put : IsFound w L h v'
    IsFound-put = elim (reliable.answers v.db (tx_key h)) [
      | inr absent ↦ (item, view h ∙ rw (bytes_eq_refl h, absent) refl)
      | inl (bs, there) ↦
          let (it, dec, _, _) = inv.stored.at h bs there in
          let read : read_stored w L h v.db ≡ ok it = unfold read_stored in rw there dec in
          IsFound-kept h (it, get_signed_tx-eq-read_stored w L v h inv ∙ read)
    ]
