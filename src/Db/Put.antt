-- ===== src/Db/Put.antt =====
-- db/db.go: PutSignedTx stores an item under a hash that is new, and otherwise changes nothing.
use btc_vendor_tools.Base.{
  ◌⊎◌, ◌<◌, ◌≤◌, ◌≡◌, refl, Bool, true, false, ◌&&◌, Option-cases, Bool-cases, inl, inr, Option,
  some, arith, length, bytes_eq, eq_of_bytes_eq, if◌then◌else◌, Result, ok, err, ◌∙◌, ap, sym,
  storage,
}
use btc_vendor_tools.Std.Binary.{Bytes, be}
use btc_vendor_tools.Wire.{Wire}
use btc_vendor_tools.LevelDb.{LevelDb, IsLevelDb}
use btc_vendor_tools.Utils.Saved
use btc_vendor_tools.Utils.Saved.{SavedItem}
use btc_vendor_tools.Utils.Saved.RoundTrip.{IsSaved, saved_round_trip}
use btc_vendor_tools.Db.Cache
use btc_vendor_tools.Db.Cache.{hash_of}
use btc_vendor_tools.Db.Cache.Lookup.{get-put}
use btc_vendor_tools.Db.Cache.Recency.{length-put, size-put}
use btc_vendor_tools.Db.{
  VendorDb, tx_key, totalnum_prefix, is_not_found, store_new, put_uncached, put_signed_tx,
  read_stored, get_signed_tx,
}
use btc_vendor_tools.Db.View.{IsStored, Inv, get_signed_tx-eq-read_stored, pair_true}

-- The key of the total is no key of a transaction, and two keys are equal if the hashes are.
pub total-ne-tx_key : (j : Bytes) → bytes_eq totalnum_prefix (tx_key j) ≡ false
unfolding bytes_eq
total-ne-tx_key j = refl

pub tx_key_eq : (h j : Bytes) → bytes_eq (tx_key h) (tx_key j) ≡ bytes_eq h j
unfolding bytes_eq
tx_key_eq h j = refl

both_written {ℓ} :
    {A : Type ℓ} (b c : Bool) (x y : A) {z : A}
    → ◌≡◌ {A = Result (Unit {0}) × A}
        (if b then ((if c then ok tt else err storage), x) else (err storage, y))
        (ok tt, z)
    → (b ≡ true) × (c ≡ true) × (z ≡ x)
both_written true true x y e = (refl, refl, ap (λ p. p.1) (sym e))
both_written true false x y e = cc (ap (λ p. p.0) e)
both_written false c x y e = cc (ap (λ p. p.0) e)

module _ (w : Wire) (L : LevelDb) (lawful : IsLevelDb L) (h val : Bytes) (item : SavedItem)
    (v : VendorDb L.State) where
  abbrev d₁ : Bool × L.State
  d₁ = L.put v.db (tx_key h) val

  abbrev cache' : Cache.VendorCache
  cache' = Cache.put item v.tx_cache

  abbrev d₂ : Bool × L.State
  d₂ = L.put d₁.1 totalnum_prefix (be 8 cache'.total_cache)

  -- The two writes of a call that succeeds.
  pub store_new-ok :
      {v' : VendorDb L.State}
      → store_new w L h val item v ≡ (ok tt, v')
      → (d₁.0 ≡ true) × (d₂.0 ≡ true) × (v' ≡ record { db = d₂.1; tx_cache = cache' })
  unfolding store_new
  store_new-ok e = both_written d₁.0 d₂.0 _ _ e

  get-stored :
      (j : Bytes)
      → d₁.0 ≡ true
      → d₂.0 ≡ true
      → L.get d₂.1 (tx_key j) ≡ (if bytes_eq h j then ok val else L.get v.db (tx_key j))
  get-stored j e₁ e₂ =
      lawful.get-put d₁.1 d₂.1 totalnum_prefix (be 8 cache'.total_cache) (tx_key j)
        (pair_true d₂ e₂)
      ∙ rw (total-ne-tx_key j) (
          lawful.get-put v.db d₁.1 (tx_key h) val (tx_key j) (pair_true d₁ e₁) ∙ rw (tx_key_eq h j))

  -- The state after the two writes.
  abbrev v₁ : VendorDb L.State
  v₁ = record { db = d₂.1; tx_cache = cache' }

  module _ (inv : Inv w L v) (saved : IsSaved w item) (hash : hash_of w item ≡ h)
      (round : Saved.deserialize w val ≡ ok item) (e₁ : d₁.0 ≡ true) (e₂ : d₂.0 ≡ true) where
    pub read_stored-after :
        (j : Bytes)
        → read_stored w L j d₂.1 ≡ (if bytes_eq h j then ok item else read_stored w L j v.db)
    unfolding read_stored
    read_stored-after j =
        rw (get-stored j e₁ e₂)
          (elim (Bool-cases (bytes_eq h j)) [ inl same ↦ rw same round | inr other ↦ rw other ])

    IsStored-after : IsStored w L d₂.1
    IsStored-after = record {
      at = λ j bs e.
          let found : (if bytes_eq h j then ok val else L.get v.db (tx_key j)) ≡ ok bs =
            sym (get-stored j e₁ e₂) ∙ e in
          elim (Bool-cases (bytes_eq h j)) [
            | inl same ↦
                let here : ◌≡◌ {A = Result Bytes} (ok val) (ok bs) = rw same at found in
                let value : val ≡ bs = cc here in
                (item, rw (← value) round, hash ∙ eq_of_bytes_eq h j same, saved)
            | inr other ↦ inv.stored.at j bs (rw other at found)
          ];
    }

    cached-after :
        (j : Bytes) (it : SavedItem)
        → Cache.get w j cache' ≡ some it
        → read_stored w L j d₂.1 ≡ ok it
    cached-after j it e =
        let found : (if bytes_eq h j then some item else Cache.get w j v.tx_cache) ≡ some it =
          rw hash at (get-put w j item v.tx_cache it e) in
        read_stored-after j ∙ elim (Bool-cases (bytes_eq h j)) [
          | inl same ↦
              (let hit : ◌≡◌ {A = Option SavedItem} (some item) (some it) = rw same at found in
                let value : item ≡ it = cc hit in rw same (ap (λ t. ok t) value))
          | inr other ↦ rw other (inv.cached j it (rw other at found))
        ]

    pub Inv-after : Inv w L v₁
    Inv-after =
        let room : 0 < v.tx_cache.size = rw inv.size (omega arith) in
        let within : length v.tx_cache.l ≤ v.tx_cache.size = rw inv.size inv.bounded in
        record {
          size = size-put item v.tx_cache ∙ inv.size;
          bounded = omega (arith, length-put item v.tx_cache within room, inv.size);
          cached = cached-after;
          stored = IsStored-after;
        }

-- `leveldb.ErrNotFound`, of a read.
abbrev pub is_absent {ℓ} : {A : Type ℓ} → Result A → Bool
is_absent (err e) = is_not_found e
is_absent _ = false

module _ (w : Wire) (L : LevelDb) (h : Bytes) (v : VendorDb L.State) where
  cached-present :
      (it : SavedItem)
      → Inv w L v
      → Cache.get w h v.tx_cache ≡ some it
      → is_absent (L.get v.db (tx_key h)) ≡ false
  cached-present it inv hit =
      let there = inv.cached h it hit in unfold read_stored in ground (arith, there)

module _ (w : Wire) (L : LevelDb) (h : Bytes) (item : SavedItem) {v v' : VendorDb L.State} where
  put_uncached_cases :
      put_uncached w L h item v ≡ (ok tt, v')
      → ((v' ≡ v) × (is_absent (L.get v.db (tx_key h)) ≡ false))
        ⊎ ((is_absent (L.get v.db (tx_key h)) ≡ true)
            × ((val : Bytes) × (Saved.serialize w item ≡ ok val)
                × (store_new w L h val item v ≡ (ok tt, v'))))
  unfolding put_uncached
  put_uncached_cases e = ground arith

  pub put_signed_tx_cases :
      Inv w L v
      → put_signed_tx w L h item v ≡ (ok tt, v')
      → ((v' ≡ v) × (is_absent (L.get v.db (tx_key h)) ≡ false))
        ⊎ ((is_absent (L.get v.db (tx_key h)) ≡ true)
            × ((val : Bytes) × (Saved.serialize w item ≡ ok val)
                × (store_new w L h val item v ≡ (ok tt, v'))))
  unfolding put_signed_tx
  put_signed_tx_cases inv e = elim (Option-cases (Cache.get w h v.tx_cache)) [
    | inl miss ↦ put_uncached_cases (rw (miss, put_signed_tx) at e)
    | inr (it, hit) ↦
        let same : ◌≡◌ {A = Result (Unit {0}) × VendorDb L.State} (ok tt, v) (ok tt, v') =
          rw (hit, put_signed_tx) at e in
        inl (sym (ap (λ p. p.1) same), cached-present w L h v it inv hit)
  ]

-- Where cache and database keep the invariant, a call of PutSignedTx that returns nil, for an item
-- that fits the stored form and under the hash of its transaction, keeps the invariant. Afterwards
-- GetSignedTx returns the new item under its hash if the database answered that the hash was not
-- there, and under every other hash, or if it answered anything else, what it returned before.
pub get_signed_tx-put_signed_tx :
    (w : Wire) (L : LevelDb)
    → IsLevelDb L
    → (h : Bytes) (item : SavedItem) (v v' : VendorDb L.State) → Inv w L v
    → IsSaved w item
    → hash_of w item ≡ h
    → put_signed_tx w L h item v ≡ (ok tt, v')
    → Inv w L v'
      × ((j : Bytes)
          → get_signed_tx w L j v' ≡ (
              if bytes_eq h j && is_absent (L.get v.db (tx_key h))
              then ok item
              else get_signed_tx w L j v))
get_signed_tx-put_signed_tx w L lawful h item v v' inv saved hash e =
    elim (put_signed_tx_cases w L h item inv e) [
      | inl (same, present) ↦ (rw same inv, λ j. rw (same, present) (ground arith))
      | inr (absent, (val, ser, stored)) ↦
          let (bs, enc, dec) = saved_round_trip w item saved in
          let round : Saved.deserialize w val ≡ ok item =
            (let same : ◌≡◌ {A = Result Bytes} (ok bs) (ok val) = sym enc ∙ ser in
              let value : bs ≡ val = cc same in rw (← value) dec) in
          let (e₁, e₂, after) = store_new-ok w L lawful h val item v stored in
          let inv' = Inv-after w L lawful h val item v inv saved hash round e₁ e₂ in
          (
            rw after inv',
            λ j.
                rw (after, absent)
                  (get_signed_tx-eq-read_stored w L _ j inv'
                    ∙ read_stored-after w L lawful h val item v inv saved hash round e₁ e₂ j
                    ∙ elim (Bool-cases (bytes_eq h j)) [
                      | inl s ↦ rw s
                      | inr o ↦ rw o (sym (get_signed_tx-eq-read_stored w L v j inv))
                    ]),
          )
    ]
