-- ===== src/Db/Keeps.antt =====
-- db/db.go: ReadFirstBatch, and SetTxDone of an unknown hash, keep the invariant of a VendorDB.
use mathlib.Core.List.{reverse-reverse}
use btc_vendor_tools.Base.{
  ℕ, ◌+◌, ◌-◌, ◌≤◌, ◌≡◌, refl, sym, ◌∙◌, ap, ◌||◌, Bool-cases, Option-cases, inl, inr, Option, some,
  none, ◌⊎◌, List, [], ◌∷◌, ◌++◌, reverse, arith, ltb, ◌==◌, length, length-append, length-take,
  length-reverse, take, drop, All, All-take, All-drop, bytes_eq, eq_of_bytes_eq, Result, ok,
  >>=-eq-ok, IsErr, IsErr-inverts, Result-cases,
}
use btc_vendor_tools.Std.Binary.{Bytes}
use btc_vendor_tools.Wire.{Wire}
use btc_vendor_tools.LevelDb.{LevelDb, IsIterable}
use btc_vendor_tools.Utils.Saved
use btc_vendor_tools.Utils.Saved.{SavedItem, less}
use btc_vendor_tools.Db.Cache
use btc_vendor_tools.Db.Cache.{hash_of, find, fill, put_to_front, mark_first}
use btc_vendor_tools.Db.Cache.Recency.{get_all-fill}
use btc_vendor_tools.Db.Batch.{deserialize_all, newest_first}
use btc_vendor_tools.Db.Batch.Sorting.{All-insert_newest}
use btc_vendor_tools.Db.{
  VendorDb, cache_size, tx_prefix, tx_key, read_stored, set_tx_done, read_first_batch,
}
use btc_vendor_tools.Db.View.{Inv}

-- An entry that Get finds in two lists, one behind the other, stands in one of them.
find-append_cases :
    (w : Wire) (h : Bytes) (xs ys : List SavedItem) (it : SavedItem)
    → find w h (xs ++ ys) ≡ some it
    → (find w h xs ≡ some it) ⊎ (find w h ys ≡ some it)
unfolding find
find-append_cases w h [] ys it e = inr e
find-append_cases w h (x ∷ xs) ys it e = elim (Bool-cases (bytes_eq (hash_of w x) h)) [
  | inl same ↦ inl (rw same (rw same at e))
  | inr other ↦ rw other (find-append_cases w h xs ys it (rw other at e))
]

-- What holds of every entry under its own hash holds of the one that is found.
find-All :
    (w : Wire) (P : Bytes → SavedItem → Type 0) (h : Bytes) (xs : List SavedItem) (it : SavedItem)
    → All (λ x. P (hash_of w x) x) xs
    → find w h xs ≡ some it
    → P h it
unfolding find
find-All w P h [] it a e = cc e
find-All w P h (x ∷ xs) it a e = elim (Bool-cases (bytes_eq (hash_of w x) h)) [
  | inl same ↦
      let hit : ◌≡◌ {A = Option SavedItem} (some x) (some it) = rw same at e in
      let value : x ≡ it = cc hit in
      let hash : hash_of w x ≡ h = eq_of_bytes_eq (hash_of w x) h same in rw (← value, ← hash) a.0
  | inr other ↦ find-All w P h xs it a.1 (rw other at e)
]

All-newest_first :
    (P : SavedItem → Type 0) (xs : List SavedItem) → All P xs → All P (newest_first xs)
unfolding newest_first
All-newest_first P [] a = tt
All-newest_first P (x ∷ xs) a =
    All-insert_newest P x (newest_first xs) a.0 (All-newest_first P xs a.1)

size-fill :
    (bound i : ℕ) (arr : List SavedItem) (c : Cache.VendorCache)
    → (fill bound i arr c).size ≡ c.size
unfolding fill put_to_front
size-fill bound i [] c = refl
size-fill bound i (x ∷ arr) c = elim (Bool-cases (ltb i bound)) [
  | inl more ↦ rw more (size-fill bound (i + 1) arr (put_to_front x c))
  | inr stop ↦ rw stop
]

mark_first_absent :
    (w : Wire) (h : Bytes) (xs : List SavedItem) → find w h xs ≡ none → mark_first w h xs ≡ xs
unfolding find mark_first
mark_first_absent w h [] e = refl
mark_first_absent w h (x ∷ xs) e = elim (Bool-cases (bytes_eq (hash_of w x) h)) [
  | inl same ↦ cc (rw same at e)
  | inr other ↦ rw other (ap (◌∷◌ x) (mark_first_absent w h xs (rw other at e)))
]

module _ (w : Wire) (L : LevelDb) (v : VendorDb L.State) (inv : Inv w L v) where
  mark_done_absent :
      (h : Bytes) → Cache.get w h v.tx_cache ≡ none → Cache.mark_done w h v.tx_cache ≡ v.tx_cache
  unfolding Cache.get Cache.mark_done
  mark_done_absent h miss =
      ap (λ (l : List SavedItem). record v.tx_cache { l = l })
        (ap reverse (mark_first_absent w h (reverse v.tx_cache.l) miss)
          ∙ reverse-reverse v.tx_cache.l)

  -- SetTxDone of a hash that the database does not know leaves the cache alone.
  pub Inv-mark_unknown :
      (h : Bytes) → IsErr (read_stored w L h v.db) → Inv w L (set_tx_done w L h v).1
  unfolding set_tx_done
  Inv-mark_unknown h bad =
      let (e, unknown) = IsErr-inverts (read_stored w L h v.db) bad in
      elim (Option-cases (Cache.get w h v.tx_cache)) [
        | inl miss ↦ rw (unknown, set_tx_done) (rw (mark_done_absent h miss) inv)
        | inr (it, hit) ↦ cc (inv.cached h it hit, unknown)
      ]

  abbrev Stored : SavedItem → Type 0
  Stored it = read_stored w L (hash_of w it) v.db ≡ ok it

  Stored-value :
      (rest val : Bytes) (it : SavedItem)
      → L.get v.db (tx_key rest) ≡ ok val
      → Saved.deserialize w val ≡ ok it
      → Stored it
  unfolding read_stored
  Stored-value rest val it got dec =
      let (it', dec', hash, saved) = inv.stored.at rest val got in
      let same : ◌≡◌ {A = Result SavedItem} (ok it') (ok it) = sym dec' ∙ dec in
      let value : it' ≡ it = cc same in
      let key : hash_of w it ≡ rest = ap (hash_of w) (sym value) ∙ hash in rw (key, got) dec

  deserialize_all-Stored :
      (values : List Bytes) (items : List SavedItem)
      → All (λ val. (rest : Bytes) × (L.get v.db (tx_prefix ++ rest) ≡ ok val)) values
      → deserialize_all w values ≡ ok items
      → All Stored items
  unfolding deserialize_all
  deserialize_all-Stored [] [] a e = tt
  deserialize_all-Stored [] (x ∷ items) a e = cc e
  deserialize_all-Stored (val ∷ values) items a e =
      let (it, dec, e') = >>=-eq-ok (Saved.deserialize w val) _ e in
      let (its, more, e'') = >>=-eq-ok (deserialize_all w values) _ e' in
      let whole : (it ∷ its) ≡ items = ground arith in
      let both : All Stored (it ∷ its) =
        (Stored-value a.0.0 val it a.0.1 dec, deserialize_all-Stored values its a.1 more) in
      rw (← whole) both

  abbrev n : ℕ
  n = length v.tx_cache.l

  filled : List SavedItem → Cache.VendorCache
  filled arr = fill cache_size n (drop n arr) v.tx_cache

  get_all-filled :
      (arr : List SavedItem)
      → Cache.get_all (filled arr) ≡ Cache.get_all v.tx_cache ++ take (cache_size - n) (drop n arr)
  unfolding filled
  get_all-filled arr =
      get_all-fill cache_size n (cache_size - n) (drop n arr) v.tx_cache
        (omega (arith, inv.bounded))

  length-filled : (arr : List SavedItem) → length (filled arr).l ≤ cache_size
  unfolding Cache.get_all
  length-filled arr =
      let kept = take (cache_size - n) (drop n arr) in
      let whole : reverse (filled arr).l ≡ reverse v.tx_cache.l ++ kept = get_all-filled arr in
      omega (
        arith,
        inv.bounded,
        length-reverse (filled arr).l,
        ap length whole,
        length-append (reverse v.tx_cache.l) kept,
        length-reverse v.tx_cache.l,
        length-take (cache_size - n) (drop n arr),
      )

  cached-filled :
      (arr : List SavedItem)
      → All Stored arr
      → (h : Bytes) (it : SavedItem) → Cache.get w h (filled arr) ≡ some it
      → read_stored w L h v.db ≡ ok it
  unfolding Cache.get Cache.get_all
  cached-filled arr a h it e =
      let kept = take (cache_size - n) (drop n arr) in
      let whole : find w h (reverse v.tx_cache.l ++ kept) ≡ some it =
        rw (get_all-filled arr) at e in
      elim (find-append_cases w h (reverse v.tx_cache.l) kept it whole) [
        | inl old ↦ inv.cached h it old
        | inr new ↦
            find-All w (λ j x. read_stored w L j v.db ≡ ok x) h kept it
              (All-take Stored (cache_size - n) (drop n arr) (All-drop Stored n arr a)) new
      ]

  Inv-filled :
      (items : List SavedItem)
      → All Stored items
      → Inv w L (record v { tx_cache = filled (newest_first items) })
  Inv-filled items a = record {
    size = unfold filled in size-fill cache_size n _ v.tx_cache ∙ inv.size;
    bounded = length-filled (newest_first items);
    cached = cached-filled (newest_first items) (All-newest_first Stored items a);
    stored = inv.stored;
  }

  pub Inv-first_batch : IsIterable L → Inv w L (read_first_batch w L v).1
  unfolding read_first_batch filled
  Inv-first_batch scans = elim (Bool-cases (n == cache_size || n == v.tx_cache.total_cache)) [
    | inl whole ↦ rw whole inv
    | inr partial ↦ elim (Result-cases (deserialize_all w (L.scan v.db tx_prefix).0)) [
      | inr (inl (e, bad)) ↦ rw (partial, bad, read_first_batch) inv
      | inr (inr bad) ↦ rw (partial, bad, read_first_batch) inv
      | inl (items, read) ↦ elim (Bool-cases (L.scan v.db tx_prefix).1) [
        | inr broken ↦ rw (partial, read, broken, read_first_batch) inv
        | inl intact ↦
            rw (partial, read, intact, read_first_batch)
              (Inv-filled items
                (deserialize_all-Stored _ items (scans.scan-get v.db tx_prefix) read))
      ]
    ]
  ]
