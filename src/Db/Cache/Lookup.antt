-- ===== src/Db/Cache/Lookup.antt =====
-- db/db.go: what Get finds in a VendorCache after each of its operations.
use mathlib.Core.List.{reverse-append, reverse-cons, reverse-reverse}
use mathlib.Core.Option
use btc_vendor_tools.Base.{
  length-reverse, zero, suc, bytes_eq_iff, ℕ, ◌≤◌, ◌<◌, ◌≡◌, refl, ◌∙◌, true, Bool-cases, inl, inr,
  some, List, [], ◌∷◌, ◌++◌, reverse, arith, ltb, if◌then◌else◌, bytes_eq, bytes_eq_refl,
  eq_of_bytes_eq, length, drop, take,
}
use btc_vendor_tools.Std.Binary.{Bytes}
use btc_vendor_tools.Wire.{Wire}
use btc_vendor_tools.Utils.Saved.{SavedItem}
use btc_vendor_tools.Db.Cache.Recency.{get_all-put}
use btc_vendor_tools.Db.Cache.{VendorCache, put, hash_of, find, get, get_all, mark_first, mark_done}

module _ (w : Wire) (tx_hash : Bytes) where
  find-append :
      (xs ys : List SavedItem) (it : SavedItem)
      → find w tx_hash xs ≡ some it
      → find w tx_hash (xs ++ ys) ≡ some it
  unfolding find
  find-append [] ys it h = cc
  find-append (x ∷ xs) ys it h = ground (arith, find-append xs ys it)

  -- What is found has the hash.
  find-hash :
      (xs : List SavedItem) (it : SavedItem) → find w tx_hash xs ≡ some it → hash_of w it ≡ tx_hash
  unfolding find
  find-hash [] it h = cc
  find-hash (x ∷ xs) it h =
      ground (arith, find-hash xs it, eq_of_bytes_eq (w.tx_hash x.item.mtx) tx_hash)

  pub get-hash :
      (c : VendorCache) (it : SavedItem) → get w tx_hash c ≡ some it → hash_of w it ≡ tx_hash
  unfolding get
  get-hash c it h = find-hash (reverse c.l) it h

  evict :
      (x : SavedItem) (l : List SavedItem) (it : SavedItem)
      → find w tx_hash (reverse (drop 1 (l ++ x ∷ []))) ≡ some it
      → find w tx_hash (x ∷ reverse l) ≡ some it
  evict x [] it h = absurd (unfold find in cc h)
  evict x (a ∷ l) it h =
      rw (reverse-cons a l)
        (find-append (x ∷ reverse l) (a ∷ []) it (rw (reverse-append l (x ∷ [])) at h))

  -- After Put the new entry is found under its hash, and under any other only what was there.
  pub get-put :
      (x : SavedItem) (c : VendorCache) (it : SavedItem)
      → get w tx_hash (put x c) ≡ some it
      → (if bytes_eq (hash_of w x) tx_hash then some x else get w tx_hash c) ≡ some it
  unfolding get put find
  get-put x c it h = elim (Bool-cases (ltb c.size (length (c.l ++ x ∷ [])))) [
    | inl over ↦ evict x c.l it (rw over at h)
    | inr fits ↦
        let kept : find w tx_hash (reverse (c.l ++ x ∷ [])) ≡ some it = rw fits at h in
        rw (reverse-append c.l (x ∷ [])) at kept
  ]

  -- The entry that was just put there is found.
  pub get-put_self :
      (x : SavedItem) (c : VendorCache)
      → hash_of w x ≡ tx_hash
      → length c.l ≤ c.size
      → 0 < c.size
      → get w tx_hash (put x c) ≡ some x
  unfolding get
  get-put_self x c e bounded pos =
      let newest : reverse (put x c).l ≡ take c.size (x ∷ reverse c.l) = newest_first in
      rw newest (first c.size pos)
    where
      newest_first : reverse (put x c).l ≡ take c.size (x ∷ reverse c.l)
      newest_first = unfold get_all in get_all-put x c bounded pos

      first : (n : ℕ) → 0 < n → find w tx_hash (take n (x ∷ reverse c.l)) ≡ some x
      first zero h = absurd (omega arith)
      first (suc n) h = unfold find in rw e (rw (bytes_eq_refl tx_hash))

abbrev pub set_done : SavedItem → SavedItem
set_done v = record v { done = true }

module _ (w : Wire) (marked tx_hash : Bytes) where
  find-mark_first :
      (xs : List SavedItem)
      → find w tx_hash (mark_first w marked xs) ≡ (
          if bytes_eq marked tx_hash
          then Option.map set_done (find w tx_hash xs)
          else find w tx_hash xs)
  unfolding find mark_first
  find-mark_first [] = ground arith
  find-mark_first (x ∷ xs) = ground (
    arith,
    find-mark_first xs,
    bytes_eq_iff (w.tx_hash x.item.mtx) marked,
    bytes_eq_iff (w.tx_hash x.item.mtx) tx_hash,
    bytes_eq_iff marked tx_hash,
  )

  -- Marking one hash sets Done where that hash is looked up, and nothing else.
  pub get-mark_done :
      (c : VendorCache)
      → get w tx_hash (mark_done w marked c) ≡ (
          if bytes_eq marked tx_hash
          then Option.map set_done (get w tx_hash c)
          else get w tx_hash c)
  unfolding get mark_done
  get-mark_done c =
      rw (reverse-reverse (mark_first w marked (reverse c.l))) (find-mark_first (reverse c.l))

length-mark_first :
    (w : Wire) (h : Bytes) (xs : List SavedItem) → length (mark_first w h xs) ≡ length xs
unfolding mark_first
length-mark_first w h [] = refl
length-mark_first w h (x ∷ xs) = ground (arith, length-mark_first w h xs)

pub length-mark_done :
    (w : Wire) (h : Bytes) (c : VendorCache) → length (mark_done w h c).l ≡ length c.l
unfolding mark_done
length-mark_done w h c =
    length-reverse (mark_first w h (reverse c.l))
    ∙ length-mark_first w h (reverse c.l)
    ∙ length-reverse c.l

pub size-mark_done : (w : Wire) (h : Bytes) (c : VendorCache) → (mark_done w h c).size ≡ c.size
unfolding mark_done
size-mark_done w h c = refl
