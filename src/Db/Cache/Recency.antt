-- ===== src/Db/Cache/Recency.antt =====
-- db/db.go: a VendorCache as the list of its newest entries, newest first.
use mathlib.Core.List.{reverse-append, reverse-cons}
use btc_vendor_tools.Base.{
  ◌%◌, ◌^◌, append-nil, append_assoc, ℕ, zero, suc, ◌+◌, ◌≤◌, ◌<◌, ◌≡◌, refl, ap, ◌∙◌, sym, true,
  false, Bool-cases, inl, inr, List, [], ◌∷◌, ◌++◌, reverse, arith, ltb, length, length-append,
  length-reverse, length-drop, drop, take, take_all, take-append,
}
use btc_vendor_tools.Utils.Saved.{SavedItem}
use btc_vendor_tools.Db.Cache.{VendorCache, put, put_to_front, get_all, fill}

evicted :
    (n : ℕ) (x : SavedItem) (l : List SavedItem)
    → n ≡ length l
    → 0 < n
    → reverse (drop 1 (l ++ x ∷ [])) ≡ take n (x ∷ reverse l)
evicted n x [] e h = absurd (omega arith)
evicted zero x (a ∷ l) e h = absurd (omega arith)
evicted (suc n) x (a ∷ l) e h = rw (reverse-append l (x ∷ [])) (
    ap (◌∷◌ x) (
      sym (
        ap (take n) (reverse-cons a l)
        ∙ take-append n (reverse l) (a ∷ []) (omega (arith, length-reverse l)))))

-- On a cache within its size, which is not 0, Put adds the newest entry, and keeps as many of the
-- newest as the size allows.
pub get_all-put :
    (x : SavedItem) (c : VendorCache)
    → length c.l ≤ c.size
    → 0 < c.size
    → get_all (put x c) ≡ take c.size (x ∷ get_all c)
unfolding get_all put
get_all-put x c bounded pos =
    let more = length-append c.l (x ∷ []) in
    elim (Bool-cases (ltb c.size (length (c.l ++ x ∷ [])))) [
      | inl over ↦ rw over (evicted c.size x c.l (ground arith) pos)
      | inr fits ↦ rw fits (
          reverse-append c.l (x ∷ [])
          ∙ sym (take_all c.size (x ∷ reverse c.l) (ground (arith, length-reverse c.l))))
    ]

-- Put keeps the cache within its size.
pub length-put :
    (x : SavedItem) (c : VendorCache)
    → length c.l ≤ c.size
    → 0 < c.size
    → length (put x c).l ≤ c.size
unfolding put
length-put x c bounded pos =
    ground (arith, length-append c.l (x ∷ []), length-drop 1 (c.l ++ x ∷ []))

pub size-put : (x : SavedItem) (c : VendorCache) → (put x c).size ≡ c.size
unfolding put
size-put x c = refl

pub total_cache-put :
    (x : SavedItem) (c : VendorCache) → (put x c).total_cache ≡ (c.total_cache + 1) % 2 ^ 64
unfolding put
total_cache-put x c = refl

-- The loop of ReadFirstBatch goes on with the list where the cache ends, up to the bound.
pub get_all-fill :
    (bound i n : ℕ) (arr : List SavedItem) (c : VendorCache)
    → i + n ≡ bound
    → get_all (fill bound i arr c) ≡ get_all c ++ take n arr
unfolding fill
get_all-fill bound i zero [] c e = sym (append-nil (get_all c))
get_all-fill bound i (suc n) [] c e = sym (append-nil (get_all c))
get_all-fill bound i zero (x ∷ arr) c e =
    let stop : ltb i bound ≡ false = ground arith in rw stop (sym (append-nil (get_all c)))
get_all-fill bound i (suc n) (x ∷ arr) c e =
    let more : ltb i bound ≡ true = ground arith in
    let front : get_all (put_to_front x c) ≡ get_all c ++ x ∷ [] =
      unfold get_all put_to_front in reverse-cons x c.l in
    rw more (
      get_all-fill bound (i + 1) n arr (put_to_front x c) (omega arith)
      ∙ ap (λ xs. xs ++ take n arr) front
      ∙ append_assoc (get_all c) (x ∷ []) (take n arr))
