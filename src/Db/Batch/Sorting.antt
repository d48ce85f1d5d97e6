-- ===== src/Db/Batch/Sorting.antt =====
-- db/db.go and utils/utils.go: the sort of ReadFirstBatch by SavedItemArr.Less.
use mathlib.Core.List.{Permᴰ}
use mathlib.Core.List.Permᴰ
use btc_vendor_tools.Base.{
  ℕ, ◌≡◌, refl, Bool, true, false, Bool-cases, ◌&&◌, ◌||◌, ltb, ◌==◌, inl, inr, All, List, [], ◌∷◌,
  arith, if◌then◌else◌,
}
use btc_vendor_tools.Std.Clock.{int64_order, before}
use btc_vendor_tools.Utils.Saved.{SavedItem, less}
use btc_vendor_tools.Db.Batch.{insert_newest, newest_first}

-- No entry was received before a later entry of the list.
abbrev pub Falling : List SavedItem → Type 0
Falling [] = Unit
Falling (x ∷ xs) = All (λ y. less x y ≡ false) xs × Falling xs

abbrev earlier : ℕ → ℕ → ℕ → ℕ → Bool
earlier s n s' n' = if ltb s s' || (s == s' && ltb n n') then true else false

earlier_asym : (s n s' n' : ℕ) → earlier s n s' n' ≡ true → earlier s' n' s n ≡ false
earlier_asym s n s' n' e = ground arith

earlier_trans :
    (s n s' n' s'' n'' : ℕ)
    → earlier s n s' n' ≡ false
    → earlier s' n' s'' n'' ≡ false
    → earlier s n s'' n'' ≡ false
earlier_trans s n s' n' s'' n'' e f = ground arith

less_asym : (x y : SavedItem) → less x y ≡ true → less y x ≡ false
unfolding less before
less_asym x y e =
    earlier_asym (int64_order x.time_received.sec) x.time_received.nsec
      (int64_order y.time_received.sec) y.time_received.nsec e

less_trans : (x y z : SavedItem) → less x y ≡ false → less y z ≡ false → less x z ≡ false
unfolding less before
less_trans x y z e f =
    earlier_trans (int64_order x.time_received.sec) x.time_received.nsec
      (int64_order y.time_received.sec) y.time_received.nsec (int64_order z.time_received.sec)
      z.time_received.nsec e f

pub All-insert_newest :
    (P : SavedItem → Type 0) (x : SavedItem) (ys : List SavedItem)
    → P x
    → All P ys
    → All P (insert_newest x ys)
unfolding insert_newest
All-insert_newest P x [] px h = (px, tt)
All-insert_newest P x (y ∷ ys) px h = elim (Bool-cases (less x y)) [
  | inl yes_ ↦ rw yes_ (h.0, All-insert_newest P x ys px h.1)
  | inr no_ ↦ rw no_ (px, h)
]

All-less :
    (x y : SavedItem) (zs : List SavedItem)
    → less x y ≡ false
    → All (λ z. less y z ≡ false) zs
    → All (λ z. less x z ≡ false) zs
All-less x y [] e h = tt
All-less x y (z ∷ zs) e h = (less_trans x y z e h.0, All-less x y zs e h.1)

insert_newest-Falling :
    (x : SavedItem) (ys : List SavedItem) → Falling ys → Falling (insert_newest x ys)
unfolding insert_newest
insert_newest-Falling x [] h = (tt, tt)
insert_newest-Falling x (y ∷ ys) h = elim (Bool-cases (less x y)) [
  | inl before_ ↦ rw before_ (
    All-insert_newest (λ z. less y z ≡ false) x ys (less_asym x y before_) h.0,
    insert_newest-Falling x ys h.1,
  )
  | inr after_ ↦ rw after_ ((after_, All-less x y ys after_ h.0), h)
]

insert_newest-Permᴰ : (x : SavedItem) (ys : List SavedItem) → Permᴰ (insert_newest x ys) (x ∷ ys)
unfolding insert_newest
insert_newest-Permᴰ x [] = Permᴰ.refl (x ∷ [])
insert_newest-Permᴰ x (y ∷ ys) = elim (Bool-cases (less x y)) [
  | inl before_ ↦
      rw before_ (Permᴰ.trans (Permᴰ.cons refl (insert_newest-Permᴰ x ys)) (Permᴰ.swap refl refl))
  | inr after_ ↦ rw after_ (Permᴰ.refl (x ∷ y ∷ ys))
]

-- The sort of ReadFirstBatch returns the same entries, and puts no entry before one that was
-- received after it.
pub newest_first-Falling :
    (items : List SavedItem) → Permᴰ (newest_first items) items × Falling (newest_first items)
unfolding newest_first
newest_first-Falling [] = (Permᴰ.refl [], tt)
newest_first-Falling (x ∷ xs) =
    let (same, falling) = newest_first-Falling xs in
    (
      Permᴰ.trans (insert_newest-Permᴰ x (newest_first xs)) (Permᴰ.cons refl same),
      insert_newest-Falling x (newest_first xs) falling,
    )
