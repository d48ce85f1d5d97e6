-- ===== src/Db/Reopen.antt =====
-- db/db.go: NewVendorDB over the database that an earlier VendorDB left.
use btc_vendor_tools.Base.{ℕ, ◌≡◌, refl, sym, ◌∙◌, arith, Result, ok, >>=-eq-ok}
use btc_vendor_tools.Std.Binary.{Bytes}
use btc_vendor_tools.Wire.{Wire}
use btc_vendor_tools.LevelDb.{LevelDb}
use btc_vendor_tools.Db.Cache.{get, find}
use btc_vendor_tools.Db.{VendorDb, fresh, get_signed_tx, get_total_tx_num, new_vendor_db}
use btc_vendor_tools.Db.View.{IsStored, Inv, get_signed_tx-eq-read_stored}

ok_eq {ℓ} : {A : Type ℓ} {a b : A} → ◌≡◌ {A = Result A} (ok a) (ok b) → a ≡ b
ok_eq e = ground arith

fresh-Inv :
    (w : Wire) (L : LevelDb) (d : L.State) (n : ℕ) → IsStored w L d → Inv w L (fresh w L d n)
unfolding get find
fresh-Inv w L d n stored = record {
  size = refl;
  bounded = omega arith;
  cached = λ h it e. cc e;
  stored = stored;
}

-- A VendorDB that is opened on items in their stored form has the invariant.
pub new_vendor_db-Inv :
    (w : Wire) (L : LevelDb) (d : L.State) (v' : VendorDb L.State)
    → IsStored w L d
    → new_vendor_db w L d ≡ ok v'
    → Inv w L v'
unfolding new_vendor_db
new_vendor_db-Inv w L d v' stored e =
    let (total, _, opened) = >>=-eq-ok (get_total_tx_num w L (fresh w L d 0)) _ e in
    let same : fresh w L d total ≡ v' = ok_eq opened in rw (← same) (fresh-Inv w L d total stored)

-- A VendorDB that is opened on the database that another one left, whose invariant held, has the
-- invariant, and GetSignedTx returns under every hash what it returned before.
pub get_signed_tx-new_vendor_db :
    (w : Wire) (L : LevelDb) (v v' : VendorDb L.State)
    → Inv w L v
    → new_vendor_db w L v.db ≡ ok v'
    → Inv w L v' × ((j : Bytes) → get_signed_tx w L j v' ≡ get_signed_tx w L j v)
unfolding new_vendor_db
get_signed_tx-new_vendor_db w L v v' inv e =
    let (total, _, opened) = >>=-eq-ok (get_total_tx_num w L (fresh w L v.db 0)) _ e in
    let same : fresh w L v.db total ≡ v' = ok_eq opened in
    let inv' = fresh-Inv w L v.db total inv.stored in
    (
      rw (← same) inv',
      λ j. rw (← same) (
          get_signed_tx-eq-read_stored w L (fresh w L v.db total) j inv'
          ∙ sym (get_signed_tx-eq-read_stored w L v j inv)),
    )
