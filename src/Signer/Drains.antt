-- ===== src/Signer/Drains.antt =====
-- signer/signer.go: Signing over the items of the channel, while Poly accepts what is posted and the
-- database works.
use mathlib.Core.Path.{subst}
use btc_vendor_tools.Base.{ℕ, suc, ◌≡◌, refl, ap, sym, List, [], ◌∷◌, ◌++◌, map, replicate, All, ok}
use btc_vendor_tools.Std.Binary.{Bytes}
use btc_vendor_tools.Std.Clock.{Time}
use btc_vendor_tools.Wire.{Wire}
use btc_vendor_tools.Btc.{Btc}
use btc_vendor_tools.LevelDb.{LevelDb, IsLevelDb, IsReliable}
use btc_vendor_tools.Utils.ToSign.{ToSignItem}
use btc_vendor_tools.Utils.Saved.RoundTrip.{IsSaved}
use btc_vendor_tools.Db.{VendorDb}
use btc_vendor_tools.Db.View.{Inv}
use btc_vendor_tools.Db.Reliable.{IsFound, put_signed_tx-ok, Inv-put, IsFound-kept, IsFound-put}
use btc_vendor_tools.Signer.{
  clear_scripts, get_sigs, Reply, accepted, post_failed, Verdict, done, submission, SignerState,
  saved_item, signing_loop,
}
use btc_vendor_tools.Signer.Saves.{sign_next-accepted}

-- An acceptance of Poly behind a number of failures to post.
abbrev pub Acceptance : Type 0
Acceptance = ℕ × Bytes

abbrev pub replies_of : List Acceptance → List Reply → List Reply
replies_of [] rest = rest
replies_of ((n, txid) ∷ more) rest = replicate n post_failed ++ accepted txid ∷ replies_of more rest

module _ (w : Wire) (L : LevelDb) (b : Btc) (redeem : Bytes) where
  abbrev pub db_key : ToSignItem → Bytes
  db_key item = w.tx_hash (clear_scripts item.mtx)

  -- An item that the script signs, and that fits the stored form with the time of its storage.
  pub record IsSignable (item : ToSignItem) (now : Time) : Type 0 where
    pub sigs : List Bytes
    pub signs : (get_sigs b redeem item).0 ≡ ok sigs
    pub fits : IsSaved w (saved_item w L b redeem item now)

  -- Items with their times, and one acceptance for each.
  pub data Accepted : List (ToSignItem × Time) → List Acceptance → Type 0 where
    none_left : Accepted [] []
    one_more :
        {item : ToSignItem} {now : Time} {a : Acceptance} {items : List (ToSignItem × Time)}
        {more : List Acceptance}
        → IsSignable item now
        → Accepted items more
        → Accepted ((item, now) ∷ items) (a ∷ more)

  module _ (lawful : IsLevelDb L) (reliable : IsReliable L) (key : Bytes) where
    abbrev St : Type 0
    St = SignerState w L b redeem

    abbrev IsSigned : VendorDb L.State → ToSignItem × Time → Type 0
    IsSigned vdb (item, now) = IsFound w L (db_key item) vdb

    -- What a run over the items leaves: the invariant, the hashes that were found, and the items.
    abbrev Drained :
        List (ToSignItem × Time) → List Acceptance → List Reply → St → List Verdict × St → Type 0
    Drained items more rest s (verdicts, s') =
        (verdicts ≡ map (λ a. done a.1) more)
        × Inv w L s'.vdb
        × ((j : Bytes) → IsFound w L j s.vdb → IsFound w L j s'.vdb)
        × All (IsSigned s'.vdb) items
        × (s'.replies ≡ rest)

    pub signing_loop-Drained :
        (items : List (ToSignItem × Time)) (more : List Acceptance) (rest : List Reply) (s : St)
        → Accepted items more
        → Inv w L s.vdb
        → s.replies ≡ replies_of more rest
        → Drained items more rest s (signing_loop w L b redeem key items s)
    unfolding signing_loop
    signing_loop-Drained [] [] rest s none_left inv r = (refl, inv, λ j found. found, tt, r)
    signing_loop-Drained [] (a ∷ more) rest s h inv r = elim h [ ]
    signing_loop-Drained ((item, now) ∷ items) [] rest s h inv r = elim h [ ]
    signing_loop-Drained ((item, now) ∷ items) ((n, txid) ∷ more) rest s (one_more h hs) inv r =
        let (vdb, put) =
          put_signed_tx-ok w L reliable (db_key item) s.vdb (saved_item w L b redeem item now)
            h.fits in
        let s1 : St = record {
          vdb = vdb;
          calls = s.calls ++ replicate (suc n) (submission w key item h.sigs);
          replies = replies_of more rest;
        } in
        let next =
          sign_next-accepted w L b redeem key item now s h.sigs n txid (replies_of more rest) vdb
            h.signs r put in
        let inv1 = Inv-put w L reliable (db_key item) s.vdb lawful inv _ h.fits refl vdb put in
        let kept = IsFound-kept w L reliable (db_key item) s.vdb lawful inv _ h.fits refl vdb put in
        let here = IsFound-put w L reliable (db_key item) s.vdb lawful inv _ h.fits refl vdb put in
        let (verdicts, inv', found, all, left) =
          signing_loop-Drained items more rest s1 hs inv1 refl in
        let step : signing_loop w L b redeem key ((item, now) ∷ items) s ≡ (
          done txid ∷ (signing_loop w L b redeem key items s1).0,
          (signing_loop w L b redeem key items s1).1,
        ) =
          rw next refl in
        subst (Drained ((item, now) ∷ items) ((n, txid) ∷ more) rest s) (sym step) (
          ap (◌∷◌ (done txid)) verdicts,
          inv',
          λ j f. found j (kept j f),
          (found (db_key item) here, all),
          left,
        )
