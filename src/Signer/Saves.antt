-- ===== src/Signer/Saves.antt =====
-- signer/signer.go: what Signing submits, and what it puts into the database.
use btc_vendor_tools.Base.{
  ℕ, suc, ◌≡◌, refl, ap, ◌∙◌, true, List, [], ◌∷◌, ◌++◌, map, replicate, arith, bytes_eq,
  if◌then◌else◌, ok,
}
use btc_vendor_tools.Std.Binary.{Bytes}
use btc_vendor_tools.Std.Clock.{Time}
use btc_vendor_tools.Wire.{Wire, MsgTx, TxIn}
use btc_vendor_tools.Btc.{Btc}
use btc_vendor_tools.LevelDb.{LevelDb, IsLevelDb}
use btc_vendor_tools.Utils.ToSign.{ToSignItem}
use btc_vendor_tools.Utils.Saved.RoundTrip.{IsSaved}
use btc_vendor_tools.Db.{VendorDb, tx_key, put_signed_tx, get_signed_tx}
use btc_vendor_tools.Db.View.{Inv}
use btc_vendor_tools.Db.Put.{is_absent, get_signed_tx-put_signed_tx}
use btc_vendor_tools.Signer.{
  unsigned_in, clear_scripts, get_sigs, Reply, accepted, post_failed, done, submission, SignerState,
  after_verdict, saved_item, sign_next,
}
use btc_vendor_tools.Signer.Submit.{submit_replies}

map_unsigned_twice : (ins : List TxIn) → map unsigned_in (map unsigned_in ins) ≡ map unsigned_in ins
map_unsigned_twice [] = refl
map_unsigned_twice (x ∷ ins) = ap (◌∷◌ (unsigned_in x)) (map_unsigned_twice ins)

pub clear_scripts_twice : (tx : MsgTx) → clear_scripts (clear_scripts tx) ≡ clear_scripts tx
unfolding clear_scripts
clear_scripts_twice tx = ap (λ ins. record tx { tx_in = ins }) (map_unsigned_twice tx.tx_in)

-- How an item that is signed, accepted after n failures to post, and put away ends.
pub sign_next-accepted :
    (w : Wire) (L : LevelDb) (b : Btc) (redeem key : Bytes) (item : ToSignItem) (now : Time)
    (s : SignerState w L b redeem) (sigs : List Bytes) (n : ℕ) (txid : Bytes) (rest : List Reply)
    (vdb : VendorDb L.State)
    → (get_sigs b redeem item).0 ≡ ok sigs
    → s.replies ≡ replicate n post_failed ++ accepted txid ∷ rest
    → put_signed_tx w L
        (w.tx_hash (clear_scripts item.mtx))
        (saved_item w L b redeem item now)
        s.vdb
      ≡ (ok tt, vdb)
    → sign_next w L b redeem key item now s ≡ (
      done txid,
      record {
        vdb = vdb;
        calls = s.calls ++ replicate (suc n) (submission w key item sigs);
        replies = rest;
      },
    )
unfolding sign_next
sign_next-accepted w L b redeem key item now s sigs n txid rest vdb signed replies put =
    let loop = (submit_replies (submission w key item sigs) n (accepted txid) rest (λ e. cc e)).0 in
    let put_away : after_verdict w L b redeem item now (done txid) s.vdb ≡ vdb =
      rw (clear_scripts_twice item.mtx, after_verdict) (ap (λ p. p.1) put) in
    rw (signed, sign_next)
      (rw (replies, loop)
        (ap
          (λ (d : VendorDb L.State). (
            done txid,
            record {
              vdb = d;
              calls = s.calls ++ replicate (suc n) (submission w key item sigs);
              replies = rest;
            },
          ))
          put_away))

-- An item that getSigs signs, and that Poly accepts after n failures to post, is submitted n + 1
-- times under the hash of the transaction as it was received. If cache and database keep the
-- invariant, the item without scripts fits the stored form, the database answers that the hash of
-- the transaction without scripts is not there, and PutSignedTx returns nil, then the item without
-- scripts, not done, is found under that hash, and every other hash is as before.
pub sign_next-saves :
    (w : Wire) (L : LevelDb) (b : Btc) (redeem key : Bytes)
    → IsLevelDb L
    → (item : ToSignItem) (now : Time) (s : SignerState w L b redeem) (sigs : List Bytes) (n : ℕ)
      (txid : Bytes) (rest : List Reply) (vdb : VendorDb L.State)
    → Inv w L s.vdb
    → IsSaved w (saved_item w L b redeem item now)
    → (get_sigs b redeem item).0 ≡ ok sigs
    → s.replies ≡ replicate n post_failed ++ accepted txid ∷ rest
    → is_absent (L.get s.vdb.db (tx_key (w.tx_hash (clear_scripts item.mtx)))) ≡ true
    → put_signed_tx w L
        (w.tx_hash (clear_scripts item.mtx))
        (saved_item w L b redeem item now)
        s.vdb
      ≡ (ok tt, vdb)
    → (sign_next w L b redeem key item now s ≡ (
      done txid,
      record {
        vdb = vdb;
        calls = s.calls ++ replicate (suc n) (submission w key item sigs);
        replies = rest;
      },
    ))
      × ((j : Bytes)
          → get_signed_tx w L j vdb ≡ (
              if bytes_eq (w.tx_hash (clear_scripts item.mtx)) j
              then ok (saved_item w L b redeem item now)
              else get_signed_tx w L j s.vdb))
sign_next-saves w L b redeem key lawful item now s sigs n txid rest vdb inv saved signed replies
      absent put =
    let (_, view) =
      get_signed_tx-put_signed_tx w L lawful (w.tx_hash (clear_scripts item.mtx))
        (saved_item w L b redeem item now) s.vdb vdb inv saved refl put in
    (
      sign_next-accepted w L b redeem key item now s sigs n txid rest vdb signed replies put,
      λ j. view j ∙ rw absent (ground arith),
    )
