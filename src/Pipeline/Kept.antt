-- ===== src/Pipeline/Kept.antt =====
-- cmd/run.go in the mode "all": what a turn of the observer or of the signer keeps in the database and
-- on the channel.
use btc_vendor_tools.Base.{◌≤◌, ◌≡◌, refl, ap, ◌∙◌, true, length, arith}
use btc_vendor_tools.Std.Binary.{Bytes}
use btc_vendor_tools.Std.Clock.{Time}
use btc_vendor_tools.Wire.{Wire}
use btc_vendor_tools.Btc.{Btc}
use btc_vendor_tools.LevelDb.{LevelDb, IsLevelDb, IsReliable}
use btc_vendor_tools.Utils.ToSign.{ToSignItem}
use btc_vendor_tools.Utils.Saved.RoundTrip.{IsSaved}
use btc_vendor_tools.Db.{VendorDb}
use btc_vendor_tools.Db.View.{Inv}
use btc_vendor_tools.Db.Reliable.{IsFound, put_signed_tx-ok, Inv-put, IsFound-kept, IsFound-put}
use btc_vendor_tools.Signer.{
  Verdict, done, failed, waiting, crashed, SignerState, saved_item, sign_next,
}
use btc_vendor_tools.Signer.Drains.{db_key}
use btc_vendor_tools.Signer.Stored.{sign_next-vdb, after-done}
use btc_vendor_tools.Observer.Events.{ObConf}
use btc_vendor_tools.Observer.Events.Keeps.{check_notify-IsFound}
use btc_vendor_tools.Pipeline.Interleaved.{
  channel_size, Turn, noticed, took, signed, Both, signer_of, Step, notices_one, takes, signs,
}

module _ (w : Wire) (L : LevelDb) (b : Btc) (redeem : Bytes) where
  -- An item that Poly accepted fits the stored form with the time when it is put away.
  abbrev pub Fits : Turn → Type 0
  Fits (noticed v) = Unit {0}
  Fits took = Unit {0}
  Fits (signed item now (done txid)) = IsSaved w (saved_item w L b redeem item now)
  Fits (signed item now failed) = Unit {0}
  Fits (signed item now waiting) = Unit {0}
  Fits (signed item now crashed) = Unit {0}

  -- An item that Poly accepted is found in the database.
  abbrev pub IsKept : VendorDb L.State → Turn → Type 0
  IsKept vdb (noticed v) = Unit {0}
  IsKept vdb took = Unit {0}
  IsKept vdb (signed item now (done txid)) = IsFound w L (db_key w L b redeem item) vdb
  IsKept vdb (signed item now failed) = Unit {0}
  IsKept vdb (signed item now waiting) = Unit {0}
  IsKept vdb (signed item now crashed) = Unit {0}

  pub IsKept-later :
      (v v' : VendorDb L.State)
      → ((j : Bytes) → IsFound w L j v → IsFound w L j v')
      → (t : Turn) → IsKept v t
      → IsKept v' t
  IsKept-later v v' later (noticed n) k = tt
  IsKept-later v v' later took k = tt
  IsKept-later v v' later (signed item now (done txid)) k = later _ k
  IsKept-later v v' later (signed item now failed) k = tt
  IsKept-later v v' later (signed item now waiting) k = tt
  IsKept-later v v' later (signed item now crashed) k = tt

module _ (w : Wire) (L : LevelDb) (b : Btc) (redeem key : Bytes) (conf : ObConf)
    (chan : conf.has_chan ≡ true) (lawful : IsLevelDb L) (reliable : IsReliable L) where
  abbrev pub St : Type 0
  St = Both w L b redeem key conf

  -- The invariant, what was found, and what the turn has put away.
  abbrev pub Kept : VendorDb L.State → Turn → VendorDb L.State → Type 0
  Kept v t v' =
      Inv w L v' × ((j : Bytes) → IsFound w L j v → IsFound w L j v') × IsKept w L b redeem v' t

  signed-Kept :
      (item : ToSignItem) (now : Time) (s s' : SignerState w L b redeem) (v : Verdict)
      → Inv w L s.vdb
      → Fits w L b redeem (signed item now v)
      → sign_next w L b redeem key item now s ≡ (v, s')
      → Kept s.vdb (signed item now v) s'.vdb
  signed-Kept item now s s' (done txid) inv fits e =
      let h = db_key w L b redeem item in
      let it = saved_item w L b redeem item now in
      let (vdb, put) = put_signed_tx-ok w L reliable h s.vdb it fits in
      let same : s'.vdb ≡ vdb =
        sign_next-vdb w L b redeem key item now s (done txid) s' e
        ∙ after-done w L b redeem key item now s txid
        ∙ ap (λ p. p.1) put in
      rw same (
        Inv-put w L reliable h s.vdb lawful inv it fits refl vdb put,
        IsFound-kept w L reliable h s.vdb lawful inv it fits refl vdb put,
        IsFound-put w L reliable h s.vdb lawful inv it fits refl vdb put,
      )
  signed-Kept item now s s' failed inv fits e =
      rw (sign_next-vdb w L b redeem key item now s failed s' e) (inv, λ j f. f, tt)
  signed-Kept item now s s' waiting inv fits e =
      rw (sign_next-vdb w L b redeem key item now s waiting s' e) (inv, λ j f. f, tt)
  signed-Kept item now s s' crashed inv fits e =
      rw (sign_next-vdb w L b redeem key item now s crashed s' e) (inv, λ j f. f, tt)

  pub Step-Kept :
      {s s' : St} {t : Turn}
      → Step w L b redeem key conf s t s'
      → Inv w L s.ob.vdb
      → Fits w L b redeem t
      → Kept s.ob.vdb t s'.ob.vdb
  Step-Kept {s} (notices_one v c ob e room) inv fits =
      let (inv', kept) = check_notify-IsFound w L conf chan lawful reliable v s.ob ob c e inv in
      (inv', kept, tt)
  Step-Kept (takes item rest free queue) inv fits = (inv, λ j f. f, tt)
  Step-Kept {s} (signs item now v after hand e goes) inv fits =
      signed-Kept item now (signer_of w L b redeem key conf s) after v inv fits e

  pub Step-room :
      {s s' : St} {t : Turn}
      → Step w L b redeem key conf s t s'
      → length s.ob.queue ≤ channel_size
      → length s'.ob.queue ≤ channel_size
  Step-room (notices_one v c ob e room) h = room
  Step-room (takes item rest free queue) h = omega (arith, ap (length {0}) queue)
  Step-room (signs item now v after hand e goes) h = h
