-- ===== src/Signer/Stored.antt =====
-- signer/signer.go: what one item of Signing makes of the database, however it ends.
use btc_vendor_tools.Base.{◌≡◌, refl, ap, sym, ◌∙◌, inl, inr, Result-cases}
use btc_vendor_tools.Std.Binary.{Bytes}
use btc_vendor_tools.Std.Clock.{Time}
use btc_vendor_tools.Wire.{Wire}
use btc_vendor_tools.Btc.{Btc}
use btc_vendor_tools.LevelDb.{LevelDb}
use btc_vendor_tools.Utils.ToSign.{ToSignItem}
use btc_vendor_tools.Db.{put_signed_tx}
use btc_vendor_tools.Signer.{
  clear_scripts, get_sigs, Verdict, done, SignerState, after_verdict, saved_item, sign_next,
}
use btc_vendor_tools.Signer.Saves.{clear_scripts_twice}

module _ (w : Wire) (L : LevelDb) (b : Btc) (redeem key : Bytes) (item : ToSignItem) (now : Time)
    (s : SignerState w L b redeem) where
  ended_vdb :
      {v v' : Verdict} {s1 s' : SignerState w L b redeem}
      → ◌≡◌ {A = Verdict × SignerState w L b redeem} (v, s1) (v', s')
      → s1.vdb ≡ after_verdict w L b redeem item now v s.vdb
      → s'.vdb ≡ after_verdict w L b redeem item now v' s.vdb
  ended_vdb e here =
      ap (λ p. p.1.vdb) (sym e) ∙ here ∙ ap (λ p. after_verdict w L b redeem item now p.0 s.vdb) e

  -- The database changes with the verdict alone.
  pub sign_next-vdb :
      (v : Verdict) (s' : SignerState w L b redeem)
      → sign_next w L b redeem key item now s ≡ (v, s')
      → s'.vdb ≡ after_verdict w L b redeem item now v s.vdb
  unfolding sign_next
  sign_next-vdb v s' e = elim (Result-cases (get_sigs b redeem item).0) [
    | inl (sigs, signed) ↦ ended_vdb (rw (signed, sign_next) at e) refl
    | inr (inl (why, bad)) ↦ ended_vdb (rw (bad, sign_next) at e) refl
    | inr (inr broke) ↦ ended_vdb (rw (broke, sign_next) at e) refl
  ]

  pub after-done :
      (txid : Bytes)
      → after_verdict w L b redeem item now (done txid) s.vdb
        ≡ (put_signed_tx w L
            (w.tx_hash (clear_scripts item.mtx))
            (saved_item w L b redeem item now)
            s.vdb).1
  after-done txid = rw (clear_scripts_twice item.mtx, after_verdict) refl
