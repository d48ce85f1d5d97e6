-- ===== src/Observer/Events/Finishes.antt =====
-- observer/alliaob.go: a signed transaction on Poly marks its item as done.
use btc_vendor_tools.Base.{◌≡◌, refl, ap, ◌∙◌, some, bytes_eq, bytes_eq_refl, if◌then◌else◌, ok}
use btc_vendor_tools.Std.Binary.{Bytes}
use btc_vendor_tools.Wire.{Wire, MsgTx}
use btc_vendor_tools.LevelDb.{LevelDb, IsLevelDb}
use btc_vendor_tools.Utils.Saved.{SavedItem}
use btc_vendor_tools.Db.{VendorDb, get_signed_tx, set_tx_done}
use btc_vendor_tools.Db.Cache.Lookup.{set_done}
use btc_vendor_tools.Db.View.{Inv}
use btc_vendor_tools.Db.Done.{get_signed_tx-set_tx_done}
use btc_vendor_tools.Signer.{clear_scripts}
use btc_vendor_tools.Run.{finished}
use btc_vendor_tools.Observer.Events.{
  text, list, Values, at, signed_tx_key, ObConf, ObState, decode_tx, check_signed, check_notify,
}

-- A notification of a signed transaction of this vendor: its name, the vendor's key, and the
-- transaction in hex.
pub record IsSignedEvent (w : Wire) (conf : ObConf) (states : Values) (tx : MsgTx) : Type 0 where
  pub named : at states 0 ≡ some (text signed_tx_key)
  pub keyed : at states 5 ≡ some (text conf.hash_key)
  pub raw : Bytes
  pub has_raw : at states 3 ≡ some (text raw)
  pub decoded : decode_tx w raw ≡ finished (some tx)

check_notify-IsSignedEvent :
    (w : Wire) (L : LevelDb) (conf : ObConf) (states : Values) (tx : MsgTx) (st : ObState w L)
    → IsSignedEvent w conf states tx
    → check_notify w L conf (list states) st
      ≡ finished (0, record st { vdb = (set_tx_done w L (w.tx_hash (clear_scripts tx)) st.vdb).1 })
unfolding check_notify check_signed bytes_eq
check_notify-IsSignedEvent w L conf states tx st is =
    rw (is.named, is.keyed, bytes_eq_refl conf.hash_key, is.has_raw, is.decoded) refl

-- If checkEvents meets a signed transaction of this vendor while cache and database keep the
-- invariant, and SetTxDone returns nil for the hash of the transaction without scripts, then the
-- database has an item under that hash and afterwards has it with Done set; every other item, the
-- channel and the count of items to sign are as before.
pub check_notify-set_tx_done :
    (w : Wire) (L : LevelDb) (conf : ObConf)
    → IsLevelDb L
    → (states : Values) (tx : MsgTx) (st : ObState w L) (v : VendorDb L.State)
    → IsSignedEvent w conf states tx
    → Inv w L st.vdb
    → set_tx_done w L (w.tx_hash (clear_scripts tx)) st.vdb ≡ (ok tt, v)
    → (check_notify w L conf (list states) st ≡ finished (0, record st { vdb = v }))
      × ((item : SavedItem) × (get_signed_tx w L (w.tx_hash (clear_scripts tx)) st.vdb ≡ ok item)
          × Inv w L v
          × ((j : Bytes)
              → get_signed_tx w L j v ≡ (
                  if bytes_eq (w.tx_hash (clear_scripts tx)) j
                  then ok (set_done item)
                  else get_signed_tx w L j st.vdb)))
check_notify-set_tx_done w L conf lawful states tx st v is inv marked = (
  check_notify-IsSignedEvent w L conf states tx st is
      ∙ ap (λ p. finished (0, record st { vdb = p.1 })) marked,
  get_signed_tx-set_tx_done w L lawful (w.tx_hash (clear_scripts tx)) st.vdb v inv marked,
)
