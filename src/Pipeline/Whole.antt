-- ===== src/Pipeline/Whole.antt =====
-- cmd/run.go in the mode "all": from the start of the process to the turns of its goroutines.
use btc_vendor_tools.Base.{
  ◌≤◌, ◌≡◌, ap, sym, ◌∙◌, true, List, [], ◌∷◌, ◌++◌, none, length, All, arith, Result, ok,
}
use btc_vendor_tools.Std.Binary.{Bytes}
use btc_vendor_tools.Std.Hex.{hex_decode}
use btc_vendor_tools.Wire.{Wire}
use btc_vendor_tools.Btc.{Btc}
use btc_vendor_tools.LevelDb.{LevelDb, IsLevelDb, IsReliable}
use btc_vendor_tools.Config.{Files}
use btc_vendor_tools.Utils.ToSign.{ToSignItem}
use btc_vendor_tools.Utils.Key.{get_utxo_key}
use btc_vendor_tools.Db.{VendorDb}
use btc_vendor_tools.Db.View.{Inv, IsStored}
use btc_vendor_tools.Db.Reopen.{new_vendor_db-Inv}
use btc_vendor_tools.Signer.{Reply}
use btc_vendor_tools.Web.Router.{Backend}
use btc_vendor_tools.Observer.Setup.{Observer, conf_of}
use btc_vendor_tools.Observer.Events.Requests.{Requests}
use btc_vendor_tools.Start.{
  Flags, Service, observing, signing, World, Settings, Running, going, run,
}
use btc_vendor_tools.Start.Observing.{Observes}
use btc_vendor_tools.Start.Modes.{InMode, all, onlyob, onlysig, run_services}
use btc_vendor_tools.Pipeline.Interleaved.{channel_size, Turn, notices, handled, Both, held, Steps}
use btc_vendor_tools.Pipeline.Kept.{Fits, IsKept}
use btc_vendor_tools.Pipeline.Order.{turns_keep}

-- The goroutines as run starts them, over its database, with the replies that Poly will give.
abbrev pub started :
    (w : Wire) (L : LevelDb) (btc : Btc) (redeem : Bytes) (ob : Observer)
    → VendorDb L.State
    → List Reply
    → Both w L btc redeem ob.hash_key (conf_of ob)
started w L btc redeem ob vdb replies = record {
  ob = record { vdb = vdb; queue = []; posted = []; answers = [] };
  hand = none;
  calls = [];
  replies = replies;
}

module _ (w : Wire) (L : LevelDb) (btc : Btc) (F : Files) (b : Backend) (s : Settings w L btc F b)
    (rb opwd bpwd : Bytes) where
  -- Only the mode "all" observes and signs in one process.
  InMode-all :
      (mode : Bytes) (services : List Service) (ob : Observer)
      → InMode w L btc F b s rb opwd bpwd mode services
      → services ≡ observing ob ∷ signing ∷ []
      → Observes w L btc F b s rb true ob
  InMode-all mode services ob (all ob' observes signs) e =
      let same : ob' ≡ ob = ground arith in rw same at observes
  InMode-all mode services ob (onlyob ob' observes) e = cc e
  InMode-all mode services ob (onlysig signs) e = cc e

-- A start that observes and signs, over a database that works and holds items in their stored form:
-- the observer watches for the key of the redeem script in the Config, under which the signer
-- submits. While the two take turns in any order, where each item that Poly accepted fits the stored
-- form, the items that the notifications for this key ask for are, in their order, those that the signer is
-- done with and then those that are still held; each item that Poly accepted is found in the database;
-- the channel holds at most 100 items, and the invariant of the database holds.
pub run_keeps :
    (w : Wire) (L : LevelDb) (btc : Btc) (F : Files) (b : Backend) (flags : Flags)
    (world : World w L btc F b) (r : Running w L btc F b) (ob : Observer) (rb : Bytes)
    (replies : List Reply)
    → IsLevelDb L
    → IsReliable L
    → ((path : Bytes) (d : L.State) → world.open_file path ≡ ok d → IsStored w L d)
    → run w L btc F b flags world ≡ going r
    → r.services ≡ observing ob ∷ signing ∷ []
    → hex_decode r.settings.conf.redeem ≡ ok rb
    → (turns : List Turn) (s' : Both w L btc rb ob.hash_key (conf_of ob))
    → Steps w L btc rb ob.hash_key (conf_of ob) (started w L btc rb ob r.vdb replies) turns s'
    → All (Fits w L btc rb) turns
    → (get_utxo_key btc rb ≡ ok ob.hash_key)
      × ((requested : List ToSignItem) × Requests w (conf_of ob) (notices turns) requested
          × (requested ≡ handled turns ++ held w L btc rb ob.hash_key (conf_of ob) s'))
      × All (IsKept w L btc rb s'.ob.vdb) turns
      × (length s'.ob.queue ≤ channel_size)
      × Inv w L s'.ob.vdb
run_keeps w L btc F b flags world r ob rb replies lawful reliable stored runs services redeem turns
      s' steps fits =
    let (conf, _, (d, opens, made), _, (rb', opwd, bpwd, decoded, _, _, mode)) =
      run_services w L btc F b flags world r runs in
    let same : rb' ≡ rb =
      let e : ◌≡◌ {A = Result Bytes} (ok rb') (ok rb) = sym decoded ∙ redeem in ground arith in
    let observes =
      InMode-all w L btc F b r.settings rb' opwd bpwd flags.mode r.services ob mode services in
    let chan : ob.has_chan ≡ true = ap (λ c. c.has_chan) observes.conf in
    let (ordered, kept, _, room, inv) =
      turns_keep w L btc rb ob.hash_key (conf_of ob) chan lawful reliable
        (started w L btc rb ob r.vdb replies) s' turns steps
        (new_vendor_db-Inv w L d r.vdb (stored conf.config_db_path d opens) made) fits
        (omega arith) in
    (rw same at observes.key, ordered, kept, room, inv)
