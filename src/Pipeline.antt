-- ===== src/Pipeline.antt =====
-- cmd/run.go in the mode "all": observer/alliaob.go puts items on the channel, signer/signer.go takes
-- them from it, and both share one database.
pub mod Interleaved
pub mod Kept
pub mod Order
pub mod Drained
pub mod Noticed
pub mod Whole
use btc_vendor_tools.Base.{ℕ, ◌≡◌, ◌∙◌, true, List, [], ◌∷◌, ◌++◌, map, flatten, length, All}
use btc_vendor_tools.Std.Binary.{Bytes}
use btc_vendor_tools.Std.Clock.{Time}
use btc_vendor_tools.Wire.{Wire}
use btc_vendor_tools.Btc.{Btc}
use btc_vendor_tools.LevelDb.{LevelDb, IsLevelDb, IsReliable}
use btc_vendor_tools.Utils.ToSign.{ToSignItem}
use btc_vendor_tools.Db.View.{Inv}
use btc_vendor_tools.Db.Reliable.{IsFound}
use btc_vendor_tools.Signer.{Reply, done, SignerState, signing_loop}
use btc_vendor_tools.Signer.Drains.{Acceptance, replies_of, db_key, Accepted, signing_loop-Drained}
use btc_vendor_tools.Run.{finished}
use btc_vendor_tools.Observer.Events.{Value, ObConf, ObState, check_events}
use btc_vendor_tools.Observer.Events.Requests.{Requests}
use btc_vendor_tools.Observer.Events.Captures.{check_events_captures}
use btc_vendor_tools.Observer.Events.Keeps.{check_events-Inv}

All-map {ℓ κ μ} :
    {A : Type ℓ} {B : Type κ} (P : B → Type μ) (f : A → B) (xs : List A)
    → All (λ x. P (f x)) xs
    → All P (map f xs)
All-map P f [] h = tt
All-map P f (x ∷ xs) h = (h.0, All-map P f xs h.1)

All-behind {ℓ κ} : {A : Type ℓ} (P : A → Type κ) (xs ys : List A) → All P (xs ++ ys) → All P ys
All-behind P [] ys h = h
All-behind P (x ∷ xs) ys h = All-behind P xs ys h.1

-- Over a database that works, with a channel to the signer: where checkEvents finishes on some
-- events, and the signer then takes the items from the channel, which it can sign, which fit the
-- stored form, and which Poly accepts, each after some failures to post, every item is done, and
-- every notification of these events that asks for a signature with the key of this vendor has
-- afterwards an item in the database, under the hash of its transaction without scripts. What was
-- found under a hash before the signer ran is still found, and the invariant holds.
pub captured_are_saved :
    (w : Wire) (L : LevelDb) (b : Btc) (redeem key : Bytes) (conf : ObConf)
    → conf.has_chan ≡ true
    → IsLevelDb L
    → IsReliable L
    → (events : List (List Value)) (st st' : ObState w L) (n : ℕ) (items : List (ToSignItem × Time))
      (accepts : List Acceptance) (rest : List Reply) (s : SignerState w L b redeem)
    → Inv w L st.vdb
    → check_events w L conf events st ≡ finished (n, st')
    → map (λ item. item.0) items ≡ st'.queue
    → Accepted w L b redeem items accepts
    → s.vdb ≡ st'.vdb
    → s.replies ≡ replies_of accepts rest
    → (requested : List ToSignItem) × Requests w conf (flatten events) requested
      × (n ≡ length requested)
      × All
          (λ item.
            IsFound w L (db_key w L b redeem item) (signing_loop w L b redeem key items s).1.vdb)
          requested
      × ((signing_loop w L b redeem key items s).0 ≡ map (λ a. done a.1) accepts)
      × ((j : Bytes)
          → IsFound w L j st'.vdb
          → IsFound w L j (signing_loop w L b redeem key items s).1.vdb)
      × Inv w L (signing_loop w L b redeem key items s).1.vdb
captured_are_saved w L b redeem key conf chan lawful reliable events st st' n items accepts rest s
      inv checks channel accepted shared replies =
    let (requested, requests, queue, count) =
      check_events_captures w L conf chan events st st' n checks in
    let inv' = check_events-Inv w L conf chan lawful reliable events st st' n checks inv in
    let (verdicts, inv'', kept, all, _) =
      signing_loop-Drained w L b redeem lawful reliable key items accepts rest s accepted
        (rw shared inv') replies in
    let P : ToSignItem → Type 0 = (λ item.
      IsFound w L (db_key w L b redeem item) (signing_loop w L b redeem key items s).1.vdb) in
    let on_channel : All P (map (λ item. item.0) items) = All-map P (λ item. item.0) items all in
    let on_queue : All P (st.queue ++ requested) = rw (channel ∙ queue) at on_channel in
    (
      requested,
      requests,
      count,
      All-behind P st.queue requested on_queue,
      verdicts,
      λ j f. kept j (rw shared f),
      inv'',
    )
