-- ===== src/Pipeline/Drained.antt =====
-- cmd/run.go in the mode "all": from every state the signer can be done with what the channel holds.
use btc_vendor_tools.Base.{suc, ◌≡◌, refl, List, [], ◌∷◌, ◌++◌, map, none, some, replicate}
use btc_vendor_tools.Std.Binary.{Bytes}
use btc_vendor_tools.Std.Clock.{Time}
use btc_vendor_tools.Wire.{Wire}
use btc_vendor_tools.Btc.{Btc}
use btc_vendor_tools.LevelDb.{LevelDb, IsReliable}
use btc_vendor_tools.Utils.ToSign.{ToSignItem}
use btc_vendor_tools.Db.Reliable.{put_signed_tx-ok}
use btc_vendor_tools.Signer.{Reply, done, submission, SignerState, saved_item}
use btc_vendor_tools.Signer.Saves.{sign_next-accepted}
use btc_vendor_tools.Signer.Drains.{Acceptance, replies_of, db_key, Accepted, none_left, one_more}
use btc_vendor_tools.Observer.Events.{ObConf}
use btc_vendor_tools.Pipeline.Interleaved.{
  Turn, took, signed, Both, signer_of, held, takes, signs, Steps, stay, turn,
}

-- The turns of the signer alone over the items.
abbrev pub turns_of : List (ToSignItem × Time) → List Acceptance → List Turn
turns_of ((item, now) ∷ items) ((n, txid) ∷ more) =
    took ∷ signed item now (done txid) ∷ turns_of items more
turns_of items more = []

module _ (w : Wire) (L : LevelDb) (b : Btc) (redeem key : Bytes) (conf : ObConf)
    (reliable : IsReliable L) where
  abbrev St : Type 0
  St = Both w L b redeem key conf

  Drained : List (ToSignItem × Time) → List Acceptance → List Reply → St → Type 0
  Drained items more rest s =
      (s' : St) × Steps w L b redeem key conf s (turns_of items more) s'
      × (held w L b redeem key conf s' ≡ [])
      × (s'.replies ≡ rest)

  drained :
      (items : List (ToSignItem × Time)) (more : List Acceptance) (rest : List Reply) (s : St)
      → Accepted w L b redeem items more
      → s.hand ≡ none
      → s.ob.queue ≡ map (λ item. item.0) items
      → s.replies ≡ replies_of more rest
      → Drained items more rest s
  unfolding Drained
  drained [] [] rest s none_left free queue replies = (s, stay, rw (free, queue) refl, replies)
  drained [] (a ∷ more) rest s h free queue replies = elim h [ ]
  drained ((item, now) ∷ items) [] rest s h free queue replies = elim h [ ]
  drained ((item, now) ∷ items) ((n, txid) ∷ more) rest s (one_more h hs) free queue replies =
      let left = map (λ (i : ToSignItem × Time). i.0) items in
      let (vdb, put) =
        put_signed_tx-ok w L reliable (db_key w L b redeem item) s.ob.vdb
          (saved_item w L b redeem item now) h.fits in
      let s1 : St = record s { ob = record s.ob { queue = left }; hand = some item } in
      let after : SignerState w L b redeem = record {
        vdb = vdb;
        calls = s.calls ++ replicate (suc n) (submission w key item h.sigs);
        replies = replies_of more rest;
      } in
      let s2 : St = record {
        ob = record s.ob { vdb = vdb; queue = left };
        hand = none;
        calls = after.calls;
        replies = after.replies;
      } in
      let next =
        sign_next-accepted w L b redeem key item now (signer_of w L b redeem key conf s1) h.sigs n
          txid (replies_of more rest) vdb h.signs replies put in
      let (s', steps, empty, done_) = drained items more rest s2 hs refl refl refl in
      (
        s',
        turn (takes item left free queue)
            (turn (signs item now (done txid) after refl next refl) steps),
        empty,
        done_,
      )

-- Over a database that works, from every state in which the signer has no item in its hand and can
-- sign what is on the channel, where each of these items fits the stored form and Poly accepts it
-- after some failures to post: the turns of the signer alone, whatever the observer waits for,
-- lead to a state in which nothing is held, and the replies behind these acceptances are left.
pub signer_empties :
    (w : Wire) (L : LevelDb) (b : Btc) (redeem key : Bytes) (conf : ObConf)
    → IsReliable L
    → (items : List (ToSignItem × Time)) (accepts : List Acceptance) (rest : List Reply)
      (s : Both w L b redeem key conf)
    → Accepted w L b redeem items accepts
    → s.hand ≡ none
    → s.ob.queue ≡ map (λ item. item.0) items
    → s.replies ≡ replies_of accepts rest
    → (s' : Both w L b redeem key conf) × Steps w L b redeem key conf s (turns_of items accepts) s'
      × (held w L b redeem key conf s' ≡ [])
      × (s'.replies ≡ rest)
unfolding Drained
signer_empties w L b redeem key conf reliable items accepts rest s accepted free queue replies =
    drained w L b redeem key conf reliable items accepts rest s accepted free queue replies
