-- ===== src/Pipeline/Order.antt =====
-- cmd/run.go in the mode "all": what holds of the observer and the signer while they take turns.
use btc_vendor_tools.Base.{
  ℕ, ◌≤◌, ◌≡◌, ap, sym, ◌∙◌, inl, inr, true, List, [], ◌∷◌, ◌++◌, append_assoc, append-nil, length,
  All, arith,
}
use btc_vendor_tools.Std.Binary.{Bytes}
use btc_vendor_tools.Wire.{Wire}
use btc_vendor_tools.Btc.{Btc}
use btc_vendor_tools.LevelDb.{LevelDb, IsLevelDb, IsReliable}
use btc_vendor_tools.Utils.ToSign.{ToSignItem}
use btc_vendor_tools.Db.View.{Inv}
use btc_vendor_tools.Db.Reliable.{IsFound}
use btc_vendor_tools.Run.{finished, finished_pair}
use btc_vendor_tools.Observer.Events.{Value, ObConf, ObState, check_notify}
use btc_vendor_tools.Observer.Events.Requests.{
  IsRequest, Requests, no_more, asks, passed, check_notify-IsRequest, Outcome, check_notify-Outcome,
}
use btc_vendor_tools.Pipeline.Interleaved.{
  channel_size, Turn, noticed, notices, handled, Both, in_hand, held, Step, notices_one, takes,
  signs, Steps, stay, turn,
}
use btc_vendor_tools.Pipeline.Kept.{Fits, IsKept, IsKept-later, Step-Kept, Step-room}

module _ (w : Wire) (L : LevelDb) (b : Btc) (redeem key : Bytes) (conf : ObConf)
    (chan : conf.has_chan ≡ true) (lawful : IsLevelDb L) (reliable : IsReliable L) where
  abbrev St : Type 0
  St = Both w L b redeem key conf

  -- In their order, the items that a list of turns asks for, behind those that were held before it,
  -- are those that the signer is done with, and behind them those that are held after it.
  abbrev Ordered : St → List Turn → St → Type 0
  Ordered s turns s' =
      (requested : List ToSignItem) × Requests w conf (notices turns) requested
      × (held w L b redeem key conf s ++ requested ≡ handled turns ++ held w L b redeem key conf s')

  noticed-Ordered :
      (s : St) (v : Value) (c : ℕ) (ob : ObState w L) (turns : List Turn) (s' : St)
      → check_notify w L conf v s.ob ≡ finished (c, ob)
      → Ordered (record s { ob = ob }) turns s'
      → Ordered s (noticed v ∷ turns) s'
  unfolding Outcome
  noticed-Ordered s v c ob turns s' e (requested, requests, order) =
      let hand = in_hand w L b redeem key conf s.hand in
      elim (check_notify-Outcome w L conf chan v s.ob ob c e) [
        | inl (none_more, same) ↦
            let never : (item : ToSignItem) → ¬ IsRequest w conf v item = (λ item r.
              let p = finished_pair (sym e ∙ check_notify-IsRequest w L conf chan v item s.ob r) in
              omega arith) in
            (
              requested,
              passed never requests,
              ap (λ q. (hand ++ q) ++ requested) (sym same) ∙ order,
            )
        | inr (one, (item, r, more)) ↦ (
          item ∷ requested,
          asks item r requests,
          append_assoc hand s.ob.queue (item ∷ requested)
              ∙ ap (λ q. hand ++ q) (sym (append_assoc s.ob.queue (item ∷ []) requested))
              ∙ sym (append_assoc hand (s.ob.queue ++ item ∷ []) requested)
              ∙ ap (λ q. (hand ++ q) ++ requested) (sym more)
              ∙ order,
        )
      ]

  Step-Ordered :
      (turns : List Turn) (s' : St) {s s1 : St} {t : Turn}
      → Step w L b redeem key conf s t s1
      → Ordered s1 turns s'
      → Ordered s (t ∷ turns) s'
  Step-Ordered turns s' {s} (notices_one v c ob e room) o = noticed-Ordered s v c ob turns s' e o
  Step-Ordered turns s' (takes item rest free queue) (requested, requests, order) =
      (requested, requests, rw (free, queue) order)
  Step-Ordered turns s' (signs item now v after hand e goes) (requested, requests, order) =
      (requested, requests, rw hand (ap (◌∷◌ item) order))

  abbrev Turned : St → List Turn → St → Type 0
  Turned s turns s' =
      Ordered s turns s'
      × All (IsKept w L b redeem s'.ob.vdb) turns
      × ((j : Bytes) → IsFound w L j s.ob.vdb → IsFound w L j s'.ob.vdb)
      × (length s'.ob.queue ≤ channel_size)
      × Inv w L s'.ob.vdb

  Steps-Turned :
      {s s' : St} {turns : List Turn}
      → Steps w L b redeem key conf s turns s'
      → Inv w L s.ob.vdb
      → All (Fits w L b redeem) turns
      → length s.ob.queue ≤ channel_size
      → Turned s turns s'
  Steps-Turned {s} stay inv fits room =
      (([], no_more, append-nil (held w L b redeem key conf s)), tt, λ j f. f, room, inv)
  Steps-Turned {s} {s'} (turn {s1 = s1} {t = t} {turns = turns} step steps) inv fits room =
      let (inv1, kept, put) =
        Step-Kept w L b redeem key conf chan lawful reliable step inv fits.0 in
      let (order, all, later, room', inv') =
        Steps-Turned steps inv1 fits.1
          (Step-room w L b redeem key conf chan lawful reliable step room) in
      (
        Step-Ordered turns s' step order,
        (IsKept-later w L b redeem s1.ob.vdb s'.ob.vdb later t put, all),
        λ j f. later j (kept j f),
        room',
        inv',
      )

-- While the observer and the signer take turns in any order, over a database that works: the items
-- that the notifications ask for, in their order and behind those that were held before, are the
-- items that the signer is done with, and behind these the items that are still held, in the hand of
-- the signer or on the channel. Each item that Poly accepted, where these fit the stored form, is
-- found in the database under the hash of its transaction without scripts, also after the observer
-- has marked items as done. What was found before is still found, the channel holds at most 100
-- items, and the invariant of the database holds.
pub turns_keep :
    (w : Wire) (L : LevelDb) (b : Btc) (redeem key : Bytes) (conf : ObConf)
    → conf.has_chan ≡ true
    → IsLevelDb L
    → IsReliable L
    → (s s' : Both w L b redeem key conf) (turns : List Turn)
    → Steps w L b redeem key conf s turns s'
    → Inv w L s.ob.vdb
    → All (Fits w L b redeem) turns
    → length s.ob.queue ≤ channel_size
    → ((requested : List ToSignItem) × Requests w conf (notices turns) requested
        × (held w L b redeem key conf s ++ requested
            ≡ handled turns ++ held w L b redeem key conf s'))
      × All (IsKept w L b redeem s'.ob.vdb) turns
      × ((j : Bytes) → IsFound w L j s.ob.vdb → IsFound w L j s'.ob.vdb)
      × (length s'.ob.queue ≤ channel_size)
      × Inv w L s'.ob.vdb
turns_keep w L b redeem key conf chan lawful reliable s s' turns steps inv fits room =
    Steps-Turned w L b redeem key conf chan lawful reliable steps inv fits room
