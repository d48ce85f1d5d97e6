-- ===== src/Pipeline/Noticed.antt =====
-- observer/alliaob.go and cmd/run.go in the mode "all": checkEvents as turns of the observer.
use mathlib.Core.List.{map-append}
use btc_vendor_tools.Base.{
  ℕ, ◌+◌, ◌≤◌, ◌≡◌, ap, inl, inr, true, List, [], ◌∷◌, ◌++◌, map, flatten, length, length-append,
  arith,
}
use btc_vendor_tools.Std.Binary.{Bytes}
use btc_vendor_tools.Wire.{Wire}
use btc_vendor_tools.Btc.{Btc}
use btc_vendor_tools.LevelDb.{LevelDb}
use btc_vendor_tools.Run.{finished, >>=-eq-finished, finished_pair}
use btc_vendor_tools.Observer.Events.{
  Value, ObConf, ObState, check_notify, check_notifies, check_loop, check_events,
}
use btc_vendor_tools.Observer.Events.Requests.{Outcome, check_notify-Outcome}
use btc_vendor_tools.Pipeline.Interleaved.{
  channel_size, Turn, noticed, Both, notices_one, Steps, stay, turn,
}

module _ (w : Wire) (L : LevelDb) (b : Btc) (redeem key : Bytes) (conf : ObConf)
    (chan : conf.has_chan ≡ true) where
  abbrev St : Type 0
  St = Both w L b redeem key conf

  Steps-append :
      {s s1 s' : St} {ts us : List Turn}
      → Steps w L b redeem key conf s ts s1
      → Steps w L b redeem key conf s1 us s'
      → Steps w L b redeem key conf s (ts ++ us) s'
  Steps-append stay more = more
  Steps-append (turn step steps) more = turn step (Steps-append steps more)

  -- The observer only adds to the channel.
  queue-grows :
      (v : Value) (ob ob' : ObState w L) (c : ℕ)
      → check_notify w L conf v ob ≡ finished (c, ob')
      → length ob.queue ≤ length ob'.queue
  unfolding Outcome
  queue-grows v ob ob' c e = elim (check_notify-Outcome w L conf chan v ob ob' c e) [
    | inl (_, same) ↦ omega (arith, ap (length {0}) same)
    | inr (_, (item, _, more)) ↦
        omega (arith, ap (length {0}) more, length-append ob.queue (item ∷ []))
  ]

  -- The notifications one by one, with room on the channel for what they ask for.
  Noticed : List Value → St → ObState w L → Type 0
  Noticed vs s ob =
      Steps w L b redeem key conf s (map noticed vs) (record s { ob = ob })
      × (length s.ob.queue ≤ length ob.queue)

  check_notifies-Noticed :
      (vs : List Value) (s : St) (ob : ObState w L) (n n' : ℕ)
      → check_notifies w L conf vs n s.ob ≡ finished (n', ob)
      → length ob.queue ≤ channel_size
      → Noticed vs s ob
  unfolding Noticed check_notifies
  check_notifies-Noticed [] s ob n n' e room =
      let same : ob ≡ s.ob = (finished_pair e).1 in rw same (stay, omega arith)
  check_notifies-Noticed (v ∷ vs) s ob n n' e room =
      let ((c, ob1), e1, e2) = >>=-eq-finished (check_notify w L conf v s.ob) _ e in
      let (steps, grows) =
        check_notifies-Noticed vs (record s { ob = ob1 }) ob (n + c) n' e2 room in
      let first = queue-grows v s.ob ob1 c e1 in
      (turn (notices_one v c ob1 e1 (omega arith)) steps, omega arith)

  check_loop-Noticed :
      (es : List (List Value)) (s : St) (ob : ObState w L) (n n' : ℕ)
      → check_loop w L conf es n s.ob ≡ finished (n', ob)
      → length ob.queue ≤ channel_size
      → Noticed (flatten es) s ob
  unfolding Noticed check_loop
  check_loop-Noticed [] s ob n n' e room =
      let same : ob ≡ s.ob = (finished_pair e).1 in rw same (stay, omega arith)
  check_loop-Noticed (vs ∷ es) s ob n n' e room =
      let ((c, ob1), e1, e2) = >>=-eq-finished (check_notifies w L conf vs n s.ob) _ e in
      let (later, grows) = check_loop-Noticed es (record s { ob = ob1 }) ob c n' e2 room in
      let (first, more) = check_notifies-Noticed vs s ob1 n c e1 (omega arith) in
      (rw map-append (Steps-append first later), omega arith)

-- A run of checkEvents that finishes, with a channel that has room for what it puts on it, is a sequence
-- of turns of the observer: one for each notification of the events, in their order, at which
-- nothing else changes.
pub check_events-Steps :
    (w : Wire) (L : LevelDb) (b : Btc) (redeem key : Bytes) (conf : ObConf)
    → conf.has_chan ≡ true
    → (events : List (List Value)) (s : Both w L b redeem key conf) (ob : ObState w L) (n : ℕ)
    → check_events w L conf events s.ob ≡ finished (n, ob)
    → length ob.queue ≤ channel_size
    → Steps w L b redeem key conf s (map noticed (flatten events)) (record s { ob = ob })
unfolding check_events Noticed
check_events-Steps w L b redeem key conf chan events s ob n e room =
    (check_loop-Noticed w L b redeem key conf chan events s ob 0 n e room).0
