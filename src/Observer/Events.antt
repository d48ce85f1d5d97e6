-- ===== src/Observer/Events.antt =====
-- observer/alliaob.go: checkEvents.
pub mod Requests
pub mod Captures
pub mod Finishes
pub mod Keeps
use btc_vendor_tools.Base.{
  ℕ, zero, suc, ◌+◌, Bool, true, false, List, [], ◌∷◌, ◌++◌, map, Option, none, some, bytes_eq,
  if◌then◌else◌, Result, ok, err, panic,
}
use btc_vendor_tools.Std.Binary.{Bytes}
use btc_vendor_tools.Std.Hex.{hex_decode}
use btc_vendor_tools.Std.Text.{codes}
use btc_vendor_tools.Wire.{Wire, MsgTx}
use btc_vendor_tools.LevelDb.{LevelDb}
use btc_vendor_tools.Utils.ToSign.{ToSignItem}
use btc_vendor_tools.Db.{VendorDb, set_tx_done}
use btc_vendor_tools.Signer.{clear_scripts}
use btc_vendor_tools.Run.{Run, finished, crashed, waiting, ◌>>=◌}
use btc_vendor_tools.Observer.Client.{Answer, Sending, request, send_loop}

-- An interface{} as encoding/json makes it. `number` holds what `uint64(v)` makes of a float64, and
-- `other` stands for null, the booleans and the objects.
mutual
  pub data Value : Type 0 where
    text : Bytes → Value
    number : ℕ → Value
    list : Values → Value
    other : Value

  pub data Values : Type 0 where
    nil : Values
    cons : Value → Values → Values

-- utils/utils.go.
abbrev pub signed_tx_key : Bytes
signed_tx_key = codes "btcTxToRelay"

abbrev pub to_sign_tx_key : Bytes
to_sign_tx_key = codes "makeBtcTx"

-- `states[i]`.
abbrev pub at : Values → ℕ → Option Value
at nil i = none
at (cons v vs) zero = some v
at (cons v vs) (suc i) = at vs i

-- `.(string)`, unchecked.
abbrev pub as_text : Option Value → Run Bytes
as_text (some (text s)) = finished s
as_text _ = crashed

abbrev pub text_at : Values → ℕ → Run Bytes
text_at states i = as_text (at states i)

-- The loop over `states[3].([]interface{})`, each element a float64.
abbrev pub numbers : Values → Run (List ℕ)
numbers nil = finished []
numbers (cons (number v) vs) = do rest ← numbers vs; finished (v ∷ rest)
numbers (cons v vs) = crashed

abbrev pub as_numbers : Option Value → Run (List ℕ)
as_numbers (some (list vs)) = numbers vs
as_numbers _ = crashed

-- The observer's constants. `has_chan` says that `txchan` is not nil.
pub record ObConf : Type 0 where
  pub hash_key : Bytes
  pub has_chan : Bool
  pub waiting_circle : ℕ
  pub start_height : ℕ

-- `hex.DecodeString` and BtcDecode; an error of either is logged, and the event is passed over.
unfoldable pub decode_tx : Wire → Bytes → Run (Option MsgTx)
decode_tx w s = elim (hex_decode s) [
  | ok txb ↦ (elim (w.btc_decode txb) [
    | ok mtx ↦ finished (some mtx)
    | err _ ↦ finished none
    | panic ↦ crashed
  ])
  | err _ ↦ finished none
  | panic ↦ crashed
]

module _ (w : Wire) (L : LevelDb) where
  -- What checkEvents changes: the database, the channel to the signer, and, without a channel, the
  -- requests posted and the answers still to come.
  pub record ObState : Type 0 where
    pub vdb : VendorDb L.State
    pub queue : List ToSignItem
    pub posted : List Bytes
    pub answers : List Answer

  abbrev after_sending : ObState → Sending → Run ObState
  after_sending st s =
      if s.ended
      then finished (record st { posted = st.posted ++ s.posted; answers = s.answers })
      else waiting

  -- An item whose request cannot be built is tried for ever.
  abbrev post_item : ObState → Result Bytes → Run ObState
  post_item st (ok req) = after_sending st (send_loop req st.answers)
  post_item st (err e) = waiting
  post_item st panic = crashed

  -- A send on the channel, or a POST. That the send waits for room is in Pipeline/Interleaved.
  unfoldable pub deliver : ObConf → ToSignItem → ObState → Run ObState
  deliver conf item st =
      if conf.has_chan
      then finished (record st { queue = st.queue ++ item ∷ [] })
      else post_item st (request w item)

  abbrev capture : ObConf → Values → ObState → Option MsgTx → Run (ℕ × ObState)
  capture conf states st none = finished (0, st)
  capture conf states st (some mtx) = do
    amts ← as_numbers (at states 3)
    st' ← deliver conf (record { mtx = mtx; amts = amts }) st
    finished (1, st')

  -- The branch of TO_SIGN_TX_KEY, with what it adds to toSign.
  unfoldable pub check_to_sign : ObConf → Values → ObState → Run (ℕ × ObState)
  unfolding decode_tx deliver
  check_to_sign conf states st = do
    key ← text_at states 1
    let branch = (do raw ← text_at states 2; m ← decode_tx w raw; capture conf states st m)
    if bytes_eq key conf.hash_key then branch else finished (0, st)

  -- An error of SetTxDone is logged only; its state remains.
  abbrev mark : ObState → Option MsgTx → ObState
  mark st none = st
  mark st (some mtx) = record st {
    vdb = (set_tx_done w L (w.tx_hash (clear_scripts mtx)) st.vdb).1;
  }

  -- The branch of SIGNED_TX_KEY.
  unfoldable pub check_signed : ObConf → Values → ObState → Run (ℕ × ObState)
  unfolding decode_tx
  check_signed conf states st = do
    key ← text_at states 5
    let branch = (do raw ← text_at states 3; m ← decode_tx w raw; finished (0, mark st m))
    if bytes_eq key conf.hash_key then branch else finished (0, st)

  abbrev check_name : ObConf → Values → ObState → Option Value → Run (ℕ × ObState)
  check_name conf states st none = crashed
  check_name conf states st (some (text name)) =
      if bytes_eq name to_sign_tx_key
      then check_to_sign conf states st
      else if bytes_eq name signed_tx_key
      then check_signed conf states st
      else finished (0, st)
  check_name conf states st (some v) = finished (0, st)

  -- One notification; States that are no list are passed over.
  unfoldable pub check_notify : ObConf → Value → ObState → Run (ℕ × ObState)
  check_notify conf (list states) st = check_name conf states st (at states 0)
  check_notify conf v st = finished (0, st)

  unfoldable pub check_notifies : ObConf → List Value → ℕ → ObState → Run (ℕ × ObState)
  check_notifies conf [] to_sign st = finished (to_sign, st)
  check_notifies conf (n ∷ rest) to_sign st = do
    (c, st') ← check_notify conf n st
    check_notifies conf rest (to_sign + c) st'

  unfoldable pub check_loop : ObConf → List (List Value) → ℕ → ObState → Run (ℕ × ObState)
  check_loop conf [] to_sign st = finished (to_sign, st)
  check_loop conf (e ∷ rest) to_sign st = do
    (to_sign', st') ← check_notifies conf e to_sign st
    check_loop conf rest to_sign' st'

  -- An event is the list of the States of its notifications.
  unfoldable pub check_events : ObConf → List (List Value) → ObState → Run (ℕ × ObState)
  unfolding check_loop
  check_events conf events st = check_loop conf events 0 st
