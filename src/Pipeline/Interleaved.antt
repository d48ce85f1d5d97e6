-- ===== src/Pipeline/Interleaved.antt =====
-- cmd/run.go in the mode "all": the goroutines of Listen and of Signing, which share the VendorDB and
-- a channel for 100 items, taking turns in any order.
use btc_vendor_tools.Base.{ℕ, ◌≤◌, ◌≡◌, true, List, [], ◌∷◌, ◌++◌, Option, none, some, length}
use btc_vendor_tools.Std.Binary.{Bytes}
use btc_vendor_tools.Std.Clock.{Time}
use btc_vendor_tools.Wire.{Wire}
use btc_vendor_tools.Btc.{Btc}
use btc_vendor_tools.LevelDb.{LevelDb}
use btc_vendor_tools.Utils.ToSign.{ToSignItem}
use btc_vendor_tools.Signer.{Reply, Verdict, goes_on, Submission, SignerState, sign_next}
use btc_vendor_tools.Run.{finished}
use btc_vendor_tools.Observer.Events.{Value, ObConf, ObState, check_notify}

-- `make(chan *utils.ToSignItem, 100)`.
abbrev pub channel_size : ℕ
channel_size = 100

-- What a goroutine does in one turn: the observer looks at a notification; the signer takes an item
-- from the channel, or is done with the item that it took.
pub data Turn : Type 0 where
  noticed : Value → Turn
  took : Turn
  signed : ToSignItem → Time → Verdict → Turn

-- The notifications that the observer has looked at, and the items that the signer is done with.
abbrev pub notices : List Turn → List Value
notices [] = []
notices (noticed v ∷ turns) = v ∷ notices turns
notices (took ∷ turns) = notices turns
notices (signed item now verdict ∷ turns) = notices turns

abbrev pub handled : List Turn → List ToSignItem
handled [] = []
handled (noticed v ∷ turns) = handled turns
handled (took ∷ turns) = handled turns
handled (signed item now verdict ∷ turns) = item ∷ handled turns

module _ (w : Wire) (L : LevelDb) (b : Btc) (redeem key : Bytes) (conf : ObConf) where
  -- The observer with the shared database and the channel, and the signer with the item in its hand.
  pub record Both : Type 0 where
    pub ob : ObState w L
    pub hand : Option ToSignItem
    pub calls : List Submission
    pub replies : List Reply

  abbrev pub signer_of : Both → SignerState w L b redeem
  signer_of s = record { vdb = s.ob.vdb; calls = s.calls; replies = s.replies }

  abbrev pub in_hand : Option ToSignItem → List ToSignItem
  in_hand none = []
  in_hand (some item) = item ∷ []

  -- The items between the two: in the hand of the signer, and on the channel.
  abbrev pub held : Both → List ToSignItem
  held s = in_hand s.hand ++ s.ob.queue

  -- One turn. A notification touches the channel or the database at most once, and the observer
  -- waits where the channel is full. What the signer does with an item before PutSignedTx
  -- touches nothing that is shared.
  pub data Step (s : Both) : Turn → Both → Type 0 where
    notices_one :
        (v : Value) (c : ℕ) (ob : ObState w L)
        → check_notify w L conf v s.ob ≡ finished (c, ob)
        → length ob.queue ≤ channel_size
        → Step s (noticed v) (record s { ob = ob })
    takes :
        (item : ToSignItem) (rest : List ToSignItem)
        → s.hand ≡ none
        → s.ob.queue ≡ item ∷ rest
        → Step s took (record s { ob = record s.ob { queue = rest }; hand = some item })
    signs :
        (item : ToSignItem) (now : Time) (verdict : Verdict) (after : SignerState w L b redeem)
        → s.hand ≡ some item
        → sign_next w L b redeem key item now (signer_of s) ≡ (verdict, after)
        → goes_on verdict ≡ true
        → Step s (signed item now verdict) (record {
          ob = record s.ob { vdb = after.vdb };
          hand = none;
          calls = after.calls;
          replies = after.replies;
        })

  -- Turns in their order.
  pub data Steps : Both → List Turn → Both → Type 0 where
    stay : {s : Both} → Steps s [] s
    turn :
        {s s1 s' : Both} {t : Turn} {turns : List Turn}
        → Step s t s1
        → Steps s1 turns s'
        → Steps s (t ∷ turns) s'
