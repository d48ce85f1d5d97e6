-- ===== src/Signer.antt =====
-- signer/signer.go: Signer. What Poly answers to BtcMultiSign is a list of replies, one for a call;
-- where the list ends, the signer still waits for its next reply.
pub mod Sigs
pub mod Submit
pub mod Saves
pub mod Stored
pub mod Drains
use btc_vendor_tools.Base.{
  if◌then◌else◌, ℕ, suc, ◌+◌, Bool, true, false, List, [], ◌∷◌, ◌++◌, map, replicate, Option, none,
  some, get_elem?, Error, bad_input_class, sign_failed, refused, Result, ok, err, panic, ◌>>=◌,
}
use btc_vendor_tools.Std.Binary.{Bytes}
use btc_vendor_tools.Std.Clock.{Time}
use btc_vendor_tools.Wire.{Wire, MsgTx, TxIn}
use btc_vendor_tools.Btc.{
  Btc, ScriptClass, multi_sig, script_hash, witness_v0_script_hash, other_class,
}
use btc_vendor_tools.LevelDb.{LevelDb}
use btc_vendor_tools.Utils.ToSign.{ToSignItem}
use btc_vendor_tools.Utils.Saved.{SavedItem}
use btc_vendor_tools.Utils.Key.{get_utxo_key}
use btc_vendor_tools.Db.{VendorDb, put_signed_tx}

-- `SignatureScript = nil` on every input.
abbrev pub unsigned_in : TxIn → TxIn
unsigned_in txin = record txin { signature_script = [] }

unfoldable pub clear_scripts : MsgTx → MsgTx
clear_scripts tx = record tx { tx_in = map unsigned_in tx.tx_in }

abbrev pub cleared : ToSignItem → ToSignItem
cleared item = record item { mtx = clear_scripts item.mtx }

abbrev pub pk_scripts : MsgTx → List Bytes
pk_scripts tx = map (λ txin. txin.signature_script) tx.tx_in

-- The error of txscript, wrapped.
abbrev wrap : Result Bytes → Result Bytes
wrap (ok sig) = ok sig
wrap (err e) = err sign_failed
wrap panic = panic

module _ (b : Btc) (redeem : Bytes) where
  -- `item.Amts[i]` out of range is a panic.
  abbrev sign_witness : MsgTx → ℕ → Option ℕ → Result Bytes
  sign_witness tx i none = panic
  sign_witness tx i (some amt) = wrap (b.raw_tx_in_witness_signature tx i amt redeem)

  abbrev sign_as : MsgTx → List ℕ → ℕ → ScriptClass → Result Bytes
  sign_as tx amts i multi_sig = wrap (b.raw_tx_in_signature tx i redeem)
  sign_as tx amts i script_hash = wrap (b.raw_tx_in_signature tx i redeem)
  sign_as tx amts i witness_v0_script_hash = sign_witness tx i (get_elem? amts i)
  sign_as tx amts i other_class = err bad_input_class

  -- One round of the second loop of getSigs.
  unfoldable pub sign_input : MsgTx → List ℕ → ℕ → Bytes → Result Bytes
  sign_input tx amts i pks = sign_as tx amts i (b.get_script_class pks)

  unfoldable pub sign_inputs : MsgTx → List ℕ → ℕ → List Bytes → Result (List Bytes)
  unfolding sign_input
  sign_inputs tx amts i [] = ok []
  sign_inputs tx amts i (pks ∷ rest) = do
    sig ← sign_input tx amts i pks
    sigs ← sign_inputs tx amts (i + 1) rest
    ok (sig ∷ sigs)

  -- The item, which the caller shares, has lost its scripts whatever comes out.
  unfoldable pub get_sigs : ToSignItem → Result (List Bytes) × ToSignItem
  unfolding sign_inputs
  get_sigs item =
      (sign_inputs (clear_scripts item.mtx) item.amts 0 (pk_scripts item.mtx), cleared item)

-- What BtcMultiSign answers: a transaction id, a client.PostErr, or any other error.
pub data Reply : Type 0 where
  accepted : Bytes → Reply
  post_failed : Reply
  rejected : Reply

pub data Verdict : Type 0 where
  done : Bytes → Verdict
  failed : Verdict
  waiting : Verdict
  crashed : Verdict

-- The arguments of BtcMultiSign that depend on the item.
pub record Submission : Type 0 where
  pub key : Bytes
  pub tx_hash : Bytes
  pub sigs : List Bytes

abbrev pub submission : Wire → Bytes → ToSignItem → List Bytes → Submission
submission w key item sigs = record { key = key; tx_hash = w.tx_hash item.mtx; sigs = sigs }

-- How the retry loop ends, the calls that it made, and the replies that it left.
pub record Attempt : Type 0 where
  pub verdict : Verdict
  pub calls : List Submission
  pub replies : List Reply

-- `RETRY:` goes back to the call on a PostErr, and on nothing else.
unfoldable pub submit : Submission → List Reply → Attempt
submit s [] = record { verdict = waiting; calls = []; replies = [] }
submit s (accepted txid ∷ rs) = record { verdict = done txid; calls = s ∷ []; replies = rs }
submit s (rejected ∷ rs) = record { verdict = failed; calls = s ∷ []; replies = rs }
submit s (post_failed ∷ rs) =
    let again = submit s rs in
    record { verdict = again.verdict; calls = s ∷ again.calls; replies = again.replies }

-- Whether Signing goes on with the next item.
abbrev pub goes_on : Verdict → Bool
goes_on (done txid) = true
goes_on failed = true
goes_on waiting = false
goes_on crashed = false

module _ (w : Wire) (L : LevelDb) (b : Btc) (redeem : Bytes) where
  -- The signer, the database that it shares with the observer, and Poly.
  pub record SignerState : Type 0 where
    pub vdb : VendorDb L.State
    pub calls : List Submission
    pub replies : List Reply

  -- The item as it is put away: its scripts are gone, and so is their part of the hash.
  abbrev pub saved_item : ToSignItem → Time → SavedItem
  saved_item item now = record { item = cleared item; time_received = now; done = false }

  abbrev after_verdict : ToSignItem → Time → Verdict → VendorDb L.State → VendorDb L.State
  after_verdict item now (done txid) vdb =
      (put_signed_tx w L (w.tx_hash (clear_scripts (clear_scripts item.mtx))) (saved_item item now)
        vdb).1
  after_verdict item now failed vdb = vdb
  after_verdict item now waiting vdb = vdb
  after_verdict item now crashed vdb = vdb

  -- One item of Signing, with the key of the redeem script and the time: how it ends, and the state.
  -- An error of getSigs ends it before any call; an error of PutSignedTx is logged only.
  unfoldable pub sign_next : Bytes → ToSignItem → Time → SignerState → Verdict × SignerState
  sign_next key item now s =
      let (sigs, item') = get_sigs b redeem item in
      elim sigs [
        | err e ↦ (failed, s)
        | panic ↦ (crashed, s)
        | ok sigs' ↦
            let a = submit (submission w key item sigs') s.replies in
            (
              a.verdict,
              record {
                vdb = after_verdict item now a.verdict s.vdb;
                calls = s.calls ++ a.calls;
                replies = a.replies;
              },
            )
      ]

  -- Signing over the items of the channel, each with the time when it is put away.
  unfoldable pub signing_loop :
      Bytes → List (ToSignItem × Time) → SignerState → List Verdict × SignerState
  signing_loop key [] s = ([], s)
  signing_loop key ((item, now) ∷ rest) s =
      let (v, s') = sign_next key item now s in
      let more = signing_loop key rest s' in
      if goes_on v then (v ∷ more.0, more.1) else (v ∷ [], s')

  unfoldable pub signing :
      List (ToSignItem × Time) → SignerState → Result (List Verdict × SignerState)
  signing items s = do key ← get_utxo_key b redeem; ok (signing_loop key items s)

  -- Sign, for the REST service: nothing is put away.
  unfoldable pub sign : ToSignItem → List Reply → Attempt
  sign item replies = elim (get_utxo_key b redeem) [
    | ok key ↦ (elim (get_sigs b redeem item).0 [
      | ok sigs ↦ submit (submission w key item sigs) replies
      | err e ↦ record { verdict = failed; calls = []; replies = replies }
      | panic ↦ record { verdict = crashed; calls = []; replies = replies }
    ])
    | err e ↦ record { verdict = crashed; calls = []; replies = replies }
    | panic ↦ record { verdict = crashed; calls = []; replies = replies }
  ]
