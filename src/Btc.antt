-- ===== src/Btc.antt =====
-- What the tool uses of github.com/btcsuite (txscript, btcutil) and of golang.org/x/crypto/ripemd160:
-- parameters of the model. The private key and SigHashAll are the same in every call.
use btc_vendor_tools.Base.{ℕ, Result}
use btc_vendor_tools.Std.Binary.{Bytes}
use btc_vendor_tools.Wire.{MsgTx}

-- The classes that the tool tells apart.
pub data ScriptClass : Type 0 where
  multi_sig script_hash witness_v0_script_hash : ScriptClass
  other_class : ScriptClass

pub record Btc : Type 0 where
  pub get_script_class : Bytes → ScriptClass
  pub hash160 : Bytes → Bytes
  pub ripemd160 : Bytes → Bytes
  -- `RawTxInSignature(tx, i, redeem, …)`.
  pub raw_tx_in_signature : MsgTx → ℕ → Bytes → Result Bytes
  -- `RawTxInWitnessSignature(tx, NewTxSigHashes(tx), i, amt, redeem, …)`; the amount is the 64 bits
  -- that `int64(amt)` keeps.
  pub raw_tx_in_witness_signature : MsgTx → ℕ → ℕ → Bytes → Result Bytes
