-- ===== src/Wire.antt =====
-- What the tool uses of github.com/btcsuite/btcd/wire: the fields of a transaction that it reads or
-- writes, and three functions, which are parameters of the model.
use btc_vendor_tools.Base.{◌<◌, ◌^◌, ◌≡◌, List, Result, ok, length, All}
use btc_vendor_tools.Std.Binary.{Bytes, IsByte}

-- `kept` stands for the fields that the tool only carries along.
pub record TxIn : Type 0 where
  pub kept : Bytes
  pub signature_script : Bytes

pub record MsgTx : Type 0 where
  pub kept : Bytes
  pub tx_in : List TxIn

pub record Wire : Type 0 where
  pub btc_encode : MsgTx → Result Bytes
  pub btc_decode : Bytes → Result MsgTx
  pub tx_hash : MsgTx → Bytes

-- The wire format has the transaction: it is encoded as bytes, and decoded as itself.
pub record IsOnWire (w : Wire) (tx : MsgTx) : Type 0 where
  pub raw : Bytes
  pub encoded : w.btc_encode tx ≡ ok raw
  pub decoded : w.btc_decode raw ≡ ok tx
  pub bytes : All IsByte raw
  pub short : length raw < 2 ^ 31
