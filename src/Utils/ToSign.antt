-- ===== src/Utils/ToSign.antt =====
-- utils/utils.go: ToSignItem with Serialize and Deserialize.
pub mod RoundTrip
pub mod Rejects
use btc_vendor_tools.Base.{ℕ, zero, suc, ◌%◌, ◌^◌, List, [], ◌∷◌, ◌++◌, length, Result, ok, ◌>>=◌}
use btc_vendor_tools.Std.Binary.{Bytes, be, read_be, read_some}
use btc_vendor_tools.Wire.{Wire, MsgTx}

pub record ToSignItem : Type 0 where
  pub mtx : MsgTx
  pub amts : List ℕ

-- The loop of Serialize over the amounts.
unfoldable pub write_amts : List ℕ → Bytes
write_amts [] = []
write_amts (v ∷ vs) = be 8 v ++ write_amts vs

-- A write into a bytes.Buffer does not fail, so the only error is that of BtcEncode.
unfoldable pub serialize : Wire → ToSignItem → Result Bytes
serialize w item = do
  tx ← w.btc_encode item.mtx
  ok (
      be 4 (length tx % 2 ^ 32)
      ++ (tx ++ (be 4 (length item.amts % 2 ^ 32) ++ write_amts item.amts)))

-- The loop of Deserialize over the amounts. What follows them is not looked at.
unfoldable pub read_amts : ℕ → Bytes → Result (List ℕ)
read_amts zero r = ok []
read_amts (suc n) r = do (v, r') ← read_be 8 r; vs ← read_amts n r'; ok (v ∷ vs)

-- On an error the receiver may hold the transaction already; every caller drops it then.
unfoldable pub deserialize : Wire → Bytes → Result ToSignItem
deserialize w buf = do
  (len_tx, r) ← read_be 4 buf
  (raw_tx, r') ← read_some len_tx r
  tx ← w.btc_decode raw_tx
  (len_amts, r'') ← read_be 4 r'
  amts ← read_amts len_amts r''
  ok (record { mtx = tx; amts = amts })
