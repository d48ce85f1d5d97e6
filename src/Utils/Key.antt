-- ===== src/Utils/Key.antt =====
-- utils/utils.go: GetUtxoKey.
use btc_vendor_tools.Base.{
  ℕ, ◌-◌, leb, if◌then◌else◌, [], length, take, drop, Result, ok, panic, ◌>>=◌,
}
use btc_vendor_tools.Std.Binary.{Bytes}
use btc_vendor_tools.Std.Hex.{hex_encode}
use btc_vendor_tools.Btc.{
  Btc, ScriptClass, multi_sig, script_hash, witness_v0_script_hash, other_class,
}

-- `s[lo:hi]`.
unfoldable pub slice : ℕ → ℕ → Bytes → Result Bytes
slice lo hi s = if leb hi (length s) then ok (take (hi - lo) (drop lo s)) else panic

abbrev utxo_key_of : Btc → Bytes → ScriptClass → Result Bytes
utxo_key_of b script_pk multi_sig = ok (hex_encode (b.hash160 script_pk))
utxo_key_of b script_pk script_hash = do h ← slice 2 22 script_pk; ok (hex_encode h)
utxo_key_of b script_pk witness_v0_script_hash = do
  h ← slice 2 34 script_pk
  ok (hex_encode (b.ripemd160 h))
utxo_key_of b script_pk other_class = ok []

unfoldable pub get_utxo_key : Btc → Bytes → Result Bytes
unfolding slice
get_utxo_key b script_pk = utxo_key_of b script_pk (b.get_script_class script_pk)
