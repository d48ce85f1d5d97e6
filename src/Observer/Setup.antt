-- ===== src/Observer/Setup.antt =====
-- observer/alliaob.go: NewObserver.
use btc_vendor_tools.Base.{ℕ, Bool, true, false, Option, none, some, Result, ok, ◌>>=◌}
use btc_vendor_tools.Std.Binary.{Bytes}
use btc_vendor_tools.Std.Int.{ℤ}
use btc_vendor_tools.Btc.{Btc}
use btc_vendor_tools.Utils.Key.{get_utxo_key}
use btc_vendor_tools.Observer.Events.{ObConf}

-- The fields besides the client of Poly and the database, which it shares; `has_chan` says that the
-- channel is not nil, and `ob_cli` is the address of the ObCli.
pub record Observer : Type 0 where
  pub has_chan : Bool
  pub loop_wait_time : ℤ
  pub watching_key_to_sign : Bytes
  pub hash_key : Bytes
  pub db_path : Bytes
  pub waiting_circle : ℕ
  pub ob_cli : Option Bytes
  pub start_height : ℕ

-- `func(txchan …) *ObCli`.
abbrev pub new_ob_cli : Bool → Bytes → Option Bytes
new_ob_cli true signer_addr = none
new_ob_cli false signer_addr = some signer_addr

unfoldable pub new_observer :
    Btc
    → (has_chan : Bool) (loop_wait_time : ℤ)
      (redeem watching_key_to_sign db_path signer_addr : Bytes) (circle start_height : ℕ)
    → Result Observer
new_observer b has_chan loop_wait_time redeem watching_key_to_sign db_path signer_addr circle
      start_height =
    do
      key ← get_utxo_key b redeem
      ok (record {
        has_chan = has_chan;
        loop_wait_time = loop_wait_time;
        watching_key_to_sign = watching_key_to_sign;
        hash_key = key;
        db_path = db_path;
        waiting_circle = circle;
        ob_cli = new_ob_cli has_chan signer_addr;
        start_height = start_height;
      })

-- What Listen and checkEvents read of it.
abbrev pub conf_of : Observer → ObConf
conf_of ob = record {
  hash_key = ob.hash_key;
  has_chan = ob.has_chan;
  waiting_circle = ob.waiting_circle;
  start_height = ob.start_height;
}
