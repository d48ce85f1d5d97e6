-- ===== src/Config.antt =====
-- config/config.go: Config, and how it is read and saved. The file system and encoding/json are
-- parameters.
pub mod Flags
use btc_vendor_tools.Base.{ℕ, Bool, if◌then◌else◌, storage, Result, ok, err, panic, ◌>>=◌}
use btc_vendor_tools.Std.Binary.{Bytes}
use btc_vendor_tools.Std.Int.{ℤ}

pub record Config : Type 0 where
  pub poly_json_rpc_address : Bytes
  pub wallet_file : Bytes
  pub wallet_pwd : Bytes
  pub btc_wallet_pwd : Bytes
  pub poly_ob_loop_wait_time : ℤ
  pub btc_privk_file : Bytes
  pub watching_key_to_sign : Bytes
  pub config_bitcoin_net : Bytes
  pub config_db_path : Bytes
  pub rest_port : ℕ
  pub sleep_time : ℤ
  pub circle_to_save_height : ℕ
  pub redeem : Bytes
  pub signer_addr : Bytes
  pub ob_server_addr : Bytes
  pub poly_start_height : ℕ
  pub web_server_port : Bytes

-- What config.BtcNetParam points to; nil is `none` of an Option.
pub data Net : Type 0 where
  regtest testnet mainnet : Net

pub record Files : Type 1 where
  pub State : Type 0
  -- What opening and reading a file gives.
  pub read_file : State → Bytes → Result Bytes
  -- Whether ioutil.WriteFile succeeded, and the files after it.
  pub write_file : State → Bytes → Bytes → Bool × State
  pub unmarshal : Bytes → Result Config
  pub marshal_indent : Config → Result Bytes

module _ (F : Files) where
  -- NewConfig, with Init, loadConfig and readFile.
  unfoldable pub new_config : Bytes → F.State → Result Config
  new_config file s = do data_ ← F.read_file s file; F.unmarshal data_

  -- Save.
  unfoldable pub save : Config → Bytes → F.State → Result (Unit {0}) × F.State
  save conf file s = elim (F.marshal_indent conf) [
    | ok data_ ↦
        let (written, s') = F.write_file s file data_ in
        (if written then (ok tt, s') else (err storage, s'))
    | err e ↦ (err e, s)
    | panic ↦ (panic, s)
  ]
