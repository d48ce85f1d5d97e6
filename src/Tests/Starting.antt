-- ===== src/Tests/Starting.antt =====
-- Starts of the tool at concrete inputs.
use btc_vendor_tools.Base.{◌≡◌, refl, true, false, [], ◌∷◌, none, some, ok, bytes_eq}
use btc_vendor_tools.Std.Binary.{Bytes}
use btc_vendor_tools.Std.Hex.{hex_encode, hex_decode}
use btc_vendor_tools.Std.Int.{pos}
use btc_vendor_tools.Std.Text.{codes}
use btc_vendor_tools.Db.{new_vendor_db, get_total_tx_num}
use btc_vendor_tools.Observer.Setup.{Observer, new_observer}
use btc_vendor_tools.Utils.Key.{get_utxo_key}
use btc_vendor_tools.Config.{Config, Files, new_config, save, testnet}
use btc_vendor_tools.Web.Service.{get_key}
use btc_vendor_tools.Web.Router.{Backend, Server}
use btc_vendor_tools.Start.{
  going, Flags, observing, signing, World, configure, net_named, start_services, start_signer,
  start_observer, Running, run,
}
use btc_vendor_tools.Start.Configured.{IsPassword, Configured}
use btc_vendor_tools.Start.Modes.{InMode, run_services}
use btc_vendor_tools.Tests.Toy.{wire, store, btc, empty_db}
use btc_vendor_tools.Tests.Paging.{sdk, conf, web}
use btc_vendor_tools.Tests.Setting.{chain, scripts, keys}

abbrev pub backend : Backend
backend = record { sdk = sdk; chain = chain; scripts = scripts; keys = keys }

abbrev server : Server backend
server = record { st = web; wallets = []; done = false }

-- One file, which holds the Config.
abbrev pub files : Files
files = record {
  State = Config;
  read_file = λ s file. ok file;
  write_file = λ s file data_. (true, s);
  unmarshal = λ data_. ok conf;
  marshal_indent = λ c. ok [];
}

abbrev pub world : World wire store btc files backend
world = record {
  files = conf;
  open_file = λ path. ok [];
  wallets = [];
  posts = [];
  poly_typed = ok [];
  btc_typed = ok (codes "t");
}

abbrev pub flags : Flags
flags = record {
  config_file = codes "conf.json";
  mode = codes "all";
  web = pos 0;
  poly_wallet_pwd = [];
  btc_wallet_pwd = [];
}

abbrev pub observer : Observer
observer = record {
  has_chan = true;
  loop_wait_time = conf.poly_ob_loop_wait_time;
  watching_key_to_sign = conf.watching_key_to_sign;
  hash_key = codes "09";
  db_path = conf.config_db_path;
  waiting_circle = conf.circle_to_save_height;
  ob_cli = none;
  start_height = conf.poly_start_height;
}

abbrev pub running : Running wire store btc files backend
running = record {
  settings = record { conf = conf; net = some testnet };
  vdb = empty_db;
  sleep_time = pos 10;
  services = observing observer ∷ signing ∷ [];
  files = conf;
}

pub runs : run wire store btc files backend flags world ≡ going running
unfolding run configure net_named start_services get_key start_signer start_observer new_observer
    new_config save new_vendor_db get_total_tx_num get_utxo_key hex_decode hex_encode bytes_eq
runs = refl

run_services_example :
    (c : Config) × (new_config files (codes "conf.json") conf ≡ ok c)
    × ((d : store.State) × (world.open_file c.config_db_path ≡ ok d)
        × (new_vendor_db wire store d ≡ ok empty_db))
    × Configured wire store btc files backend flags world c running.settings conf
    × ((rb : Bytes) × (opwd : Bytes) × (bpwd : Bytes) × (hex_decode conf.redeem ≡ ok rb)
        × IsPassword [] conf.wallet_pwd world.poly_typed opwd
        × IsPassword [] conf.btc_wallet_pwd world.btc_typed bpwd
        × InMode wire store btc files backend running.settings rb opwd bpwd
            (codes "all")
            running.services)
run_services_example = run_services wire store btc files backend flags world running runs
