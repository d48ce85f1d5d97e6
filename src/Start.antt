-- ===== src/Start.antt =====
-- cmd/run.go: what a start of the tool runs. leveldb, the terminal, the files and the web pages are
-- parameters.
pub mod Observing
pub mod Configured
pub mod Modes
pub mod Browsing
pub mod Main
use btc_vendor_tools.Base.{
  ℕ, Bool, true, false, List, [], ◌∷◌, Option, none, some, bytes_eq, if◌then◌else◌, ◌==◌, Error,
  Result, ok, err, panic,
}
use btc_vendor_tools.Std.Binary.{Bytes}
use btc_vendor_tools.Std.Hex.{hex_decode}
use btc_vendor_tools.Std.Int.{ℤ, positive_product, is_positive}
use btc_vendor_tools.Std.Text.{codes}
use btc_vendor_tools.Wire.{Wire}
use btc_vendor_tools.Btc.{Btc}
use btc_vendor_tools.LevelDb.{LevelDb}
use btc_vendor_tools.Db.{VendorDb, new_vendor_db}
use btc_vendor_tools.Observer.Setup.{Observer, new_observer}
use btc_vendor_tools.Config.{Config, Net, regtest, testnet, mainnet, Files, new_config, save}
use btc_vendor_tools.Web.Service.{get_account_by_password, get_key}
use btc_vendor_tools.Web.Pages.{Form}
use btc_vendor_tools.Web.Controller.{WebState}
use btc_vendor_tools.Web.Router.{Backend, Server, Reply, replied, not_found, panicked, serve_post}

-- A start goes on, or ends the process with os.Exit(1) or a panic, or waits for the web pages.
pub data Start {ℓ} (A : Type ℓ) : Type ℓ where
  going : A → Start A
  exited : Start A
  aborted : Start A
  waits : Start A

infixl 5 ◌>>=◌
abbrev pub ◌>>=◌ {ℓ κ} : {A : Type ℓ} {B : Type κ} → Start A → (A → Start B) → Start B
going a >>= f = f a
exited >>= f = exited
aborted >>= f = aborted
waits >>= f = waits

-- `if err != nil { log.Fatalf(…); os.Exit(1) }`.
abbrev pub or_exit {ℓ} : {A : Type ℓ} → Result A → Start A
or_exit (ok a) = going a
or_exit (err e) = exited
or_exit panic = aborted

-- `if err != nil { panic(err) }`.
abbrev pub or_abort {ℓ} : {A : Type ℓ} → Result A → Start A
or_abort (ok a) = going a
or_abort _ = aborted

-- The flags of config/flags.go that run reads.
pub record Flags : Type 0 where
  pub config_file : Bytes
  pub mode : Bytes
  pub web : ℤ
  pub poly_wallet_pwd : Bytes
  pub btc_wallet_pwd : Bytes

-- What runs besides the web server.
pub data Service : Type 0 where
  -- Listen.
  observing : Observer → Service
  -- Signing.
  signing : Service
  -- The REST server, on a port and for the requests of a host.
  serving : (port : ℕ) (cli_addr : Bytes) → Service

abbrev pub is_web : ℤ → Bool
is_web (ℤ.pos n) = n == 1
is_web (ℤ.negsuc n) = false

-- The switch over the net without the web pages; any other name ends the process.
unfoldable pub net_named : Bytes → Start Net
net_named nt =
    if bytes_eq nt (codes "regtest")
    then going regtest
    else if bytes_eq nt (codes "test")
    then going testnet
    else if bytes_eq nt (codes "main")
    then going mainnet
    else exited

-- A password: the flag, or what is typed if the Config has none, or that of the Config.
abbrev pub password : Bytes → Bytes → Result Bytes → Start Bytes
password (c ∷ cs) conf_pwd typed = going (c ∷ cs)
password [] [] typed = or_exit typed
password [] (c ∷ cs) typed = going (c ∷ cs)

module _ (b : Backend) where
  -- A post of a browser, with what the key generator draws for it.
  pub record Post : Type 0 where
    pub drawn : Result Bytes
    pub path : Bytes
    pub form : Form

  -- After a page, and also after a panic of a handler, from which gin.Default() recovers, the wait
  -- goes on.
  abbrev pub browse_on : (Server b → Start (Server b)) → Reply b → Start (Server b)
  browse_on f (replied page s) = f s
  browse_on f (not_found s) = f s
  browse_on f (panicked s) = f s

  -- `<-done`: the posts until the channel is closed.
  unfoldable pub browse : List Post → Server b → Start (Server b)
  browse [] s = if s.done then going s else waits
  browse (p ∷ ps) s =
      let more = browse_on (browse ps) (serve_post b p.drawn p.path p.form s) in
      if s.done then going s else more

module _ (w : Wire) (L : LevelDb) (btc : Btc) (F : Files) (b : Backend) where
  -- What a start meets outside.
  pub record World : Type 0 where
    pub files : F.State
    pub open_file : Bytes → Result L.State
    pub wallets : b.keys.Wallets
    pub posts : List (Post b)
    pub poly_typed : Result Bytes
    pub btc_typed : Result Bytes

  -- The Config, BtcNetParam and the client when the services start.
  pub record Settings : Type 0 where
    pub conf : Config
    pub net : Option Net

  -- The web pages, or the net of the Config and SetUpPoly.
  unfoldable pub configure : Flags → World → Config → Start (Settings × F.State)
  unfolding browse net_named
  configure flags world conf =
      let first : Server b = record {
        st = record { conf = conf; acc = none; rpc = none; chain_id = 0; net = none; calls = [] };
        wallets = world.wallets;
        done = false;
      } in
      let (_, files) = save F conf (codes "./config/conf.json") world.files in
      let by_web = (do
        s ← browse b world.posts first
        let (_, files') = save F s.st.conf flags.config_file files
        going (record { conf = s.st.conf; net = s.st.net }, files')) in
      let by_file = (do
        net ← net_named conf.config_bitcoin_net
        id ← or_abort (b.chain.genesis_chain_id conf.poly_json_rpc_address)
        going (record { conf = conf; net = some net }, files)) in
      if is_web flags.web then by_web else by_file

  -- startSigner, with NewSigner.
  unfoldable pub start_signer : Settings → (opwd bpwd : Bytes) → Result (Unit {0})
  start_signer s opwd bpwd = elim (get_account_by_password b.sdk s.conf.wallet_file opwd) [
    | err e ↦ err e
    | panic ↦ panic
    | ok acct ↦ (elim (get_key b.sdk s.conf.btc_privk_file bpwd) [
      | err e ↦ err e
      | panic ↦ panic
      | ok privk ↦ (elim (b.keys.new_address_pub_key s.net (b.keys.compressed_pub_key privk)) [
        | err e ↦ err e
        | panic ↦ panic
        | ok addr ↦ ok tt
      ])
    ])
  ]

  -- `time.NewTicker(time.Second * time.Duration(ob.loopWaitTime))` of Listen, which panics on what is
  -- not positive and so ends the process.
  abbrev pub ticker : ℤ → Start (Unit {0})
  ticker wait = if positive_product 1000000000 wait then going tt else aborted

  -- startObserver, and Listen as far as its ticker.
  unfoldable pub start_observer : Settings → Bool → Bytes → Start Service
  unfolding new_observer
  start_observer s channel rb = do
    ob ← or_exit (
        new_observer btc channel s.conf.poly_ob_loop_wait_time rb s.conf.watching_key_to_sign
          s.conf.config_db_path s.conf.signer_addr s.conf.circle_to_save_height
          s.conf.poly_start_height)
    ticks ← ticker ob.loop_wait_time
    going (observing ob)

  -- The switch over the mode.
  unfoldable pub start_services : Bytes → Settings → (rb opwd bpwd : Bytes) → Start (List Service)
  unfolding start_signer start_observer
  start_services mode s rb opwd bpwd =
      let all = (do
        ob ← start_observer s true rb
        signer ← or_exit (start_signer s opwd bpwd)
        going (ob ∷ signing ∷ [])) in
      let onlyob = (do ob ← start_observer s false rb; going (ob ∷ [])) in
      let onlysig = (do
        signer ← or_exit (start_signer s opwd bpwd)
        going (serving s.conf.rest_port s.conf.ob_server_addr ∷ [])) in
      if bytes_eq mode (codes "all")
      then all
      else if bytes_eq mode (codes "onlyob")
      then onlyob
      else if bytes_eq mode (codes "onlysig")
      then onlysig
      else exited

  -- A start that runs on, with its database and the sleep time in seconds.
  pub record Running : Type 0 where
    pub settings : Settings
    pub vdb : VendorDb L.State
    pub sleep_time : ℤ
    pub services : List Service
    pub files : F.State

  unfoldable pub run : Flags → World → Start Running
  unfolding configure start_services
  run flags world = do
    conf ← or_exit (new_config F flags.config_file world.files)
    d ← or_exit (world.open_file conf.config_db_path)
    vdb ← or_exit (new_vendor_db w L d)
    (s, files) ← configure flags world conf
    opwd ← password flags.poly_wallet_pwd s.conf.wallet_pwd world.poly_typed
    bpwd ← password flags.btc_wallet_pwd s.conf.btc_wallet_pwd world.btc_typed
    rb ← or_exit (hex_decode s.conf.redeem)
    services ← start_services flags.mode s rb opwd bpwd
    going (record {
      settings = s;
      vdb = vdb;
      sleep_time = if is_positive conf.sleep_time then conf.sleep_time else ℤ.pos 10;
      services = services;
      files = files;
    })
