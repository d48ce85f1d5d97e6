-- ===== src/Start/Modes.antt =====
-- cmd/run.go: which services run in each mode.
use btc_vendor_tools.Base.{
  ◌≡◌, inl, inr, true, false, List, [], ◌∷◌, bytes_eq, eq_of_bytes_eq, if_cases, ok, refl, Result,
  err, panic, sym, arith, >>=-eq-ok,
}
use btc_vendor_tools.Std.Binary.{Bytes}
use btc_vendor_tools.Std.Hex.{hex_decode}
use btc_vendor_tools.Std.Text.{codes}
use btc_vendor_tools.Wire.{Wire}
use btc_vendor_tools.Btc.{Btc}
use btc_vendor_tools.LevelDb.{LevelDb}
use btc_vendor_tools.Db.{new_vendor_db}
use btc_vendor_tools.Observer.Setup.{Observer}
use btc_vendor_tools.Config.{Config, Files, new_config}
use btc_vendor_tools.Web.Service.{get_account_by_password, get_key}
use btc_vendor_tools.Web.Router.{Backend}
use btc_vendor_tools.Start.{
  Start, going, ◌>>=◌, or_exit, password, Flags, Service, observing, signing, serving, World,
  Settings, configure, start_signer, start_observer, start_services, Running, run,
}
use btc_vendor_tools.Start.Observing.{
  >>=-eq-going, or_exit-going, going_eq, Observes, start_observer-going,
}
use btc_vendor_tools.Start.Configured.{
  IsPassword, password-IsPassword, Configured, configure-Configured,
}

bytes_ok_eq : {a a' : Bytes} → ◌≡◌ {A = Result Bytes} (ok a) (ok a') → a ≡ a'
bytes_ok_eq e = ground arith

-- The steps of startSigner.
step_ok {ℓ κ} :
    {A : Type ℓ} {B : Type κ} (m : Result A) (f : A → Result B) {b : B}
    → ◌≡◌ {A = Result B} (elim m [ err e ↦ err e | panic ↦ panic | ok a ↦ f a ]) (ok b)
    → (a : A) × (m ≡ ok a) × (f a ≡ ok b)
step_ok (ok a) f e = (a, refl, e)
step_ok (err x) f e = cc e
step_ok panic f e = cc e

module _ (w : Wire) (L : LevelDb) (btc : Btc) (F : Files) (b : Backend) where
  module _ (s : Settings w L btc F b) (rb opwd bpwd : Bytes) where
    -- The signer has an account of the wallet for Poly and one of the wallet for Bitcoin, each opened
    -- with its password, and the public key of the second one has an address.
    pub record Signs : Type 0 where
      pub wallet : Bytes
      pub acct : Bytes
      pub btc_wallet : Bytes
      pub btc_acct : Bytes
      pub addr : Bytes
      pub opens : b.sdk.open_wallet s.conf.wallet_file ≡ ok wallet
      pub account : b.sdk.get_default_account wallet opwd ≡ ok acct
      pub btc_opens : b.sdk.open_wallet s.conf.btc_privk_file ≡ ok btc_wallet
      pub btc_account : b.sdk.get_default_account btc_wallet bpwd ≡ ok btc_acct
      pub address :
          b.keys.new_address_pub_key s.net
            (b.keys.compressed_pub_key (b.sdk.get_private_key btc_acct))
          ≡ ok addr

    start_signer-Signs : {done : Unit {0}} → start_signer w L btc F b s opwd bpwd ≡ ok done → Signs
    unfolding start_signer get_key
    start_signer-Signs e =
        let (acct, acct_, e1) =
          step_ok (get_account_by_password b.sdk s.conf.wallet_file opwd) _ e in
        let (key, key_, e2) = step_ok (get_key b.sdk s.conf.btc_privk_file bpwd) _ e1 in
        let (addr, addr_, e3) =
          step_ok (b.keys.new_address_pub_key s.net (b.keys.compressed_pub_key key)) _ e2 in
        let (wallet, opens, a1) = >>=-eq-ok (b.sdk.open_wallet s.conf.wallet_file) _ acct_ in
        let (btc_acct, btc_, k1) =
          >>=-eq-ok (get_account_by_password b.sdk s.conf.btc_privk_file bpwd) _ key_ in
        let (btc_wallet, btc_opens, b1) =
          >>=-eq-ok (b.sdk.open_wallet s.conf.btc_privk_file) _ btc_ in
        let is_key : key ≡ b.sdk.get_private_key btc_acct = bytes_ok_eq (sym k1) in
        record {
          wallet = wallet;
          acct = acct;
          btc_wallet = btc_wallet;
          btc_acct = btc_acct;
          addr = addr;
          opens = opens;
          account = a1;
          btc_opens = btc_opens;
          btc_account = b1;
          address = rw is_key at addr_;
        }

    -- The services of a mode.
    pub data InMode : Bytes → List Service → Type 0 where
      all :
          (ob : Observer)
          → Observes w L btc F b s rb true ob
          → Signs
          → InMode (codes "all") (observing ob ∷ signing ∷ [])
      onlyob :
          (ob : Observer)
          → Observes w L btc F b s rb false ob
          → InMode (codes "onlyob") (observing ob ∷ [])
      onlysig :
          Signs → InMode (codes "onlysig") (serving s.conf.rest_port s.conf.ob_server_addr ∷ [])

    abbrev signer_started : Start (Unit {0})
    signer_started = or_exit (start_signer w L btc F b s opwd bpwd)

    all_services :
        (services : List Service)
        → (start_observer w L btc F b s true rb >>= λ ob.
            signer_started >>= λ signer. going (ob ∷ signing ∷ []))
          ≡ going services
        → InMode (codes "all") services
    all_services services e =
        let (ob, ob_, e1) = >>=-eq-going (start_observer w L btc F b s true rb) _ e in
        let (tt, signer_, e2) = >>=-eq-going signer_started _ e1 in
        let (started, is, observes) = start_observer-going w L btc F b s rb true ob ob_ in
        rw (going_eq e2, is) (all started observes (start_signer-Signs (or_exit-going _ signer_)))

    onlyob_services :
        (services : List Service)
        → (start_observer w L btc F b s false rb >>= λ ob. going (ob ∷ [])) ≡ going services
        → InMode (codes "onlyob") services
    onlyob_services services e =
        let (ob, ob_, e1) = >>=-eq-going (start_observer w L btc F b s false rb) _ e in
        let (started, is, observes) = start_observer-going w L btc F b s rb false ob ob_ in
        rw (going_eq e1, is) (onlyob started observes)

    onlysig_services :
        (services : List Service)
        → (signer_started >>= λ signer. going (serving s.conf.rest_port s.conf.ob_server_addr ∷ []))
          ≡ going services
        → InMode (codes "onlysig") services
    onlysig_services services e =
        let (tt, signer_, e1) = >>=-eq-going signer_started _ e in
        rw (going_eq e1) (onlysig (start_signer-Signs (or_exit-going _ signer_)))

    start_services-InMode :
        (mode : Bytes) (services : List Service)
        → start_services w L btc F b mode s rb opwd bpwd ≡ going services
        → InMode mode services
    unfolding start_services
    start_services-InMode mode services e = elim (if_cases (bytes_eq mode (codes "all")) e) [
      | inl (is, e1) ↦ rw (eq_of_bytes_eq mode (codes "all") is) (all_services services e1)
      | inr (_, e1) ↦ elim (if_cases (bytes_eq mode (codes "onlyob")) e1) [
        | inl (is, e2) ↦ rw (eq_of_bytes_eq mode (codes "onlyob") is) (onlyob_services services e2)
        | inr (_, e2) ↦ elim (if_cases (bytes_eq mode (codes "onlysig")) e2) [
          | inl (is, e3) ↦
              rw (eq_of_bytes_eq mode (codes "onlysig") is) (onlysig_services services e3)
          | inr (_, e3) ↦ cc e3
        ]
      ]
    ]

-- A start that runs on has read a Config from the file of the flag and opened the database under
-- its path. With the web pages it waited until they ended, and goes on with the Config and the net
-- that they left, which it saves to that file; without them it goes on with the Config of the file
-- and the net that this names, after the node of Poly has answered with its chain id. The redeem
-- script in the Config that it runs with is hex; each of the two passwords is that of its flag, or
-- without one that of this Config, or without either what was typed. The mode is one of three: in
-- "all" it observes and signs, in "onlyob" it observes, in "onlysig" it serves the REST API on the
-- port of that Config. It observes only if the redeem script has a key and the wait time is one that
-- a ticker takes, for the notifications of that key, with the heights of that Config, and with a
-- client for the signer of that Config exactly in "onlyob"; it signs only if both wallets open with
-- their passwords and the key of the second one has an address.
pub run_services :
    (w : Wire) (L : LevelDb) (btc : Btc) (F : Files) (b : Backend) (flags : Flags)
    (world : World w L btc F b) (r : Running w L btc F b)
    → run w L btc F b flags world ≡ going r
    → (conf : Config) × (new_config F flags.config_file world.files ≡ ok conf)
      × ((d : L.State) × (world.open_file conf.config_db_path ≡ ok d)
          × (new_vendor_db w L d ≡ ok r.vdb))
      × Configured w L btc F b flags world conf r.settings r.files
      × ((rb : Bytes) × (opwd : Bytes) × (bpwd : Bytes) × (hex_decode r.settings.conf.redeem
            ≡ ok rb)
          × IsPassword flags.poly_wallet_pwd r.settings.conf.wallet_pwd world.poly_typed opwd
          × IsPassword flags.btc_wallet_pwd r.settings.conf.btc_wallet_pwd world.btc_typed bpwd
          × InMode w L btc F b r.settings rb opwd bpwd flags.mode r.services)
unfolding run
run_services w L btc F b flags world r e =
    let (conf, conf_, e1) =
      >>=-eq-going (or_exit (new_config F flags.config_file world.files)) _ e in
    let (d, d_, e2) = >>=-eq-going (or_exit (world.open_file conf.config_db_path)) _ e1 in
    let (vdb, vdb_, e3) = >>=-eq-going (or_exit (new_vendor_db w L d)) _ e2 in
    let (set, set_, e4) = >>=-eq-going (configure w L btc F b flags world conf) _ e3 in
    let (opwd, opwd_, e5) =
      >>=-eq-going (password flags.poly_wallet_pwd set.0.conf.wallet_pwd world.poly_typed) _ e4 in
    let (bpwd, bpwd_, e6) =
      >>=-eq-going (password flags.btc_wallet_pwd set.0.conf.btc_wallet_pwd world.btc_typed) _ e5 in
    let (rb, rb_, e7) = >>=-eq-going (or_exit (hex_decode set.0.conf.redeem)) _ e6 in
    let (services, services_, e8) =
      >>=-eq-going (start_services w L btc F b flags.mode set.0 rb opwd bpwd) _ e7 in
    let is = going_eq e8 in
    (
      conf,
      or_exit-going _ conf_,
      (d, or_exit-going _ d_, rw is (or_exit-going _ vdb_)),
      rw is (configure-Configured w L btc F b flags world conf set.0 set.1 set_),
      rw is (
        rb,
        opwd,
        bpwd,
        or_exit-going _ rb_,
        password-IsPassword _ _ _ opwd opwd_,
        password-IsPassword _ _ _ bpwd bpwd_,
        start_services-InMode w L btc F b set.0 rb opwd bpwd flags.mode services services_,
      ),
    )
