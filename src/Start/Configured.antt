-- ===== src/Start/Configured.antt =====
-- cmd/run.go: the settings and the passwords that a start goes on with.
use btc_vendor_tools.Base.{
  ◌≡◌, inl, inr, true, false, [], ◌∷◌, bytes_eq, eq_of_bytes_eq, if_cases, ok, ℕ, refl, none, some,
  Result, err, panic, ap, sym, arith,
}
use btc_vendor_tools.Std.Binary.{Bytes}
use btc_vendor_tools.Std.Text.{codes}
use btc_vendor_tools.Wire.{Wire}
use btc_vendor_tools.Btc.{Btc}
use btc_vendor_tools.LevelDb.{LevelDb}
use btc_vendor_tools.Config.{Config, Net, regtest, testnet, mainnet, Files, save}
use btc_vendor_tools.Std.Int.{ℤ}
use btc_vendor_tools.Web.Router.{Backend, Server}
use btc_vendor_tools.Start.{
  going, or_abort, is_web, net_named, browse, password, Flags, World, Settings, configure,
}
use btc_vendor_tools.Start.Observing.{>>=-eq-going, or_exit-going, going_eq}

-- A password is that of the flag, or without one that of the Config, or without either what was
-- typed.
pub data IsPassword (flag conf_pwd : Bytes) (typed : Result Bytes) (pwd : Bytes) : Type 0 where
  of_flag : ¬ (flag ≡ []) → pwd ≡ flag → IsPassword flag conf_pwd typed pwd
  of_conf : flag ≡ [] → ¬ (conf_pwd ≡ []) → pwd ≡ conf_pwd → IsPassword flag conf_pwd typed pwd
  of_terminal : flag ≡ [] → conf_pwd ≡ [] → typed ≡ ok pwd → IsPassword flag conf_pwd typed pwd

pub password-IsPassword :
    (flag conf_pwd : Bytes) (typed : Result Bytes) (pwd : Bytes)
    → password flag conf_pwd typed ≡ going pwd
    → IsPassword flag conf_pwd typed pwd
password-IsPassword (c ∷ cs) conf_pwd typed pwd e = of_flag (λ bad. cc bad) (going_eq e)
password-IsPassword [] [] typed pwd e = of_terminal refl refl (or_exit-going typed e)
password-IsPassword [] (c ∷ cs) typed pwd e = of_conf refl (λ bad. cc bad) (going_eq e)

-- The net of a name.
pub data IsNetNamed : Bytes → Net → Type 0 where
  regtest_named : IsNetNamed (codes "regtest") regtest
  testnet_named : IsNetNamed (codes "test") testnet
  mainnet_named : IsNetNamed (codes "main") mainnet

net_named-IsNetNamed : (nt : Bytes) (net : Net) → net_named nt ≡ going net → IsNetNamed nt net
unfolding net_named
net_named-IsNetNamed nt net e = elim (if_cases (bytes_eq nt (codes "regtest")) e) [
  | inl (is, e1) ↦ rw (eq_of_bytes_eq nt (codes "regtest") is, going_eq e1) regtest_named
  | inr (_, e1) ↦ elim (if_cases (bytes_eq nt (codes "test")) e1) [
    | inl (is, e2) ↦ rw (eq_of_bytes_eq nt (codes "test") is, going_eq e2) testnet_named
    | inr (_, e2) ↦ elim (if_cases (bytes_eq nt (codes "main")) e2) [
      | inl (is, e3) ↦ rw (eq_of_bytes_eq nt (codes "main") is, going_eq e3) mainnet_named
      | inr (_, e3) ↦ cc e3
    ]
  ]
]

is_web-pos : (z : ℤ) → is_web z ≡ true → z ≡ ℤ.pos 1
is_web-pos (ℤ.pos n) e = ap ℤ.pos (ground arith)
is_web-pos (ℤ.negsuc n) e = cc e

is_web-other : (z : ℤ) → is_web z ≡ false → ¬ (z ≡ ℤ.pos 1)
is_web-other z e is = cc (rw is at e)

or_abort-going {ℓ} : {A : Type ℓ} (r : Result A) {a : A} → or_abort r ≡ going a → r ≡ ok a
or_abort-going (ok x) e = ap (λ y. ok y) (sym (going_eq e))
or_abort-going (err x) e = cc e
or_abort-going panic e = cc e

module _ (w : Wire) (L : LevelDb) (btc : Btc) (F : Files) (b : Backend) where
  -- The settings come from the web pages, which a post to /status has ended, or, without the pages,
  -- from the Config of the file, with the net that it names and a node of Poly that answers with its
  -- chain id. The Config is written to ./config/conf.json first, and that of the pages to the file of
  -- the flag.
  pub data Configured (flags : Flags) (world : World w L btc F b) (conf : Config)
      (s : Settings w L btc F b) (files : F.State) : Type 0 where
    by_web :
        (end : Server b)
        → flags.web ≡ ℤ.pos 1
        → browse b world.posts (record {
          st = record { conf = conf; acc = none; rpc = none; chain_id = 0; net = none; calls = [] };
          wallets = world.wallets;
          done = false;
        })
          ≡ going end
        → s ≡ record { conf = end.st.conf; net = end.st.net }
        → files
          ≡ (save F end.st.conf flags.config_file
              (save F conf (codes "./config/conf.json") world.files).1).1
        → Configured flags world conf s files
    by_file :
        (net : Net) (id : ℕ)
        → ¬ (flags.web ≡ ℤ.pos 1)
        → IsNetNamed conf.config_bitcoin_net net
        → b.chain.genesis_chain_id conf.poly_json_rpc_address ≡ ok id
        → s ≡ record { conf = conf; net = some net }
        → files ≡ (save F conf (codes "./config/conf.json") world.files).1
        → Configured flags world conf s files

  pub configure-Configured :
      (flags : Flags) (world : World w L btc F b) (conf : Config) (s : Settings w L btc F b)
      (files : F.State)
      → configure w L btc F b flags world conf ≡ going (s, files)
      → Configured flags world conf s files
  unfolding configure
  configure-Configured flags world conf s files e = elim (if_cases (is_web flags.web) e) [
    | inl (web, e1) ↦
        let (end, end_, e2) = >>=-eq-going (browse b world.posts _) _ e1 in
        let is = going_eq e2 in
        by_web end (is_web-pos flags.web web) end_ (ap (λ p. p.0) is) (ap (λ p. p.1) is)
    | inr (other, e1) ↦
        let (net, net_, e2) = >>=-eq-going (net_named conf.config_bitcoin_net) _ e1 in
        let (id, id_, e3) =
          >>=-eq-going (or_abort (b.chain.genesis_chain_id conf.poly_json_rpc_address)) _ e2 in
        let is = going_eq e3 in
        by_file net id (is_web-other flags.web other)
          (net_named-IsNetNamed conf.config_bitcoin_net net net_) (or_abort-going _ id_)
          (ap (λ p. p.0) is) (ap (λ p. p.1) is)
  ]
