-- ===== src/Tests/Setting.antt =====
-- The pages that set up the vendor at concrete inputs.
use btc_vendor_tools.Base.{
  ◌≡◌, ◌⊎◌, refl, [], ◌∷◌, ◌++◌, map, none, some, arith, ok, bytes_eq, if◌then◌else◌, ltb, length,
  refused, err, ◌>>=◌, List,
}
use btc_vendor_tools.Std.Binary.{Bytes}
use btc_vendor_tools.Std.Hex.{hex_encode, hex_decode}
use btc_vendor_tools.Std.Decimal.{format_uint, parse_uint, parse_loop}
use btc_vendor_tools.Std.Int.{pos, parse_int}
use btc_vendor_tools.Std.Text.{codes}
use btc_vendor_tools.Config.{regtest}
use btc_vendor_tools.Web.Strings.{join}
use btc_vendor_tools.Web.Redeem.{
  Scripts, gene_redeem, addresses, gene_redeem-keys, KeyLib, new_account, gene_privk_and_addr,
}
use btc_vendor_tools.Web.Pages.{
  Form, get_post_form, title, your_key, status_of, Summary, Page, ok_page, index_tmpl,
}
use btc_vendor_tools.Web.Controller.{WebState, served, get_orc_pwd}
use btc_vendor_tools.Web.Controller.Setup.{before_tmpl, status_tmpl, net_of, handle_init}
use btc_vendor_tools.Web.Controller.Configured.{IsInitForm, init_conf, ready, handle_init_cases}
use btc_vendor_tools.Web.Controller.Status.{
  Chain, apply_form, set_up_poly, show_status, sum_values, utxos_key, handle_status,
}
use btc_vendor_tools.Web.Controller.Applied.{status_conf}
use btc_vendor_tools.Web.Controller.Overview.{IsShown, handle_status_shows}
use btc_vendor_tools.Web.Controller.Keys.{key_request, with_wallet, handle_gene_privk}
use btc_vendor_tools.Web.Controller.Imported.{IsKeyForm, IsImported, handle_gene_privk_cases}
use btc_vendor_tools.Tests.Paging.{sdk, conf, web}

abbrev init_form : Form
init_form =
    (codes "rpc", codes "n:1")
    ∷ (codes "owallet", [])
    ∷ (codes "opwd", codes "q")
    ∷ (codes "nt", codes "regtest")
    ∷ (codes "db", [])
    ∷ []

abbrev ready_web : WebState
ready_web = record web {
  conf = record conf {
    poly_json_rpc_address = codes "n:1";
    wallet_pwd = codes "q";
    config_bitcoin_net = codes "regtest";
  };
  acc = some (codes "w.dat");
  rpc = some (codes "n:1");
  net = some regtest;
}

abbrev index_page : Page
index_page = ok_page index_tmpl (title (codes "Vendor Tool"))

served_init : handle_init sdk init_form web ≡ served index_page ready_web
unfolding handle_init get_post_form bytes_eq net_of
served_init = refl

handle_init_cases_example :
    ((index_page.template ≡ before_tmpl) × (ready_web.acc ≡ none))
    ⊎ ((acc : Bytes) × (get_orc_pwd sdk (init_conf init_form conf) ≡ ok acc)
        × IsInitForm init_form
        × (index_page ≡ ok_page index_tmpl (title (codes "Vendor Tool")))
        × (ready_web ≡ ready init_form web acc))
handle_init_cases_example = handle_init_cases sdk init_form web ready_web index_page served_init

-- Two utxos, whose sum does not fit.
abbrev pub chain : Chain
chain = record {
  genesis_chain_id = λ addr. ok 3;
  get_storage = λ rpc contract key. ok (some key);
  cross_chain_manager = 1 ∷ [];
  side_chain_manager = 2 ∷ [];
  utxos = codes "utxos";
  redeem_bind = codes "bind";
  btc_tx_param = codes "param";
  utxo_values = λ bs. ok (18446744073709551615 ∷ 8 ∷ []);
  contract_binded = λ bs. (171 ∷ [], 4);
  param_detail = λ bs. (1, 20, 2000);
}

abbrev status_form : Form
status_form = (codes "wait_time", codes "5") ∷ (codes "nt", codes "regtest") ∷ []

abbrev status_web : WebState
status_web = record web {
  conf = record conf { poly_ob_loop_wait_time = pos 5; config_bitcoin_net = codes "regtest" };
  acc = some (codes "w.dat");
  rpc = some (codes "poly:80");
  chain_id = 3;
  net = some regtest;
}

abbrev shown_page : Page
shown_page = ok_page status_tmpl (
    status_of
      (record { sum = 7; total = 2; contract = codes "ab"; ver = 4; mc = 2000; fr = 20; pver = 1 }))

served_status : handle_status sdk chain status_form web ≡ served shown_page status_web
unfolding handle_status apply_form set_up_poly show_status sum_values utxos_key get_post_form
    bytes_eq net_of parse_int parse_uint parse_loop hex_decode hex_encode
served_status = refl

handle_status_shows_example :
    (status_web.conf ≡ status_conf status_form conf)
    × (status_web.calls ≡ [])
    × ((s : Summary)
        → shown_page.data_ ≡ status_of s
        → ((acc : Bytes) × (get_orc_pwd sdk status_web.conf ≡ ok acc) × (status_web.acc ≡ some acc))
          × IsShown sdk chain status_web s)
handle_status_shows_example =
    handle_status_shows sdk chain status_form web status_web shown_page served_status

abbrev pub scripts : Scripts
scripts = record {
  new_address_pub_key = λ net k. ok (2 ∷ k);
  multi_sig_script = λ arr n. ok (n ∷ length arr ∷ []);
  hash160 = λ s. s;
  sha256 = λ s. s;
  new_address_script_hash = λ net r. ok (3 ∷ r);
  new_address_witness_script_hash = λ net r. ok (4 ∷ r);
}

abbrev two_keys : List Bytes
two_keys = (1 ∷ []) ∷ (255 ∷ 2 ∷ []) ∷ []

gene_redeem-keys_example :
    gene_redeem scripts none
      ((32 ∷ [])
        ++ (join (hex_encode (1 ∷ [])) (map hex_encode ((255 ∷ 2 ∷ []) ∷ [])) ++ (10 ∷ [])))
      (format_uint 2)
    ≡ (if ltb (length two_keys) 2 then err refused else (do
      arr ← addresses scripts none two_keys
      r ← scripts.multi_sig_script arr 2
      p2sh ← scripts.new_address_script_hash none r
      p2wsh ← scripts.new_address_witness_script_hash none (scripts.sha256 r)
      ok (record { r = r; rk = scripts.hash160 r; p2sh = p2sh; p2wsh = p2wsh })))
gene_redeem-keys_example =
    gene_redeem-keys scripts none (32 ∷ []) (10 ∷ []) (1 ∷ []) ((255 ∷ 2 ∷ []) ∷ []) 2 (refl, tt)
      (refl, tt) (omega arith, tt) ((omega arith, (omega arith, tt)), tt) (omega arith)

-- Wallets as the list of what was imported.
abbrev pub keys : KeyLib
keys = record {
  Wallets = List (Bytes × Bytes);
  Wallet = Bytes;
  new_wif = λ net priv. ok (128 ∷ priv);
  compressed_pub_key = λ priv. 2 ∷ priv;
  new_address_pub_key = λ net k. ok (111 ∷ k);
  key_pair_from_wif = λ wif. ok wif;
  open_wallet = λ ws path. ok path;
  base58_address = λ pri. pri;
  encrypt_private_key = λ pri addr pwd. ok (pwd ++ pri);
  public_key = λ pri. pri;
  import_account = λ ws wallet key pub_key. (ok tt, (wallet, key) ∷ ws);
}

abbrev key_form : Form
key_form = (codes "pwd", codes "s") ∷ (codes "pwd2", codes "s") ∷ (codes "path", codes "k.dat") ∷ []

abbrev key_shown : Page
key_shown =
    ok_page index_tmpl (your_key (128 ∷ 9 ∷ []) (hex_encode (2 ∷ 9 ∷ [])) (111 ∷ 2 ∷ 9 ∷ []))

abbrev key_web : WebState
key_web = with_wallet keys (codes "s") (codes "k.dat") web

abbrev imported : List (Bytes × Bytes)
imported = (codes "k.dat", codes "s" ++ 128 ∷ 9 ∷ []) ∷ []

served_key :
    handle_gene_privk keys (ok (9 ∷ [])) key_form [] web ≡ (served key_shown key_web, imported)
unfolding handle_gene_privk key_request gene_privk_and_addr new_account get_post_form bytes_eq
served_key = refl

handle_gene_privk_cases_example :
    ((key_web ≡ web) × (imported ≡ []))
    ⊎ ((pwd : Bytes) × (path : Bytes) × IsKeyForm key_form pwd path
        × IsImported keys (ok (9 ∷ [])) [] imported web key_web key_shown pwd path)
handle_gene_privk_cases_example =
    handle_gene_privk_cases keys (ok (9 ∷ [])) key_form [] imported web key_web key_shown served_key
