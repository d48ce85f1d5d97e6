-- ===== src/Tests/Paging.antt =====
-- The pages of the vendor at concrete inputs.
use btc_vendor_tools.Base.{
  ℕ, List, ◌≡◌, ◌⊎◌, refl, [], ◌∷◌, ◌++◌, map, none, some, arith, ok, bytes_eq,
}
use btc_vendor_tools.Std.Binary.{Bytes}
use btc_vendor_tools.Std.Hex.{hex_encode, hex_decode}
use btc_vendor_tools.Std.Decimal.{format_uint, parse_uint, parse_loop}
use btc_vendor_tools.Std.Text.{codes}
use btc_vendor_tools.Web.Strings.{join, split, decode_all, replace_0x}
use btc_vendor_tools.Std.Int.{pos}
use btc_vendor_tools.Config.{Config}
use btc_vendor_tools.Web.Service.{
  get_key, sign_contract, Call, register_redeem, set_btc_tx_param, Sdk, contract_call, param_call,
  contract_call-hex,
}
use btc_vendor_tools.Web.Pages.{
  Form, get_post_form, your_sig, your_tx, Page, bad_request, ok_page, go_on,
}
use btc_vendor_tools.Web.Controller.{
  WebState, served, sign_contract_page, contract_request, param_request, handle_set_contract,
  handle_func_set_param, get_orc_pwd, override_wallet,
}
use btc_vendor_tools.Web.Controller.Sent.{handle_set_contract-sent}
use btc_vendor_tools.Web.Controller.Signed.{sign_contract_page-registered}
use btc_vendor_tools.Web.Controller.Forms.{IsContractForm, IsParamForm}
use btc_vendor_tools.Web.Controller.Calls.{
  Shows, opened, sending, handle_set_contract_calls, handle_func_set_param_calls,
}

abbrev pub sdk : Sdk
sdk = record {
  open_wallet = λ file. ok file;
  get_default_account = λ wallet pwd. ok wallet;
  get_private_key = λ acct. 7 ∷ [];
  sign = λ key h. ok (key ++ h);
  hash160 = λ s. s;
  uint64_bytes = λ n. n ∷ [];
  submit = λ acc call. ok (5 ∷ []);
}

contract_call-hex_example :
    (contract_call
        (hex_encode (171 ∷ 205 ∷ []))
        (hex_encode (9 ∷ []))
        (join (hex_encode (1 ∷ [])) (map hex_encode ((255 ∷ 2 ∷ []) ∷ [])))
        0
        2
      ≡ ok (register_redeem 2 (9 ∷ []) (171 ∷ 205 ∷ []) 0 ((1 ∷ []) ∷ (255 ∷ 2 ∷ []) ∷ [])))
    × (contract_call
          (48 ∷ 120 ∷ hex_encode (171 ∷ 205 ∷ []))
          (hex_encode (9 ∷ []))
          (join (hex_encode (1 ∷ [])) (map hex_encode ((255 ∷ 2 ∷ []) ∷ [])))
          0
          2
        ≡ ok (register_redeem 2 (9 ∷ []) (171 ∷ 205 ∷ []) 0 ((1 ∷ []) ∷ (255 ∷ 2 ∷ []) ∷ [])))
contract_call-hex_example =
    contract_call-hex (171 ∷ 205 ∷ []) (9 ∷ []) (1 ∷ []) ((255 ∷ 2 ∷ []) ∷ []) 0 2
      (omega arith, (omega arith, tt)) (omega arith, tt) (omega arith, tt)
      ((omega arith, (omega arith, tt)), tt)

abbrev pub conf : Config
conf = record {
  poly_json_rpc_address = codes "poly:80";
  wallet_file = codes "w.dat";
  wallet_pwd = codes "p";
  btc_wallet_pwd = [];
  poly_ob_loop_wait_time = pos 2;
  btc_privk_file = codes "b.dat";
  watching_key_to_sign = [];
  config_bitcoin_net = codes "test";
  config_db_path = codes "db";
  rest_port = 50071;
  sleep_time = pos 10;
  circle_to_save_height = 300;
  redeem = hex_encode (9 ∷ []);
  signer_addr = [];
  ob_server_addr = [];
  poly_start_height = 0;
  web_server_port = codes "8080";
}

abbrev pub web : WebState
web = record { conf = conf; acc = none; rpc = none; chain_id = 0; net = none; calls = [] }

abbrev contract_form : Form
contract_form =
    (codes "contract", 48 ∷ 120 ∷ hex_encode (171 ∷ 205 ∷ []))
    ∷ (codes "chainid", format_uint 2)
    ∷ (codes "ver", format_uint 0)
    ∷ (codes "sigs", join (hex_encode (1 ∷ [])) (map hex_encode ((255 ∷ 2 ∷ []) ∷ [])))
    ∷ (codes "privk_file", codes "k.dat")
    ∷ (codes "pwd", [])
    ∷ []

has_contract :
    get_post_form contract_form (codes "contract") ≡ some (48 ∷ 120 ∷ hex_encode (171 ∷ 205 ∷ []))
unfolding get_post_form bytes_eq
has_contract = refl

has_chainid : get_post_form contract_form (codes "chainid") ≡ some (format_uint 2)
unfolding get_post_form bytes_eq
has_chainid = refl

has_ver : get_post_form contract_form (codes "ver") ≡ some (format_uint 0)
unfolding get_post_form bytes_eq
has_ver = refl

has_sigs :
    get_post_form contract_form (codes "sigs")
    ≡ some (join (hex_encode (1 ∷ [])) (map hex_encode ((255 ∷ 2 ∷ []) ∷ [])))
unfolding get_post_form bytes_eq
has_sigs = refl

has_file : get_post_form contract_form (codes "privk_file") ≡ some (codes "k.dat")
unfolding get_post_form bytes_eq
has_file = refl

has_pwd : get_post_form contract_form (codes "pwd") ≡ some []
unfolding get_post_form bytes_eq
has_pwd = refl

handle_set_contract-sent_example :
    handle_set_contract sdk contract_form web
    ≡ served (ok_page (codes "index.tmpl") (your_tx (5 ∷ []))) (record web {
      calls =
          [] ++ register_redeem 2 (9 ∷ []) (171 ∷ 205 ∷ []) 0 ((1 ∷ []) ∷ (255 ∷ 2 ∷ []) ∷ []) ∷ [];
    })
handle_set_contract-sent_example =
    handle_set_contract-sent sdk contract_form web (171 ∷ 205 ∷ []) (9 ∷ []) (1 ∷ [])
      ((255 ∷ 2 ∷ []) ∷ []) 2 0 (5 ∷ []) (omega arith, (omega arith, tt)) (omega arith, tt)
      (omega arith, tt) ((omega arith, (omega arith, tt)), tt) (omega arith) (omega arith) refl
      has_contract has_ver has_chainid has_sigs refl

abbrev web_sent : WebState
web_sent = record web {
  calls = register_redeem 2 (9 ∷ []) (171 ∷ 205 ∷ []) 0 ((1 ∷ []) ∷ (255 ∷ 2 ∷ []) ∷ []) ∷ [];
}

shown_sig :
    sign_contract_page sdk (codes "index.tmpl") contract_form conf
    ≡ go_on (ok_page (codes "index.tmpl") (your_sig (7 ∷ 9 ∷ 1 ∷ 171 ∷ 205 ∷ 2 ∷ 0 ∷ [])))
unfolding sign_contract_page sign_contract get_key get_post_form bytes_eq parse_uint parse_loop
    hex_decode hex_encode replace_0x format_uint
shown_sig = refl

served_contract :
    handle_set_contract sdk contract_form web
    ≡ served (ok_page (codes "index.tmpl") (your_tx (5 ∷ []))) web_sent
served_contract =
    handle_set_contract-sent sdk contract_form web (171 ∷ 205 ∷ []) (9 ∷ []) (1 ∷ [])
      ((255 ∷ 2 ∷ []) ∷ []) 2 0 (5 ∷ []) (omega arith, (omega arith, tt)) (omega arith, tt)
      (omega arith, tt) ((omega arith, (omega arith, tt)), tt) (omega arith) (omega arith) refl
      has_contract has_ver has_chainid has_sigs refl

sign_contract_page-registered_example :
    (r : Bytes) × (c : Bytes) × (id : ℕ) × (v : ℕ) × (sigs : List Bytes) × (register_redeem 2
        (9 ∷ [])
        (171 ∷ 205 ∷ [])
        0
        ((1 ∷ []) ∷ (255 ∷ 2 ∷ []) ∷ [])
      ≡ register_redeem id r c v sigs)
    × ((pf : Bytes) × (pwd : Bytes) × (wallet : Bytes) × (acct : Bytes) × (get_post_form
            contract_form
            (codes "privk_file")
          ≡ some pf)
        × (get_post_form contract_form (codes "pwd") ≡ some pwd)
        × (sdk.open_wallet pf ≡ ok wallet)
        × (sdk.get_default_account wallet pwd ≡ ok acct)
        × (sdk.sign (sdk.get_private_key acct) (
              sdk.hash160
                (r ++ (sdk.uint64_bytes 1 ++ (c ++ (sdk.uint64_bytes id ++ sdk.uint64_bytes v)))))
            ≡ ok (7 ∷ 9 ∷ 1 ∷ 171 ∷ 205 ∷ 2 ∷ 0 ∷ [])))
sign_contract_page-registered_example =
    sign_contract_page-registered sdk (codes "index.tmpl") contract_form contract_form conf
      (7 ∷ 9 ∷ 1 ∷ 171 ∷ 205 ∷ 2 ∷ 0 ∷ []) web web_sent
      (ok_page (codes "index.tmpl") (your_tx (5 ∷ [])))
      (register_redeem 2 (9 ∷ []) (171 ∷ 205 ∷ []) 0 ((1 ∷ []) ∷ (255 ∷ 2 ∷ []) ∷ [])) shown_sig
      served_contract refl refl refl refl refl

-- A form without the version is a bad request.
abbrev short_form : Form
short_form = (codes "contract", codes "00") ∷ []

abbrev no_version : Page
no_version = bad_request (codes "index.tmpl") (codes "no contract version set")

served_short : handle_set_contract sdk short_form web ≡ served no_version web
unfolding handle_set_contract contract_request get_post_form bytes_eq
served_short = refl

handle_set_contract_calls_example :
    (web ≡ web)
    ⊎ ((call : Call) × IsContractForm short_form conf call
        × (web ≡ sending web call)
        × (no_version.status ≡ 200))
handle_set_contract_calls_example =
    handle_set_contract_calls sdk short_form web web no_version served_short

abbrev param_form : Form
param_form =
    (codes "wallet", codes "x")
    ∷ (codes "ver", codes "3")
    ∷ (codes "fr", codes "1")
    ∷ (codes "mc", codes "20")
    ∷ (codes "sigs", codes "01,ff02")
    ∷ []

abbrev sent_param : WebState
sent_param = record {
  conf = record conf { wallet_file = codes "x" };
  acc = some (codes "x");
  rpc = some (codes "poly:80");
  chain_id = 0;
  net = none;
  calls = set_btc_tx_param (9 ∷ []) 1 20 3 ((1 ∷ []) ∷ (255 ∷ 2 ∷ []) ∷ []) ∷ [];
}

abbrev sent_page : Page
sent_page = ok_page (codes "set_param.tmpl") (your_tx (5 ∷ []))

served_param : handle_func_set_param sdk param_form web ≡ served sent_page sent_param
unfolding handle_func_set_param param_request get_post_form bytes_eq param_call hex_decode
    hex_encode decode_all split parse_uint parse_loop
served_param = refl

handle_func_set_param_calls_example :
    (sent_param.calls ≡ [])
    ⊎ ((acc : Bytes) × (call : Call) × (get_orc_pwd sdk (override_wallet param_form conf) ≡ ok acc)
        × IsParamForm param_form (override_wallet param_form conf) call
        × (sent_param ≡ sending (opened param_form web acc) call)
        × Shows sdk
            (codes "set_param.tmpl")
            (codes "failed to set param: ")
            (some acc)
            call
            sent_page)
handle_func_set_param_calls_example =
    handle_func_set_param_calls sdk param_form web sent_param sent_page served_param
