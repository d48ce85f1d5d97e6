-- ===== src/Web/Controller.antt =====
-- web/controller/controller.go: the handlers of the contract and of the parameters.
pub mod Forms
pub mod Calls
pub mod Stateful
pub mod Keys
pub mod Imported
pub mod Setup
pub mod Status
pub mod Configured
pub mod Applied
pub mod Overview
pub mod Sent
pub mod Signed
use btc_vendor_tools.Base.{
  ℕ, ◌==◌, Bool, true, false, List, [], ◌∷◌, ◌++◌, Option, none, some, bytes_eq, if◌then◌else◌,
  Error, Result, ok, err, panic,
}
use btc_vendor_tools.Std.Binary.{Bytes}
use btc_vendor_tools.Std.Decimal.{parse_uint}
use btc_vendor_tools.Std.Text.{codes}
use btc_vendor_tools.Config.{Config, Net}
use btc_vendor_tools.Web.Service.{
  get_account_by_password, Call, Sdk, sign_contract, sign_param, contract_call, param_call,
}
use btc_vendor_tools.Web.Pages.{
  Form, get_post_form, Summary, Notice, Page, bad_request, ok_page, Checked, required, shown,
  number, index_tmpl, sign_contract_tmpl, set_contract_tmpl, sign_param_tmpl, set_param_tmpl, field,
  said, failed, your_sig, your_tx, your_key, your_redeem, title, wrong, status_of, values, go_on,
  stop, crash, ◌>>=◌,
}

-- The Config, the account of the BtcService, the address of the client of its PolySdk, whose nil is
-- `none`, and its chain id, config.BtcNetParam, and the transactions that were sent.
pub record WebState : Type 0 where
  pub conf : Config
  pub acc : Option Bytes
  pub rpc : Option Bytes
  pub chain_id : ℕ
  pub net : Option Net
  pub calls : List Call

module _ (sdk : Sdk) where
  -- HandleSignContract and HandleFuncSignContract, which differ in the template only.
  unfoldable pub sign_contract_page : Bytes → Form → Config → Checked Page
  sign_contract_page tmpl form conf = do
    pf ← field tmpl form (codes "privk_file") (codes "no private key file set")
    pwd ← field tmpl form (codes "pwd") (codes "no password for private key file set")
    contract ← field tmpl form (codes "contract") (codes "no smart contract set")
    chainid ← field tmpl form (codes "chainid") (codes "no target chain id set")
    ver ← field tmpl form (codes "ver") (codes "no contract version set")
    id ← number tmpl chainid
    v ← number tmpl ver
    sig ←
        shown tmpl (codes "failed to sign for contract: ")
          (sign_contract sdk pf pwd contract conf.redeem id v)
    go_on (ok_page tmpl (your_sig sig))

  abbrev pub handle_sign_contract : Form → Config → Checked Page
  handle_sign_contract = sign_contract_page index_tmpl

  abbrev pub handle_func_sign_contract : Form → Config → Checked Page
  handle_func_sign_contract = sign_contract_page sign_contract_tmpl

  -- HandleSignParam and HandleFuncSignParam, which differ in the template only.
  unfoldable pub sign_param_page : Bytes → Form → Config → Checked Page
  sign_param_page tmpl form conf = do
    pf ← field tmpl form (codes "privk_file") (codes "no private key file set")
    pwd ← field tmpl form (codes "pwd") (codes "no password for private key file set")
    ver ← field tmpl form (codes "ver") (codes "no contract version set")
    fr ← field tmpl form (codes "fr") (codes "no fee rate set")
    mc ← field tmpl form (codes "mc") (codes "no min change set")
    v ← number tmpl ver
    fee_rate ← number tmpl fr
    min_change ← number tmpl mc
    sig ←
        shown tmpl (codes "failed to sign param: ")
          (sign_param sdk fee_rate min_change v conf.redeem pf pwd)
    go_on (ok_page tmpl (your_sig sig))

  abbrev pub handle_sign_param : Form → Config → Checked Page
  handle_sign_param = sign_param_page index_tmpl

  abbrev pub handle_func_sign_param : Form → Config → Checked Page
  handle_func_sign_param = sign_param_page sign_param_tmpl

-- How a handler ends: with a page, or by a panic. Either leaves a state.
pub data Served : Type 0 where
  served : Page → WebState → Served
  crashed : WebState → Served

-- The fields of HandleSetContract and HandleFuncSetContract, up to the transaction.
unfoldable pub contract_request : Bytes → Form → Config → Checked (Result Call)
contract_request tmpl form conf = do
  contract ← field tmpl form (codes "contract") (codes "no smart contract set")
  ver ← field tmpl form (codes "ver") (codes "no contract version set")
  chainid ← field tmpl form (codes "chainid") (codes "no target chain id set")
  sigs ← field tmpl form (codes "sigs") (codes "no signatures set")
  id ← number tmpl chainid
  v ← number tmpl ver
  go_on (contract_call contract conf.redeem sigs v id)

-- The fields of HandleSetParam and HandleFuncSetParam, up to the transaction.
unfoldable pub param_request : Bytes → Form → Config → Checked (Result Call)
param_request tmpl form conf = do
  ver ← field tmpl form (codes "ver") (codes "no contract version set")
  fr ← field tmpl form (codes "fr") (codes "no fee rate set")
  mc ← field tmpl form (codes "mc") (codes "no min change set")
  sigs ← field tmpl form (codes "sigs") (codes "no signatures set")
  v ← number tmpl ver
  fee_rate ← number tmpl fr
  min_change ← number tmpl mc
  go_on (param_call fee_rate min_change v conf.redeem sigs)

-- `if ok && value != "" { … = value }`.
abbrev pub override : Option Bytes → Bytes → Bytes
override none old = old
override (some []) old = old
override (some (c ∷ cs)) old = c ∷ cs

abbrev pub override_wallet : Form → Config → Config
override_wallet form conf = record conf {
  wallet_file = override (get_post_form form (codes "wallet")) conf.wallet_file;
  wallet_pwd = override (get_post_form form (codes "opwd")) conf.wallet_pwd;
}

-- `if … GetRpcClient() == nil { … NewRpcClient().SetAddress(…) }`.
abbrev pub client_address : WebState → Bytes
client_address st = elim st.rpc [ some addr ↦ addr | none ↦ st.conf.poly_json_rpc_address ]

abbrev pub read_account : WebState → Bytes → WebState
read_account st acc = record st { acc = some acc; rpc = some (client_address st) }

module _ (sdk : Sdk) where
  abbrev pub sent_page : Bytes → Bytes → WebState → Result Bytes → Served
  sent_page tmpl text st (ok tx) = served (ok_page tmpl (your_tx tx)) st
  sent_page tmpl text st (err e) = served (ok_page tmpl (failed text e)) st
  sent_page tmpl text st panic = crashed st

  -- A request that got as far as a transaction sends it.
  abbrev pub finish : Bytes → Bytes → WebState → Checked (Result Call) → Served
  finish tmpl text st (stop page) = served page st
  finish tmpl text st crash = crashed st
  finish tmpl text st (go_on (err e)) = served (ok_page tmpl (failed text e)) st
  finish tmpl text st (go_on panic) = crashed st
  finish tmpl text st (go_on (ok call)) =
      sent_page tmpl text (record st { calls = st.calls ++ call ∷ [] }) (sdk.submit st.acc call)

  abbrev pub set_contract_text : Bytes
  set_contract_text = codes "failed to sign contract: "

  abbrev pub set_param_text : Bytes
  set_param_text = codes "failed to set param: "

  unfoldable pub handle_set_contract : Form → WebState → Served
  handle_set_contract form st =
      finish index_tmpl set_contract_text st (contract_request index_tmpl form st.conf)

  unfoldable pub handle_set_param : Form → WebState → Served
  handle_set_param form st =
      finish index_tmpl set_param_text st (param_request index_tmpl form st.conf)

  -- getORCPwd, behind the two fields that change the wallet. Its error page is that of the
  -- contract, also for the parameters.
  abbrev pub with_account : WebState → (WebState → Served) → Result Bytes → Served
  with_account st rest (ok acc) = rest (read_account st acc)
  with_account st rest (err e) =
      served (ok_page set_contract_tmpl (failed (codes "get account failed: ") e)) st
  with_account st rest panic = crashed st

  abbrev pub get_orc_pwd : Config → Result Bytes
  get_orc_pwd conf = get_account_by_password sdk conf.wallet_file conf.wallet_pwd

  unfoldable pub handle_func_set_contract : Form → WebState → Served
  handle_func_set_contract form st =
      let conf = override_wallet form st.conf in
      with_account (record st { conf = conf })
        (λ s.
          finish set_contract_tmpl set_contract_text s
            (contract_request set_contract_tmpl form s.conf))
        (get_orc_pwd conf)

  unfoldable pub handle_func_set_param : Form → WebState → Served
  handle_func_set_param form st =
      let conf = override_wallet form st.conf in
      with_account (record st { conf = conf })
        (λ s. finish set_param_tmpl set_param_text s (param_request set_param_tmpl form s.conf))
        (get_orc_pwd conf)
