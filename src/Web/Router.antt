-- ===== src/Web/Router.antt =====
-- web/router/router.go: the routes of the pages, and the channel that ends the wait of run.
use btc_vendor_tools.Base.{
  Bool, true, List, [], ◌∷◌, Option, none, some, bytes_eq, if◌then◌else◌, Result,
}
use btc_vendor_tools.Std.Binary.{Bytes}
use btc_vendor_tools.Std.Int.{format_int}
use btc_vendor_tools.Std.Text.{codes}
use btc_vendor_tools.Config.{Config}
use btc_vendor_tools.Web.Service.{Sdk}
use btc_vendor_tools.Web.Redeem.{Scripts, KeyLib}
use btc_vendor_tools.Web.Pages.{
  Form, Page, title, values, ok_page, Checked, go_on, stop, crash, sign_contract_tmpl,
  set_contract_tmpl, sign_param_tmpl, set_param_tmpl,
}
use btc_vendor_tools.Web.Controller.{
  WebState, Served, served, crashed, handle_sign_contract, handle_func_sign_contract,
  handle_sign_param, handle_func_sign_param, handle_set_contract, handle_func_set_contract,
  handle_set_param, handle_func_set_param,
}
use btc_vendor_tools.Web.Controller.Keys.{handle_gene_redeem, handle_gene_privk}
use btc_vendor_tools.Web.Controller.Setup.{before_tmpl, conf_tmpl, handle_init}
use btc_vendor_tools.Web.Controller.Status.{Chain, handle_status}

-- The handlers behind the paths that are posted to.
pub data Route : Type 0 where
  before_init init geneprivk generdm : Route
  sign_contract set_contract sign_param set_param : Route
  start_vendor_tool status : Route
  func_signcontract sign_contract_tool func_updatecontract set_contract_tool : Route
  func_signparam sign_param_tool func_updateparam set_param_tool : Route

-- The paths of `r.POST`.
abbrev pub routes : List (Bytes × Route)
routes =
    (codes "/before_init", before_init)
    ∷ (codes "/init", init)
    ∷ (codes "/geneprivk", geneprivk)
    ∷ (codes "/generdm", generdm)
    ∷ (codes "/sign_contract", sign_contract)
    ∷ (codes "/set_contract", set_contract)
    ∷ (codes "/sign_param", sign_param)
    ∷ (codes "/set_param", set_param)
    ∷ (codes "/start_vendor_tool", start_vendor_tool)
    ∷ (codes "/status", status)
    ∷ (codes "/func_signcontract", func_signcontract)
    ∷ (codes "/sign_contract_tool", sign_contract_tool)
    ∷ (codes "/func_updatecontract", func_updatecontract)
    ∷ (codes "/set_contract_tool", set_contract_tool)
    ∷ (codes "/func_signparam", func_signparam)
    ∷ (codes "/sign_param_tool", sign_param_tool)
    ∷ (codes "/func_updateparam", func_updateparam)
    ∷ (codes "/set_param_tool", set_param_tool)
    ∷ []

unfoldable pub find_route : Bytes → List (Bytes × Route) → Option Route
find_route path [] = none
find_route path ((p, r) ∷ rest) =
    let more = find_route path rest in if bytes_eq p path then some r else more

-- The page for GET of "/".
abbrev pub choice_page : Page
choice_page = ok_page (codes "choice.tmpl") (title (codes "First to be a vendor or already ?"))

abbrev pub before_page : Config → Page
before_page conf = ok_page before_tmpl (
    values (
      (codes "title", codes "Configuration Before Start")
      ∷ (codes "rpc", conf.poly_json_rpc_address)
      ∷ (codes "owallet", conf.wallet_file)
      ∷ (codes "opwd", conf.wallet_pwd)
      ∷ (codes "db", conf.config_db_path)
      ∷ []))

abbrev pub conf_page : Config → Page
conf_page conf = ok_page conf_tmpl (
    values (
      (codes "title", codes "Configuration for Vendor Tool")
      ∷ (codes "rpc", conf.poly_json_rpc_address)
      ∷ (codes "owallet", conf.wallet_file)
      ∷ (codes "opwd", conf.wallet_pwd)
      ∷ (codes "bwallet", conf.btc_privk_file)
      ∷ (codes "bpwd", conf.btc_wallet_pwd)
      ∷ (codes "wait_time", format_int conf.poly_ob_loop_wait_time)
      ∷ (codes "db", conf.config_db_path)
      ∷ (codes "redeem", conf.redeem)
      ∷ []))

abbrev pub wallet_page : Bytes → Config → Page
wallet_page tmpl conf = ok_page tmpl (values ((codes "wallet", conf.wallet_file) ∷ []))

abbrev pub empty_page : Bytes → Page
empty_page tmpl = ok_page tmpl (values [])

-- A handler that only reads the Config.
abbrev pub reads : WebState → Checked Page → Served
reads st (go_on page) = served page st
reads st (stop page) = served page st
reads st crash = crashed st

-- What the pages run on, without the state of the wallets.
pub record Backend : Type 1 where
  pub sdk : Sdk
  pub chain : Chain
  pub scripts : Scripts
  pub keys : KeyLib

module _ (b : Backend) where
  -- The state of the web server: done tells whether the channel is closed. A second close panics
  -- behind the page, which gin recovers from; it leaves the channel closed.
  pub record Server : Type 0 where
    pub st : WebState
    pub wallets : b.keys.Wallets
    pub done : Bool

  -- How a request ends. gin recovers from a handler that panics, with what it has changed before.
  pub data Reply : Type 0 where
    replied : Page → Server → Reply
    not_found : Server → Reply
    panicked : Server → Reply

  abbrev pub kept : Bool → Server → Served → Reply
  kept closes s (served page st) = replied page (record s { st = st; done = closes })
  kept closes s (crashed st) = panicked (record s { st = st })

  abbrev pub with_wallets : Server → Served × b.keys.Wallets → Reply
  with_wallets s (served page st, ws) = replied page (record s { st = st; wallets = ws })
  with_wallets s (crashed st, ws) = panicked (record s { st = st; wallets = ws })

  -- With what the key generator draws for the request.
  unfoldable pub serve_route : Result Bytes → Route → Form → Server → Reply
  serve_route drawn before_init form s = replied (before_page s.st.conf) s
  serve_route drawn init form s = kept s.done s (handle_init b.sdk form s.st)
  serve_route drawn geneprivk form s =
      with_wallets s (handle_gene_privk b.keys drawn form s.wallets s.st)
  serve_route drawn generdm form s = kept s.done s (handle_gene_redeem b.scripts form s.st)
  serve_route drawn sign_contract form s =
      kept s.done s (reads s.st (handle_sign_contract b.sdk form s.st.conf))
  serve_route drawn set_contract form s = kept s.done s (handle_set_contract b.sdk form s.st)
  serve_route drawn sign_param form s =
      kept s.done s (reads s.st (handle_sign_param b.sdk form s.st.conf))
  serve_route drawn set_param form s = kept s.done s (handle_set_param b.sdk form s.st)
  serve_route drawn start_vendor_tool form s = replied (conf_page s.st.conf) s
  serve_route drawn status form s = kept true s (handle_status b.sdk b.chain form s.st)
  serve_route drawn func_signcontract form s = replied (empty_page sign_contract_tmpl) s
  serve_route drawn sign_contract_tool form s =
      kept s.done s (reads s.st (handle_func_sign_contract b.sdk form s.st.conf))
  serve_route drawn func_updatecontract form s = replied (wallet_page set_contract_tmpl s.st.conf) s
  serve_route drawn set_contract_tool form s =
      kept s.done s (handle_func_set_contract b.sdk form s.st)
  serve_route drawn func_signparam form s = replied (empty_page sign_param_tmpl) s
  serve_route drawn sign_param_tool form s =
      kept s.done s (reads s.st (handle_func_sign_param b.sdk form s.st.conf))
  serve_route drawn func_updateparam form s = replied (wallet_page set_param_tmpl s.st.conf) s
  serve_route drawn set_param_tool form s = kept s.done s (handle_func_set_param b.sdk form s.st)

  -- A request that is posted to a path.
  unfoldable pub serve_post : Result Bytes → Bytes → Form → Server → Reply
  unfolding serve_route find_route
  serve_post drawn path form s = elim (find_route path routes) [
    | some r ↦ serve_route drawn r form s
    | none ↦ not_found s
  ]
