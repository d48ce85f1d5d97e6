-- ===== src/Web/Controller/Setup.antt =====
-- web/controller/controller.go: HandleInit and HandleStatus.
use btc_vendor_tools.Base.{some, bytes_eq, if◌then◌else◌}
use btc_vendor_tools.Std.Binary.{Bytes}
use btc_vendor_tools.Std.Text.{codes}
use btc_vendor_tools.Config.{Config, Net, regtest, testnet, mainnet}
use btc_vendor_tools.Web.Service.{Sdk}
use btc_vendor_tools.Web.Pages.{Form, get_post_form, Page, title, index_tmpl}
use btc_vendor_tools.Web.Controller.{override, WebState, Served}
use btc_vendor_tools.Web.Controller.Stateful.{
  Handler, ◌>>=◌, ◌>>◌, answer, need, change, change_conf, open_account, serve,
}

abbrev pub before_tmpl : Bytes
before_tmpl = codes "before.tmpl"

abbrev pub conf_tmpl : Bytes
conf_tmpl = codes "conf.tmpl"

abbrev pub status_tmpl : Bytes
status_tmpl = codes "status.tmpl"

-- The switch over the names of the net.
unfoldable pub net_of : Bytes → Net
net_of nt =
    if bytes_eq nt (codes "regtest")
    then regtest
    else if bytes_eq nt (codes "test")
    then testnet
    else mainnet

abbrev pub set_address : Bytes → Config → Config
set_address v c = record c { poly_json_rpc_address = override (some v) c.poly_json_rpc_address }

abbrev pub set_wallet : Bytes → Config → Config
set_wallet v c = record c { wallet_file = override (some v) c.wallet_file }

abbrev pub set_wallet_pwd : Bytes → Config → Config
set_wallet_pwd v c = record c { wallet_pwd = override (some v) c.wallet_pwd }

abbrev pub set_net : Bytes → Config → Config
set_net v c = record c { config_bitcoin_net = override (some v) c.config_bitcoin_net }

abbrev pub set_db : Bytes → Config → Config
set_db v c = record c { config_db_path = override (some v) c.config_db_path }

-- `NewRpcClient().SetAddress(…)`.
abbrev pub new_client : WebState → WebState
new_client st = record st { rpc = some st.conf.poly_json_rpc_address }

abbrev pub choose_net : WebState → WebState
choose_net st = record st { net = some (net_of st.conf.config_bitcoin_net) }

module _ (sdk : Sdk) where
  abbrev init_steps : Form → Handler Page
  init_steps form = do
    rpc ← need 400 before_tmpl (codes "no rpc address set") (get_post_form form (codes "rpc"))
    change_conf (set_address rpc)
    change new_client
    ow ← need 400 before_tmpl (codes "no poly wallet set") (get_post_form form (codes "owallet"))
    change_conf (set_wallet ow)
    opwd ←
        need 400 before_tmpl (codes "no poly wallet password set")
          (get_post_form form (codes "opwd"))
    change_conf (set_wallet_pwd opwd)
    nt ← need 400 before_tmpl (codes "no bitcoin net type set") (get_post_form form (codes "nt"))
    change_conf (set_net nt)
    change choose_net
    db ← need 200 before_tmpl (codes "no db path set") (get_post_form form (codes "db"))
    change_conf (set_db db)
    open_account sdk before_tmpl
    answer 200 index_tmpl (title (codes "Vendor Tool"))

  unfoldable pub handle_init : Form → WebState → Served
  unfolding net_of
  handle_init form st = serve (init_steps form st)
