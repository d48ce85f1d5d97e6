-- ===== src/Web/Controller/Status.antt =====
-- web/controller/controller.go: HandleStatus, with SetUpPoly of utils/utils.go.
use btc_vendor_tools.Base.{
  ℕ, ◌+◌, ◌%◌, ◌^◌, List, [], ◌∷◌, ◌++◌, length, Option, none, some, Result, ok,
}
use btc_vendor_tools.Std.Binary.{Bytes}
use btc_vendor_tools.Std.Hex.{hex_encode, hex_decode}
use btc_vendor_tools.Std.Int.{ℤ, parse_int}
use btc_vendor_tools.Std.Text.{codes}
use btc_vendor_tools.Web.Service.{Sdk}
use btc_vendor_tools.Web.Pages.{Form, get_post_form, Page, wrong, status_of}
use btc_vendor_tools.Web.Controller.{override, WebState, Served}
use btc_vendor_tools.Web.Controller.Stateful.{
  Handler, ◌>>=◌, ◌>>◌, answer, checked, change, change_conf, reading, open_account, serve,
}
use btc_vendor_tools.Web.Controller.Setup.{conf_tmpl, status_tmpl, net_of}

-- What HandleStatus and SetUpPoly use of the Poly SDK and of the packages of Poly's contracts.
pub record Chain : Type 0 where
  -- The chain id in the header at height 0, as the node at an address answers.
  pub genesis_chain_id : Bytes → Result ℕ
  -- GetStorage of a contract and a key through the client; nil is `none`.
  pub get_storage : Option Bytes → Bytes → Bytes → Result (Option Bytes)
  pub cross_chain_manager : Bytes
  pub side_chain_manager : Bytes
  pub utxos : Bytes
  pub redeem_bind : Bytes
  pub btc_tx_param : Bytes
  -- The values of the Utxos that are deserialized.
  pub utxo_values : Bytes → Result (List ℕ)
  -- Contract and Ver, and PVersion, FeeRate and MinChange, after a Deserialization whose error is
  -- ignored.
  pub contract_binded : Bytes → Bytes × ℕ
  pub param_detail : Bytes → ℕ × ℕ × ℕ

-- The text of a field; a missing one is "".
abbrev pub text_of : Option Bytes → Bytes
text_of none = []
text_of (some v) = v

-- `if ok && rpc != "" { … = ow }`: the test is of the address of the node, not of the wallet.
abbrev pub override_if_rpc : Bytes → Option Bytes → Bytes → Bytes
override_if_rpc [] ow old = old
override_if_rpc (c ∷ cs) none old = old
override_if_rpc (c ∷ cs) (some ow) old = ow

-- `time, err := strconv.ParseInt(wt, 10, 64); if err == nil { … = time }`.
abbrev pub ok_or : Result ℤ → ℤ → ℤ
ok_or (ok z) old = z
ok_or _ old = old

abbrev pub override_wait : Option Bytes → ℤ → ℤ
override_wait none old = old
override_wait (some []) old = old
override_wait (some (c ∷ cs)) old = ok_or (parse_int (c ∷ cs)) old

-- The loop over the utxos, on uint64.
unfoldable pub sum_values : ℕ → List ℕ → ℕ
sum_values sum [] = sum
sum_values sum (v ∷ vs) = sum_values ((sum + v) % 2 ^ 64) vs

abbrev pub or_empty : Option Bytes → Bytes
or_empty none = []
or_empty (some bs) = bs

module _ (sdk : Sdk) (chain : Chain) where
  abbrev pub chain_id_or : Result ℕ → ℕ → ℕ
  chain_id_or (ok id) old = id
  chain_id_or _ old = old

  -- SetUpPoly, whose error HandleStatus drops.
  unfoldable pub set_up_poly : WebState → WebState
  set_up_poly st =
      let addr = st.conf.poly_json_rpc_address in
      record st {
        rpc = some addr;
        chain_id = chain_id_or (chain.genesis_chain_id addr) st.chain_id;
      }

  abbrev pub set_up_if_nil : WebState → WebState
  set_up_if_nil st = elim st.rpc [ some addr ↦ st | none ↦ set_up_poly st ]

  abbrev pub change_net : Option Bytes → WebState → WebState
  change_net none st = st
  change_net (some []) st = st
  change_net (some (c ∷ cs)) st = record st {
    conf = record st.conf { config_bitcoin_net = c ∷ cs };
    net = some (net_of (c ∷ cs));
  }

  -- The fields, each of which may change the Config.
  unfoldable pub apply_form : Form → Handler (Unit {0})
  unfolding set_up_poly net_of
  apply_form form =
      let get = get_post_form form in
      do
        change_conf (λ c. record c {
          poly_json_rpc_address = override (get (codes "rpc")) c.poly_json_rpc_address;
        })
        change set_up_if_nil
        change_conf (λ c. record c {
          wallet_file =
              override_if_rpc (text_of (get (codes "rpc"))) (get (codes "owallet")) c.wallet_file;
        })
        change_conf (λ c. record c { wallet_pwd = override (get (codes "opwd")) c.wallet_pwd })
        change_conf
            (λ c. record c { btc_privk_file = override (get (codes "bwallet")) c.btc_privk_file })
        change_conf
            (λ c. record c { btc_wallet_pwd = override (get (codes "bpwd")) c.btc_wallet_pwd })
        change (change_net (get (codes "nt")))
        change_conf (λ c. record c {
          poly_ob_loop_wait_time = override_wait (get (codes "wait_time")) c.poly_ob_loop_wait_time;
        })
        change_conf
            (λ c. record c { config_db_path = override (get (codes "db")) c.config_db_path })
        change_conf (λ c. record c { redeem = override (get (codes "redeem")) c.redeem })

  abbrev pub utxos_or_none : Option Bytes → Result (List ℕ)
  utxos_or_none none = ok []
  utxos_or_none (some bs) = chain.utxo_values bs

  abbrev pub error_page : {A : Type 0} → Bytes → Result A → Handler A
  error_page text = checked 400 status_tmpl (wrong text)

  unfoldable pub utxos_key : Bytes → Bytes
  utxos_key rk = chain.utxos ++ sdk.uint64_bytes 1 ++ hex_encode rk

  -- What is read from the chain for the page.
  unfoldable pub show_status : Handler Page
  unfolding utxos_key
  show_status =
      reading (λ st. st)
        (λ st. do
          raw ← error_page (codes "wrong redeem: ") (hex_decode st.conf.redeem)
          let rk = sdk.hash160 raw
          let read = chain.get_storage st.rpc
          store ←
              error_page (codes "get utxo failed: ") (read chain.cross_chain_manager (utxos_key rk))
          values ← error_page (codes "failed to deserialize utxos: ") (utxos_or_none store)
          val ← error_page (codes "failed to get contract info: ") (
              read chain.side_chain_manager
                (chain.redeem_bind ++ sdk.uint64_bytes 1 ++ sdk.uint64_bytes 2 ++ rk))
          val' ←
              error_page (codes "failed to get param info: ")
                (read chain.side_chain_manager (chain.btc_tx_param ++ rk ++ sdk.uint64_bytes 1))
          let b = chain.contract_binded (or_empty val)
          let d = chain.param_detail (or_empty val')
          answer 200 status_tmpl (
              status_of (record {
                sum = sum_values 0 values;
                total = length values;
                contract = hex_encode b.0;
                ver = b.1;
                mc = d.2;
                fr = d.1;
                pver = d.0;
              })))

  unfoldable pub handle_status : Form → WebState → Served
  unfolding apply_form show_status
  handle_status form st =
      serve ((apply_form form >> (open_account sdk conf_tmpl >> show_status)) st)
