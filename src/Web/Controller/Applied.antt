-- ===== src/Web/Controller/Applied.antt =====
-- web/controller/controller.go: what the form of HandleStatus leaves in the Config.
use btc_vendor_tools.Base.{◌≡◌, refl, ap, ◌∙◌, inl, inr, [], ◌∷◌, Option, none, some, Option-cases}
use btc_vendor_tools.Std.Binary.{Bytes}
use btc_vendor_tools.Std.Text.{codes}
use btc_vendor_tools.Config.{Config}
use btc_vendor_tools.Web.Service.{Sdk}
use btc_vendor_tools.Web.Pages.{Form, get_post_form}
use btc_vendor_tools.Web.Controller.{override, WebState}
use btc_vendor_tools.Web.Controller.Stateful.{next}
use btc_vendor_tools.Web.Controller.Status.{
  Chain, text_of, override_if_rpc, override_wait, set_up_if_nil, set_up_poly, change_net,
  apply_form,
}

-- The Config with the fields of the form.
abbrev pub status_conf : Form → Config → Config
status_conf form conf =
    let get = get_post_form form in
    record conf {
      poly_json_rpc_address = override (get (codes "rpc")) conf.poly_json_rpc_address;
      wallet_file =
          override_if_rpc (text_of (get (codes "rpc"))) (get (codes "owallet")) conf.wallet_file;
      wallet_pwd = override (get (codes "opwd")) conf.wallet_pwd;
      btc_privk_file = override (get (codes "bwallet")) conf.btc_privk_file;
      btc_wallet_pwd = override (get (codes "bpwd")) conf.btc_wallet_pwd;
      config_bitcoin_net = override (get (codes "nt")) conf.config_bitcoin_net;
      poly_ob_loop_wait_time = override_wait (get (codes "wait_time")) conf.poly_ob_loop_wait_time;
      config_db_path = override (get (codes "db")) conf.config_db_path;
      redeem = override (get (codes "redeem")) conf.redeem;
    }

module _ (sdk : Sdk) (chain : Chain) where
  set_up_if_nil-keeps :
      (st : WebState)
      → ((set_up_if_nil sdk chain st).conf ≡ st.conf)
        × ((set_up_if_nil sdk chain st).acc ≡ st.acc)
        × ((set_up_if_nil sdk chain st).calls ≡ st.calls)
  unfolding set_up_poly
  set_up_if_nil-keeps st = elim (Option-cases st.rpc) [
    | inl absent ↦ rw (absent, set_up_if_nil) (refl, refl, refl)
    | inr (addr, set) ↦ rw (set, set_up_if_nil) (refl, refl, refl)
  ]

  change_net-keeps :
      (nt : Option Bytes) (st : WebState)
      → ((change_net sdk chain nt st).conf
          ≡ record st.conf { config_bitcoin_net = override nt st.conf.config_bitcoin_net })
        × ((change_net sdk chain nt st).acc ≡ st.acc)
        × ((change_net sdk chain nt st).calls ≡ st.calls)
  change_net-keeps none st = (refl, refl, refl)
  change_net-keeps (some []) st = (refl, refl, refl)
  change_net-keeps (some (c ∷ cs)) st = (refl, refl, refl)

  module _ (form : Form) where
    abbrev early : Config → Config
    early c = record c {
      wallet_file =
          override_if_rpc (text_of (get_post_form form (codes "rpc")))
            (get_post_form form (codes "owallet")) c.wallet_file;
      wallet_pwd = override (get_post_form form (codes "opwd")) c.wallet_pwd;
      btc_privk_file = override (get_post_form form (codes "bwallet")) c.btc_privk_file;
      btc_wallet_pwd = override (get_post_form form (codes "bpwd")) c.btc_wallet_pwd;
    }

    abbrev late : Config → Config
    late c = record c {
      poly_ob_loop_wait_time =
          override_wait (get_post_form form (codes "wait_time")) c.poly_ob_loop_wait_time;
      config_db_path = override (get_post_form form (codes "db")) c.config_db_path;
      redeem = override (get_post_form form (codes "redeem")) c.redeem;
    }

    abbrev with_net : Config → Config
    with_net c = record c {
      config_bitcoin_net = override (get_post_form form (codes "nt")) c.config_bitcoin_net;
    }

    -- The fields never end the handler.
    pub apply_form-next :
        (st : WebState)
        → (st' : WebState) × (apply_form sdk chain form st ≡ next tt st')
          × (st'.conf ≡ status_conf form st.conf)
          × (st'.acc ≡ st.acc)
          × (st'.calls ≡ st.calls)
    unfolding apply_form
    apply_form-next st =
        let addressed : WebState = record st {
          conf = record st.conf {
            poly_json_rpc_address =
                override (get_post_form form (codes "rpc")) st.conf.poly_json_rpc_address;
          };
        } in
        let s1 = set_up_if_nil sdk chain addressed in
        let s2 : WebState = record s1 { conf = early s1.conf } in
        let s3 = change_net sdk chain (get_post_form form (codes "nt")) s2 in
        let (conf1, acc1, calls1) = set_up_if_nil-keeps addressed in
        let (conf3, acc3, calls3) = change_net-keeps (get_post_form form (codes "nt")) s2 in
        (
          record s3 { conf = late s3.conf },
          refl,
          ap late (conf3 ∙ ap (λ c. with_net (early c)) conf1),
          acc3 ∙ acc1,
          calls3 ∙ calls1,
        )
