-- ===== src/Web/Controller/Configured.antt =====
-- web/controller/controller.go: what HandleInit leaves in the Config and in the service.
use btc_vendor_tools.Base.{
  Error, ℕ, ◌≡◌, refl, ap, ◌⊎◌, inl, inr, Option, none, some, ok, Result-cases,
}
use btc_vendor_tools.Std.Binary.{Bytes}
use btc_vendor_tools.Std.Text.{codes}
use btc_vendor_tools.Config.{Config}
use btc_vendor_tools.Web.Service.{Sdk}
use btc_vendor_tools.Web.Pages.{Form, get_post_form, Page, failed, title, ok_page, index_tmpl}
use btc_vendor_tools.Web.Controller.{override, WebState, served, read_account, get_orc_pwd}
use btc_vendor_tools.Web.Controller.Calls.{served_eq}
use btc_vendor_tools.Web.Controller.Stateful.{Handler, ◌>>=◌, ◌>>◌, need, open_account, serve}
use btc_vendor_tools.Web.Controller.Setup.{before_tmpl, net_of, handle_init}

-- The form has all five fields.
pub record IsInitForm (form : Form) : Type 0 where
  pub rpc : (v : Bytes) × (get_post_form form (codes "rpc") ≡ some v)
  pub owallet : (v : Bytes) × (get_post_form form (codes "owallet") ≡ some v)
  pub opwd : (v : Bytes) × (get_post_form form (codes "opwd") ≡ some v)
  pub nt : (v : Bytes) × (get_post_form form (codes "nt") ≡ some v)
  pub db : (v : Bytes) × (get_post_form form (codes "db") ≡ some v)

-- The Config with every field of the form that is not empty.
abbrev pub init_conf : Form → Config → Config
init_conf form conf = record conf {
  poly_json_rpc_address = override (get_post_form form (codes "rpc")) conf.poly_json_rpc_address;
  wallet_file = override (get_post_form form (codes "owallet")) conf.wallet_file;
  wallet_pwd = override (get_post_form form (codes "opwd")) conf.wallet_pwd;
  config_bitcoin_net = override (get_post_form form (codes "nt")) conf.config_bitcoin_net;
  config_db_path = override (get_post_form form (codes "db")) conf.config_db_path;
}

-- The state of a service that is set up.
abbrev pub ready : Form → WebState → Bytes → WebState
ready form st acc = record st {
  conf = init_conf form st.conf;
  acc = some acc;
  rpc = some (init_conf form st.conf).poly_json_rpc_address;
  net = some (net_of (init_conf form st.conf).config_bitcoin_net);
}

-- A field that is needed: the handler stops with its template, or goes on.
need_cases :
    (status : ℕ) (tmpl text : Bytes) (r : Option Bytes) (f : Bytes → Handler Page) (st : WebState)
    {page : Page} {st' : WebState}
    → serve ((need status tmpl text r >>= f) st) ≡ served page st'
    → ((page.template ≡ tmpl) × (st' ≡ st))
      ⊎ ((v : Bytes) × (r ≡ some v) × (serve (f v st) ≡ served page st'))
need_cases status tmpl text none f st e =
    inl (ap (λ p. p.template) (served_eq e).0, (served_eq e).1)
need_cases status tmpl text (some v) f st e = inr (v, refl, e)

pub account_cases :
    (sdk : Sdk) (tmpl : Bytes) (f : Handler Page) (st : WebState) {page : Page} {st' : WebState}
    → serve ((open_account sdk tmpl >> f) st) ≡ served page st'
    → ((page.template ≡ tmpl)
        × (st' ≡ st)
        × ((x : Error) × (page.data_ ≡ failed (codes "get account failed: ") x)))
      ⊎ ((acc : Bytes) × (get_orc_pwd sdk st.conf ≡ ok acc)
          × (serve (f (read_account st acc)) ≡ served page st'))
account_cases sdk tmpl f st e = elim (Result-cases (get_orc_pwd sdk st.conf)) [
  | inl (acc, opens) ↦ inr (acc, opens, rw (opens, open_account) at e)
  | inr (inl (x, bad)) ↦
      let shown = served_eq (rw (bad, open_account) at e) in
      inl (ap (λ p. p.template) shown.0, shown.1, (x, ap (λ p. p.data_) shown.0))
  | inr (inr bad) ↦ cc (rw (bad, open_account) at e)
]

-- HandleInit either answers with the page before.tmpl and leaves the account of the service alone,
-- or all five fields are there; then the Config has each of them that is not empty, the wallet of
-- the Config opens, and afterwards its account is the account of the service, the client has the
-- address and BtcNetParam the net that the Config names, and nothing else has changed.
pub handle_init_cases :
    (sdk : Sdk) (form : Form) (st st' : WebState) (page : Page)
    → handle_init sdk form st ≡ served page st'
    → ((page.template ≡ before_tmpl) × (st'.acc ≡ st.acc))
      ⊎ ((acc : Bytes) × (get_orc_pwd sdk (init_conf form st.conf) ≡ ok acc)
          × IsInitForm form
          × (page ≡ ok_page index_tmpl (title (codes "Vendor Tool")))
          × (st' ≡ ready form st acc))
unfolding handle_init
handle_init_cases sdk form st st' page e =
    elim (need_cases _ _ _ (get_post_form form (codes "rpc")) _ _ e) [
      | inl (t, s) ↦ inl (t, ap (λ x. x.acc) s)
      | inr (rpc, rpc_, e1) ↦
          elim (need_cases _ _ _ (get_post_form form (codes "owallet")) _ _ e1) [
            | inl (t, s) ↦ inl (t, ap (λ x. x.acc) s)
            | inr (ow, ow_, e2) ↦
                elim (need_cases _ _ _ (get_post_form form (codes "opwd")) _ _ e2) [
                  | inl (t, s) ↦ inl (t, ap (λ x. x.acc) s)
                  | inr (opwd, opwd_, e3) ↦
                      elim (need_cases _ _ _ (get_post_form form (codes "nt")) _ _ e3) [
                        | inl (t, s) ↦ inl (t, ap (λ x. x.acc) s)
                        | inr (nt, nt_, e4) ↦
                            elim (need_cases _ _ _ (get_post_form form (codes "db")) _ _ e4) [
                              | inl (t, s) ↦ inl (t, ap (λ x. x.acc) s)
                              | inr (db, db_, e5) ↦ elim (account_cases sdk _ _ _ e5) [
                                | inl (t, s, _) ↦ inl (t, ap (λ x. x.acc) s)
                                | inr (acc, opens, e6) ↦
                                    let (shown, after) = served_eq e6 in
                                    inr (
                                      acc,
                                      rw (ow_, opwd_) opens,
                                      record {
                                        rpc = (rpc, rpc_);
                                        owallet = (ow, ow_);
                                        opwd = (opwd, opwd_);
                                        nt = (nt, nt_);
                                        db = (db, db_);
                                      },
                                      shown,
                                      rw (rpc_, ow_, opwd_, nt_, db_) after,
                                    )
                              ]
                            ]
                      ]
                ]
          ]
    ]
