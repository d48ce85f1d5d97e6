-- ===== src/Web/Controller/Overview.antt =====
-- web/controller/controller.go: what the page of HandleStatus shows.
use Prim.Native.String.{String}
use btc_vendor_tools.Base.{
  ℕ, ◌+◌, ◌%◌, ◌^◌, ◌≡◌, refl, ap, sym, ◌∙◌, ◌⊎◌, inl, inr, List, [], ◌∷◌, ◌++◌, length, Option,
  some, Error, Result, ok, err, panic, arith,
}
use btc_vendor_tools.Std.Binary.{Bytes}
use btc_vendor_tools.Std.Hex.{hex_decode}
use btc_vendor_tools.Std.Text.{codes}
use btc_vendor_tools.Web.Service.{Sdk}
use btc_vendor_tools.Web.Pages.{Form, Page, Notice, Summary, wrong, status_of}
use btc_vendor_tools.Web.Controller.{WebState, Served, served, read_account, get_orc_pwd}
use btc_vendor_tools.Web.Controller.Calls.{served_eq}
use btc_vendor_tools.Web.Controller.Stateful.{Handler, next, ◌>>=◌, ◌>>◌, serve, open_account}
use btc_vendor_tools.Web.Controller.Configured.{account_cases}
use btc_vendor_tools.Web.Controller.Setup.{conf_tmpl}
use btc_vendor_tools.Web.Controller.Applied.{status_conf, apply_form-next}
use btc_vendor_tools.Web.Controller.Status.{
  Chain, sum_values, apply_form, show_status, utxos_key, utxos_or_none, error_page, handle_status,
}

-- The sum of the values without a bound.
abbrev pub sum : List ℕ → ℕ
sum [] = 0
sum (v ∷ vs) = v + sum vs

sum_values-mod : (acc : ℕ) (vs : List ℕ) → sum_values (acc % 2 ^ 64) vs ≡ (acc + sum vs) % 2 ^ 64
unfolding sum_values
sum_values-mod acc [] = omega arith
sum_values-mod acc (v ∷ vs) =
    let once : (acc % 2 ^ 64 + v) % 2 ^ 64 ≡ (acc + v) % 2 ^ 64 = omega arith in
    rw once (sum_values-mod (acc + v) vs ∙ ap (λ (t : ℕ). t % 2 ^ 64) (omega arith))

-- One read of the status page: it fails, or the page goes on.
error_page_cases :
    {A : Type 0} (sdk : Sdk) (chain : Chain) (text : Bytes) (r : Result A) (f : A → Handler Page)
    (st : WebState) {page : Page} {st' : WebState}
    → serve ((error_page sdk chain text r >>= f) st) ≡ served page st'
    → ((e : Error) × (page.data_ ≡ wrong text e) × (st' ≡ st))
      ⊎ ((a : A) × (r ≡ ok a) × (serve (f a st) ≡ served page st'))
error_page_cases sdk chain text (ok a) f st e = inr (a, refl, e)
error_page_cases sdk chain text (err x) f st e =
    inl (x, ap (λ p. p.data_) (served_eq e).0, (served_eq e).1)
error_page_cases sdk chain text panic f st e = cc

numbers : (s : Summary) {n : Notice} {t : Summary} → n ≡ status_of s → n ≡ status_of t → s ≡ t
numbers s {n} {t} is shown =
    let same : ◌≡◌ {A = Notice} (status_of s) (status_of t) = sym is ∙ shown in cc same

-- A handler behind one that goes on.
behind :
    (m : Handler (Unit {0})) (f : Handler Page) (st st1 : WebState) {served_ : Served}
    → m st ≡ next tt st1
    → serve ((m >> f) st) ≡ served_
    → serve (f st1) ≡ served_
behind m f st st1 goes e = rw goes at e

module _ (sdk : Sdk) (chain : Chain) where
  -- What the numbers on the page come from: the redeem script of the Config and the utxos that the
  -- chain holds for its hash.
  pub record IsShown (st : WebState) (s : Summary) : Type 0 where
    pub raw : Bytes
    pub store : Option Bytes
    pub values : List ℕ
    pub redeem : hex_decode st.conf.redeem ≡ ok raw
    pub read :
        chain.get_storage st.rpc chain.cross_chain_manager (utxos_key sdk chain (sdk.hash160 raw))
        ≡ ok store
    pub utxos : utxos_or_none sdk chain store ≡ ok values
    pub summed : s.sum ≡ sum values % 2 ^ 64
    pub counted : s.total ≡ length values

  module _ (st : WebState) (page : Page) where
    abbrev Shown : WebState → Type 0
    Shown st' = (st' ≡ st) × ((s : Summary) → page.data_ ≡ status_of s → IsShown st' s)

    refused_page :
        {st' : WebState} {text : Bytes} {x : Error}
        → page.data_ ≡ wrong text x
        → st' ≡ st
        → Shown st'
    refused_page shown same = (same, λ s e. cc (shown, e))

    by_error :
        {A : Type 0} (text : String) (r : Result A) (f : A → Handler Page) {st' : WebState}
        → serve ((error_page sdk chain (codes text) r >>= f) st) ≡ served page st'
        → ((e : Error) × (page.data_ ≡ wrong (codes text) e) × (st' ≡ st))
          ⊎ ((a : A) × (r ≡ ok a) × (serve (f a st) ≡ served page st'))
    by_error text r f e = error_page_cases sdk chain (codes text) r f st e

    abbrev side_chain : Bytes → Result (Option Bytes)
    side_chain key = chain.get_storage st.rpc chain.side_chain_manager key

    abbrev utxos_of : Bytes → Result (Option Bytes)
    utxos_of raw =
        chain.get_storage st.rpc chain.cross_chain_manager (utxos_key sdk chain (sdk.hash160 raw))

    abbrev contract_of : Bytes → Result (Option Bytes)
    contract_of raw =
        side_chain
          (chain.redeem_bind ++ sdk.uint64_bytes 1 ++ sdk.uint64_bytes 2 ++ sdk.hash160 raw)

    abbrev param_of : Bytes → Result (Option Bytes)
    param_of raw = side_chain (chain.btc_tx_param ++ sdk.hash160 raw ++ sdk.uint64_bytes 1)

    show_status-Shown :
        {st' : WebState} → serve (show_status sdk chain st) ≡ served page st' → Shown st'
    unfolding show_status
    show_status-Shown e = elim (by_error "wrong redeem: " (hex_decode st.conf.redeem) _ e) [
      | inl (x, shown, same) ↦ refused_page shown same
      | inr (raw, raw_, e1) ↦ elim (by_error "get utxo failed: " (utxos_of raw) _ e1) [
        | inl (x, shown, same) ↦ refused_page shown same
        | inr (store, store_, e2) ↦
            elim (by_error "failed to deserialize utxos: " (utxos_or_none sdk chain store) _ e2) [
              | inl (x, shown, same) ↦ refused_page shown same
              | inr (values, values_, e3) ↦
                  elim (by_error "failed to get contract info: " (contract_of raw) _ e3) [
                    | inl (x, shown, same) ↦ refused_page shown same
                    | inr (val, val_, e4) ↦
                        elim (by_error "failed to get param info: " (param_of raw) _ e4) [
                          | inl (x, shown, same) ↦ refused_page shown same
                          | inr (val', val_', e5) ↦
                              let (shown, same) = served_eq e5 in
                              (
                                same,
                                λ s is. rw same (record {
                                  raw = raw;
                                  store = store;
                                  values = values;
                                  redeem = raw_;
                                  read = store_;
                                  utxos = values_;
                                  summed =
                                      ap (λ t. t.sum) (numbers s is (ap (λ p. p.data_) shown))
                                      ∙ (sum_values-mod 0 values
                                          ∙ ap (λ (t : ℕ). t % 2 ^ 64) (omega arith));
                                  counted =
                                      ap (λ t. t.total) (numbers s is (ap (λ p. p.data_) shown));
                                }),
                              )
                        ]
                  ]
            ]
      ]
    ]

-- HandleStatus sends no transaction. Whatever page it answers with, the Config has afterwards each
-- field of the form that is not empty, a wait time only if it is a number of int64, and the field of
-- the wallet, even if it is empty, exactly if the form has an address of the node that is not empty.
-- A page that shows a status comes with the account of the wallet of that Config, and shows how many
-- utxos the chain holds for the redeem script of that Config, and their sum modulo 2 ^ 64.
pub handle_status_shows :
    (sdk : Sdk) (chain : Chain) (form : Form) (st st' : WebState) (page : Page)
    → handle_status sdk chain form st ≡ served page st'
    → (st'.conf ≡ status_conf form st.conf)
      × (st'.calls ≡ st.calls)
      × ((s : Summary)
          → page.data_ ≡ status_of s
          → ((acc : Bytes) × (get_orc_pwd sdk st'.conf ≡ ok acc) × (st'.acc ≡ some acc))
            × IsShown sdk chain st' s)
unfolding handle_status
handle_status_shows sdk chain form st st' page e =
    let (st1, applied, conf1, acc1, calls1) = apply_form-next sdk chain form st in
    elim (account_cases sdk conf_tmpl (show_status sdk chain) st1 (
      behind (apply_form sdk chain form) (open_account sdk conf_tmpl >> show_status sdk chain) st
        st1 applied e)) [
          | inl (_, same, (x, shown)) ↦ (
            ap (λ s. s.conf) same ∙ conf1,
            ap (λ s. s.calls) same ∙ calls1,
            λ s is. cc (shown, is),
          )
          | inr (acc, opens, e1) ↦
              let (same, shown) = show_status-Shown sdk chain (read_account st1 acc) page e1 in
              (
                ap (λ s. s.conf) same ∙ conf1,
                ap (λ s. s.calls) same ∙ calls1,
                λ s is. (
                  (acc, ap (λ x. get_orc_pwd sdk x.conf) same ∙ opens, ap (λ x. x.acc) same),
                  shown s is,
                ),
              )
        ]
