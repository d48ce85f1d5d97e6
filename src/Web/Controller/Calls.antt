-- ===== src/Web/Controller/Calls.antt =====
-- web/controller/controller.go: when a handler sends a transaction.
use btc_vendor_tools.Base.{
  ◌≡◌, ◌⊎◌, inl, inr, refl, ap, [], ◌∷◌, ◌++◌, arith, Error, Option, some, Result, ok, err, panic,
}
use btc_vendor_tools.Std.Binary.{Bytes}
use btc_vendor_tools.Std.Text.{codes}
use btc_vendor_tools.Web.Service.{Call, Sdk}
use btc_vendor_tools.Web.Pages.{Form, Page, Checked, go_on, stop, crash, ok_page, your_tx, failed}
use btc_vendor_tools.Web.Controller.{
  WebState, read_account, served, contract_request, param_request, finish, sent_page,
  handle_set_contract, handle_func_set_param, with_account, override_wallet, get_orc_pwd,
  set_contract_text, set_param_text,
}
use btc_vendor_tools.Web.Controller.Forms.{
  IsContractForm, IsParamForm, contract_request-IsContractForm, param_request-IsParamForm,
}

pub served_eq : {p p' : Page} {s s' : WebState} → served p s ≡ served p' s' → (p' ≡ p) × (s' ≡ s)
served_eq e = (ground arith, ground arith)

abbrev pub sending : WebState → Call → WebState
sending st call = record st { calls = st.calls ++ call ∷ [] }

-- The page that shows what Poly answers to a transaction of an account: the hash, or the error.
pub data Shows (sdk : Sdk) (tmpl text : Bytes) (acc : Option Bytes) (call : Call) (page : Page)
    : Type 0 where
  accepted :
      (tx : Bytes)
      → sdk.submit acc call ≡ ok tx
      → page ≡ ok_page tmpl (your_tx tx)
      → Shows sdk tmpl text acc call page
  refused :
      (e : Error)
      → sdk.submit acc call ≡ err e
      → page ≡ ok_page tmpl (failed text e)
      → Shows sdk tmpl text acc call page

module _ (sdk : Sdk) where
  sent_page-Shows :
      (tmpl text : Bytes) (acc : Option Bytes) (call : Call) (st st' : WebState) (r : Result Bytes)
      (page : Page)
      → sdk.submit acc call ≡ r
      → sent_page sdk tmpl text st r ≡ served page st'
      → (st' ≡ st) × Shows sdk tmpl text acc call page
  sent_page-Shows tmpl text acc call st st' (ok tx) page answer e =
      let p = served_eq e in (p.1, accepted tx answer p.0)
  sent_page-Shows tmpl text acc call st st' (err x) page answer e =
      let p = served_eq e in (p.1, refused x answer p.0)
  sent_page-Shows tmpl text acc call st st' panic page answer e = cc

  Shows-status :
      (tmpl text : Bytes) (acc : Option Bytes) (call : Call) (page : Page)
      → Shows sdk tmpl text acc call page
      → page.status ≡ 200
  Shows-status tmpl text acc call page (accepted tx answer is) = ap (λ q. q.status) is
  Shows-status tmpl text acc call page (refused e answer is) = ap (λ q. q.status) is

  finish_calls :
      (tmpl text : Bytes) (st st' : WebState) (req : Checked (Result Call)) (page : Page)
      → finish sdk tmpl text st req ≡ served page st'
      → (st' ≡ st)
        ⊎ ((call : Call) × (req ≡ go_on (ok call))
            × (st' ≡ sending st call)
            × Shows sdk tmpl text st.acc call page)
  finish_calls tmpl text st st' (stop p) page e = inl (served_eq e).1
  finish_calls tmpl text st st' crash page e = cc
  finish_calls tmpl text st st' (go_on (err x)) page e = inl (served_eq e).1
  finish_calls tmpl text st st' (go_on panic) page e = cc
  finish_calls tmpl text st st' (go_on (ok call)) page e =
      let (after, shows) =
        sent_page-Shows tmpl text st.acc call (sending st call) st' (sdk.submit st.acc call) page
          refl e in
      inr (call, refl, after, shows)

-- HandleSetContract changes nothing, or sends one transaction; it does that only where all four
-- fields are there and the two numbers are unsigned 64-bit numbers, the transaction is the one that
-- SetContract makes of them, and the page is no bad request.
pub handle_set_contract_calls :
    (sdk : Sdk) (form : Form) (st st' : WebState) (page : Page)
    → handle_set_contract sdk form st ≡ served page st'
    → (st' ≡ st)
      ⊎ ((call : Call) × IsContractForm form st.conf call
          × (st' ≡ sending st call)
          × (page.status ≡ 200))
unfolding handle_set_contract
handle_set_contract_calls sdk form st st' page e =
    elim (finish_calls sdk (codes "index.tmpl") (set_contract_text sdk) st st'
      (contract_request (codes "index.tmpl") form st.conf) page e) [
        | inl same ↦ inl same
        | inr (call, made, after, shows) ↦ inr (
          call,
          contract_request-IsContractForm (codes "index.tmpl") form st.conf call made,
          after,
          Shows-status sdk (codes "index.tmpl") (set_contract_text sdk) st.acc call page shows,
        )
      ]

-- The state behind the two fields of the wallet and getORCPwd.
abbrev pub opened : Form → WebState → Bytes → WebState
opened form st acc = read_account (record st { conf = override_wallet form st.conf }) acc

-- HandleFuncSetParam sends no transaction, or one; it does that only where the wallet that the page
-- may have changed opens, all four fields are there and the three numbers are unsigned 64-bit
-- numbers. The transaction is the one that SetParam makes of them, and the page shows what Poly
-- answers to it from the account of that wallet: the hash, or the error.
pub handle_func_set_param_calls :
    (sdk : Sdk) (form : Form) (st st' : WebState) (page : Page)
    → handle_func_set_param sdk form st ≡ served page st'
    → (st'.calls ≡ st.calls)
      ⊎ ((acc : Bytes) × (call : Call) × (get_orc_pwd sdk (override_wallet form st.conf) ≡ ok acc)
          × IsParamForm form (override_wallet form st.conf) call
          × (st' ≡ sending (opened form st acc) call)
          × Shows sdk (codes "set_param.tmpl") (codes "failed to set param: ") (some acc) call page)
unfolding handle_func_set_param
handle_func_set_param_calls sdk form st st' page e =
    by_account (get_orc_pwd sdk (override_wallet form st.conf)) refl e
  where
    tmpl : Bytes
    tmpl = codes "set_param.tmpl"

    by_account :
        (r : Result Bytes)
        → get_orc_pwd sdk (override_wallet form st.conf) ≡ r
        → with_account sdk
            (record st { conf = override_wallet form st.conf })
            (λ s. finish sdk tmpl (set_param_text sdk) s (param_request tmpl form s.conf))
            r
          ≡ served page st'
        → (st'.calls ≡ st.calls)
          ⊎ ((acc : Bytes) × (call : Call) × (get_orc_pwd sdk (override_wallet form st.conf)
                ≡ ok acc)
              × IsParamForm form (override_wallet form st.conf) call
              × (st' ≡ sending (opened form st acc) call)
              × Shows sdk tmpl (set_param_text sdk) (some acc) call page)
    by_account (err x) found h = inl (ap (λ s. s.calls) (served_eq h).1)
    by_account panic found h = cc
    by_account (ok acc) found h =
        let st1 = opened form st acc in
        elim (finish_calls sdk tmpl (set_param_text sdk) st1 st' (param_request tmpl form st1.conf)
          page h) [
            | inl same ↦ inl (ap (λ s. s.calls) same)
            | inr (call, made, after, shows) ↦ inr (
              acc,
              call,
              found,
              param_request-IsParamForm tmpl form st1.conf call made,
              after,
              shows,
            )
          ]
