-- ===== src/Web/Controller/Signed.antt =====
-- web/controller/controller.go and web/service/service.go: what HandleSignContract signs, against
-- what HandleSetContract sends.
use btc_vendor_tools.Base.{
  ℕ, ◌≡◌, refl, ◌∙◌, sym, ap, List, [], ◌∷◌, ◌++◌, Option, some, arith, Result, ok, >>=-eq-ok, inl,
  inr,
}
use btc_vendor_tools.Std.Binary.{Bytes}
use btc_vendor_tools.Std.Decimal.{parse_uint}
use btc_vendor_tools.Std.Hex.{hex_decode}
use btc_vendor_tools.Std.Text.{codes}
use btc_vendor_tools.Config.{Config}
use btc_vendor_tools.Web.Strings.{replace_0x, split, decode_all}
use btc_vendor_tools.Web.Service.{
  Call, register_redeem, Sdk, get_account_by_password, get_key, sign_contract, contract_call,
}
use btc_vendor_tools.Web.Pages.{
  Form, get_post_form, Checked, go_on, Page, your_sig, ok_page, field, number, shown,
}
use btc_vendor_tools.Web.Controller.{WebState, served, sign_contract_page, handle_set_contract}
use btc_vendor_tools.Web.Controller.Forms.{
  >>=-eq-go_on, required-go_on, shown-go_on, IsContractForm,
}
use btc_vendor_tools.Web.Controller.Calls.{handle_set_contract_calls}

-- What a page that shows a signature has signed, and with which key.
pub record IsSigned (sdk : Sdk) (form : Form) (conf : Config) (sig : Bytes) : Type 0 where
  pub pf : Bytes
  pub pwd : Bytes
  pub contract : Bytes
  pub chainid : Bytes
  pub ver : Bytes
  pub wallet : Bytes
  pub acct : Bytes
  pub c : Bytes
  pub r : Bytes
  pub id : ℕ
  pub v : ℕ
  pub has_file : get_post_form form (codes "privk_file") ≡ some pf
  pub has_pwd : get_post_form form (codes "pwd") ≡ some pwd
  pub has_contract : get_post_form form (codes "contract") ≡ some contract
  pub has_chainid : get_post_form form (codes "chainid") ≡ some chainid
  pub has_ver : get_post_form form (codes "ver") ≡ some ver
  pub id_number : parse_uint 64 chainid ≡ ok id
  pub ver_number : parse_uint 64 ver ≡ ok v
  pub wallet_opens : sdk.open_wallet pf ≡ ok wallet
  pub account : sdk.get_default_account wallet pwd ≡ ok acct
  pub contract_bytes : hex_decode (replace_0x contract) ≡ ok c
  pub redeem_bytes : hex_decode conf.redeem ≡ ok r
  pub signs :
      sdk.sign (sdk.get_private_key acct) (
        sdk.hash160
          (r ++ (sdk.uint64_bytes 1 ++ (c ++ (sdk.uint64_bytes id ++ sdk.uint64_bytes v)))))
      ≡ ok sig

sig_eq :
    (tmpl a b : Bytes)
    → ◌≡◌ {A = Checked Page} (go_on (ok_page tmpl (your_sig a))) (go_on (ok_page tmpl (your_sig b)))
    → a ≡ b
sig_eq tmpl a b e = ground arith

ok_eq : {a b : Bytes} → ◌≡◌ {A = Result Bytes} (ok a) (ok b) → a ≡ b
ok_eq e = ground arith

signs_same :
    (sdk : Sdk) (k k' m : Bytes) {s s' : Bytes}
    → k ≡ k'
    → s ≡ s'
    → sdk.sign k m ≡ ok s
    → sdk.sign k' m ≡ ok s'
signs_same sdk k k' m p q e = rw (← p, ← q) e

sign_contract_page-IsSigned :
    (sdk : Sdk) (tmpl : Bytes) (form : Form) (conf : Config) (sig : Bytes)
    → sign_contract_page sdk tmpl form conf ≡ go_on (ok_page tmpl (your_sig sig))
    → IsSigned sdk form conf sig
unfolding sign_contract_page sign_contract get_key
sign_contract_page-IsSigned sdk tmpl form conf sig e =
    let (pf, e1, r1) =
      >>=-eq-go_on (field tmpl form (codes "privk_file") (codes "no private key file set")) _ e in
    let (pwd, e2, r2) =
      >>=-eq-go_on (field tmpl form (codes "pwd") (codes "no password for private key file set")) _
        r1 in
    let (contract, e3, r3) =
      >>=-eq-go_on (field tmpl form (codes "contract") (codes "no smart contract set")) _ r2 in
    let (chainid, e4, r4) =
      >>=-eq-go_on (field tmpl form (codes "chainid") (codes "no target chain id set")) _ r3 in
    let (ver, e5, r5) =
      >>=-eq-go_on (field tmpl form (codes "ver") (codes "no contract version set")) _ r4 in
    let (id, e6, r6) = >>=-eq-go_on (number tmpl chainid) _ r5 in
    let (v, e7, r7) = >>=-eq-go_on (number tmpl ver) _ r6 in
    let (sig', e8, r8) =
      >>=-eq-go_on
        (shown tmpl (codes "failed to sign for contract: ")
          (sign_contract sdk pf pwd contract conf.redeem id v))
        _ r7 in
    let made =
      shown-go_on tmpl (codes "failed to sign for contract: ")
        (sign_contract sdk pf pwd contract conf.redeem id v) sig' e8 in
    let (key, key_, m1) = >>=-eq-ok (get_key sdk pf pwd) _ made in
    let (c, c_, m2) = >>=-eq-ok (hex_decode (replace_0x contract)) _ m1 in
    let (r, r_, m3) = >>=-eq-ok (hex_decode conf.redeem) _ m2 in
    let (acct, acct_, k1) = >>=-eq-ok (get_account_by_password sdk pf pwd) _ key_ in
    let (wallet, wallet_, k2) = >>=-eq-ok (sdk.open_wallet pf) _ acct_ in
    let is_key : key ≡ sdk.get_private_key acct = ok_eq (sym k1) in
    let same : sig' ≡ sig = sig_eq tmpl sig' sig r8 in
    record {
      pf = pf;
      pwd = pwd;
      contract = contract;
      chainid = chainid;
      ver = ver;
      wallet = wallet;
      acct = acct;
      c = c;
      r = r;
      id = id;
      v = v;
      has_file = required-go_on tmpl (codes "no private key file set") _ pf e1;
      has_pwd = required-go_on tmpl (codes "no password for private key file set") _ pwd e2;
      has_contract = required-go_on tmpl (codes "no smart contract set") _ contract e3;
      has_chainid = required-go_on tmpl (codes "no target chain id set") _ chainid e4;
      has_ver = required-go_on tmpl (codes "no contract version set") _ ver e5;
      id_number = shown-go_on tmpl (codes "wrong number format: ") (parse_uint 64 chainid) id e6;
      ver_number = shown-go_on tmpl (codes "wrong number format: ") (parse_uint 64 ver) v e7;
      wallet_opens = wallet_;
      account = k2;
      contract_bytes = c_;
      redeem_bytes = r_;
      signs = signs_same sdk key (sdk.get_private_key acct) _ is_key same m3;
    }

last_eq : (xs : List Call) (a b : Call) → xs ++ a ∷ [] ≡ xs ++ b ∷ [] → a ≡ b
last_eq [] a b e = ground arith
last_eq (x ∷ xs) a b e = last_eq xs a b (ground arith)

longer : (xs : List Call) (a : Call) → ¬ (xs ≡ xs ++ a ∷ [])
longer [] a e = cc e
longer (x ∷ xs) a e = longer xs a (ground arith)

same_ok {ℓ} : {A : Type ℓ} (m n : Result A) {a b : A} → m ≡ n → m ≡ ok a → n ≡ ok b → b ≡ a
same_ok m n e p q = ground arith

same_some : (m n : Option Bytes) {a b : Bytes} → m ≡ n → m ≡ some a → n ≡ some b → b ≡ a
same_some m n e p q = ground arith

call_eq : {a b : Call} → ◌≡◌ {A = Result Call} (ok a) (ok b) → a ≡ b
call_eq e = ground arith

registered :
    {id id' v v' : ℕ} {r r' c c' : Bytes}
    → id ≡ id'
    → r ≡ r'
    → c ≡ c'
    → v ≡ v'
    → (sigs : List Bytes) → register_redeem id r c v sigs ≡ register_redeem id' r' c' v' sigs
registered p q s t sigs = rw (p, q, s, t) refl

-- HandleSetContract, where it sends a transaction, sends one of a complete form.
sent-IsContractForm :
    (sdk : Sdk) (form : Form) (st st' : WebState) (page : Page) (call : Call)
    → handle_set_contract sdk form st ≡ served page st'
    → st'.calls ≡ st.calls ++ call ∷ []
    → IsContractForm form st.conf call
sent-IsContractForm sdk form st st' page call e sent =
    elim (handle_set_contract_calls sdk form st st' page e) [
      | inl same ↦ absurd (longer st.calls call (sym (ap (λ s. s.calls) same) ∙ sent))
      | inr (call', is_form, after, _) ↦
          let last = last_eq st.calls call' call (sym (ap (λ s. s.calls) after) ∙ sent) in
          rw (← last) is_form
    ]

-- Where HandleSignContract or HandleFuncSignContract shows a signature, and HandleSetContract, for a
-- page with the same contract, chain id and version and under the same redeem script, sends a
-- transaction, that transaction registers some contract for some redeem script, chain id and
-- version, and the signature is one of the Hash160 of just these - the redeem script, the number 1,
-- the contract, the chain id and the version, in this order - with the private key of the default
-- account of the posted wallet and password.
pub sign_contract_page-registered :
    (sdk : Sdk) (tmpl : Bytes) (form form' : Form) (conf : Config) (sig : Bytes) (st st' : WebState)
    (page : Page) (call : Call)
    → sign_contract_page sdk tmpl form conf ≡ go_on (ok_page tmpl (your_sig sig))
    → handle_set_contract sdk form' st ≡ served page st'
    → st'.calls ≡ st.calls ++ call ∷ []
    → conf.redeem ≡ st.conf.redeem
    → get_post_form form (codes "contract") ≡ get_post_form form' (codes "contract")
    → get_post_form form (codes "chainid") ≡ get_post_form form' (codes "chainid")
    → get_post_form form (codes "ver") ≡ get_post_form form' (codes "ver")
    → (r : Bytes) × (c : Bytes) × (id : ℕ) × (v : ℕ) × (sigs : List Bytes) × (call
        ≡ register_redeem id r c v sigs)
      × ((pf : Bytes) × (pwd : Bytes) × (wallet : Bytes) × (acct : Bytes) × (get_post_form form
              (codes "privk_file")
            ≡ some pf)
          × (get_post_form form (codes "pwd") ≡ some pwd)
          × (sdk.open_wallet pf ≡ ok wallet)
          × (sdk.get_default_account wallet pwd ≡ ok acct)
          × (sdk.sign (sdk.get_private_key acct) (
                sdk.hash160
                  (r ++ (sdk.uint64_bytes 1 ++ (c ++ (sdk.uint64_bytes id ++ sdk.uint64_bytes v)))))
              ≡ ok sig))
unfolding contract_call
sign_contract_page-registered sdk tmpl form form' conf sig st st' page call shown_ served_ sent
      redeem same_contract same_id same_ver =
    let s = sign_contract_page-IsSigned sdk tmpl form conf sig shown_ in
    let f = sent-IsContractForm sdk form' st st' page call served_ sent in
    let contract : f.contract ≡ s.contract =
      same_some _ _ same_contract s.has_contract f.has_contract in
    let chainid : f.chainid ≡ s.chainid = same_some _ _ same_id s.has_chainid f.has_chainid in
    let ver : f.ver ≡ s.ver = same_some _ _ same_ver s.has_ver f.has_ver in
    let id : f.id ≡ s.id =
      same_ok (parse_uint 64 s.chainid) (parse_uint 64 f.chainid) (ap (parse_uint 64) (sym chainid))
        s.id_number f.id_number in
    let v : f.v ≡ s.v =
      same_ok (parse_uint 64 s.ver) (parse_uint 64 f.ver) (ap (parse_uint 64) (sym ver))
        s.ver_number f.ver_number in
    let (c, c_, m1) = >>=-eq-ok (hex_decode (replace_0x f.contract)) _ f.made in
    let (r, r_, m2) = >>=-eq-ok (hex_decode st.conf.redeem) _ m1 in
    let (sigs, sigs_, m3) = >>=-eq-ok (decode_all (split f.sigs)) _ m2 in
    let c_same : c ≡ s.c =
      same_ok (hex_decode (replace_0x s.contract)) (hex_decode (replace_0x f.contract))
        (ap (λ x. hex_decode (replace_0x x)) (sym contract)) s.contract_bytes c_ in
    let r_same : r ≡ s.r =
      same_ok (hex_decode conf.redeem) (hex_decode st.conf.redeem) (ap hex_decode redeem)
        s.redeem_bytes r_ in
    (
      s.r,
      s.c,
      s.id,
      s.v,
      sigs,
      call_eq (sym m3) ∙ registered id r_same c_same v sigs,
      (s.pf, s.pwd, s.wallet, s.acct, s.has_file, s.has_pwd, s.wallet_opens, s.account, s.signs),
    )
