-- ===== src/Web/Controller/Forms.antt =====
-- web/controller/controller.go: the posted fields of which a handler makes a transaction.
use btc_vendor_tools.Base.{ℕ, ◌≡◌, refl, ap, Option, none, some, arith, Result, ok, err, panic}
use btc_vendor_tools.Std.Binary.{Bytes}
use btc_vendor_tools.Std.Decimal.{parse_uint}
use btc_vendor_tools.Std.Text.{codes}
use btc_vendor_tools.Config.{Config}
use btc_vendor_tools.Web.Service.{Call, contract_call, param_call}
use btc_vendor_tools.Web.Pages.{
  Form, get_post_form, Checked, go_on, stop, crash, ◌>>=◌, required, shown, number, field,
}
use btc_vendor_tools.Web.Controller.{contract_request, param_request}

pub >>=-eq-go_on :
    {A B : Type 0} (m : Checked A) (f : A → Checked B) {b : B}
    → (m >>= f) ≡ go_on b
    → (a : A) × (m ≡ go_on a) × (f a ≡ go_on b)
>>=-eq-go_on (go_on a) f h = (a, refl, h)
>>=-eq-go_on (stop p) f h = cc
>>=-eq-go_on crash f h = cc

pub go_on_eq : {A : Type 0} {a b : A} → ◌≡◌ {A = Checked A} (go_on a) (go_on b) → a ≡ b
go_on_eq e = ground arith

pub required-go_on :
    (tmpl text : Bytes) (o : Option Bytes) (v : Bytes) → required tmpl text o ≡ go_on v → o ≡ some v
required-go_on tmpl text none v e = cc
required-go_on tmpl text (some u) v e = ap some (go_on_eq e)

pub shown-go_on :
    {A : Type 0} (tmpl text : Bytes) (r : Result A) (a : A) → shown tmpl text r ≡ go_on a → r ≡ ok a
shown-go_on tmpl text (ok b) a e = ap (λ x. ok x) (go_on_eq e)
shown-go_on tmpl text (err x) a e = cc
shown-go_on tmpl text panic a e = cc

-- The fields of a contract page that make a transaction.
pub record IsContractForm (form : Form) (conf : Config) (call : Call) : Type 0 where
  pub contract : Bytes
  pub ver : Bytes
  pub chainid : Bytes
  pub sigs : Bytes
  pub id : ℕ
  pub v : ℕ
  pub has_contract : get_post_form form (codes "contract") ≡ some contract
  pub has_ver : get_post_form form (codes "ver") ≡ some ver
  pub has_chainid : get_post_form form (codes "chainid") ≡ some chainid
  pub has_sigs : get_post_form form (codes "sigs") ≡ some sigs
  pub id_number : parse_uint 64 chainid ≡ ok id
  pub ver_number : parse_uint 64 ver ≡ ok v
  pub made : contract_call contract conf.redeem sigs v id ≡ ok call

-- The fields of a page of parameters that make a transaction.
pub record IsParamForm (form : Form) (conf : Config) (call : Call) : Type 0 where
  pub ver : Bytes
  pub fr : Bytes
  pub mc : Bytes
  pub sigs : Bytes
  pub v : ℕ
  pub fee_rate : ℕ
  pub min_change : ℕ
  pub has_ver : get_post_form form (codes "ver") ≡ some ver
  pub has_fr : get_post_form form (codes "fr") ≡ some fr
  pub has_mc : get_post_form form (codes "mc") ≡ some mc
  pub has_sigs : get_post_form form (codes "sigs") ≡ some sigs
  pub ver_number : parse_uint 64 ver ≡ ok v
  pub fr_number : parse_uint 64 fr ≡ ok fee_rate
  pub mc_number : parse_uint 64 mc ≡ ok min_change
  pub made : param_call fee_rate min_change v conf.redeem sigs ≡ ok call

pub contract_request-IsContractForm :
    (tmpl : Bytes) (form : Form) (conf : Config) (call : Call)
    → contract_request tmpl form conf ≡ go_on (ok call)
    → IsContractForm form conf call
unfolding contract_request
contract_request-IsContractForm tmpl form conf call e =
    let (contract, e1, r1) =
      >>=-eq-go_on (field tmpl form (codes "contract") (codes "no smart contract set")) _ e in
    let (ver, e2, r2) =
      >>=-eq-go_on (field tmpl form (codes "ver") (codes "no contract version set")) _ r1 in
    let (chainid, e3, r3) =
      >>=-eq-go_on (field tmpl form (codes "chainid") (codes "no target chain id set")) _ r2 in
    let (sigs, e4, r4) =
      >>=-eq-go_on (field tmpl form (codes "sigs") (codes "no signatures set")) _ r3 in
    let (id, e5, r5) = >>=-eq-go_on (number tmpl chainid) _ r4 in
    let (v, e6, r6) = >>=-eq-go_on (number tmpl ver) _ r5 in
    record {
      contract = contract;
      ver = ver;
      chainid = chainid;
      sigs = sigs;
      id = id;
      v = v;
      has_contract = required-go_on tmpl (codes "no smart contract set") _ contract e1;
      has_ver = required-go_on tmpl (codes "no contract version set") _ ver e2;
      has_chainid = required-go_on tmpl (codes "no target chain id set") _ chainid e3;
      has_sigs = required-go_on tmpl (codes "no signatures set") _ sigs e4;
      id_number = shown-go_on tmpl (codes "wrong number format: ") (parse_uint 64 chainid) id e5;
      ver_number = shown-go_on tmpl (codes "wrong number format: ") (parse_uint 64 ver) v e6;
      made = go_on_eq r6;
    }

pub param_request-IsParamForm :
    (tmpl : Bytes) (form : Form) (conf : Config) (call : Call)
    → param_request tmpl form conf ≡ go_on (ok call)
    → IsParamForm form conf call
unfolding param_request
param_request-IsParamForm tmpl form conf call e =
    let (ver, e1, r1) =
      >>=-eq-go_on (field tmpl form (codes "ver") (codes "no contract version set")) _ e in
    let (fr, e2, r2) = >>=-eq-go_on (field tmpl form (codes "fr") (codes "no fee rate set")) _ r1 in
    let (mc, e3, r3) =
      >>=-eq-go_on (field tmpl form (codes "mc") (codes "no min change set")) _ r2 in
    let (sigs, e4, r4) =
      >>=-eq-go_on (field tmpl form (codes "sigs") (codes "no signatures set")) _ r3 in
    let (v, e5, r5) = >>=-eq-go_on (number tmpl ver) _ r4 in
    let (fee_rate, e6, r6) = >>=-eq-go_on (number tmpl fr) _ r5 in
    let (min_change, e7, r7) = >>=-eq-go_on (number tmpl mc) _ r6 in
    record {
      ver = ver;
      fr = fr;
      mc = mc;
      sigs = sigs;
      v = v;
      fee_rate = fee_rate;
      min_change = min_change;
      has_ver = required-go_on tmpl (codes "no contract version set") _ ver e1;
      has_fr = required-go_on tmpl (codes "no fee rate set") _ fr e2;
      has_mc = required-go_on tmpl (codes "no min change set") _ mc e3;
      has_sigs = required-go_on tmpl (codes "no signatures set") _ sigs e4;
      ver_number = shown-go_on tmpl (codes "wrong number format: ") (parse_uint 64 ver) v e5;
      fr_number = shown-go_on tmpl (codes "wrong number format: ") (parse_uint 64 fr) fee_rate e6;
      mc_number = shown-go_on tmpl (codes "wrong number format: ") (parse_uint 64 mc) min_change e7;
      made = go_on_eq r7;
    }
