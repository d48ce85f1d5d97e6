-- ===== src/Web/Controller/Sent.antt =====
-- web/controller/controller.go: what the handlers make of the fields of their pages.
use btc_vendor_tools.Base.{ℕ, ◌<◌, ◌^◌, ◌≡◌, refl, List, [], ◌∷◌, ◌++◌, map, All, some, arith, ok}
use btc_vendor_tools.Std.Binary.{Bytes, IsByte}
use btc_vendor_tools.Std.Decimal.{format_uint, parse_uint, parse_uint-format_uint_plain}
use btc_vendor_tools.Std.Hex.{hex_encode}
use btc_vendor_tools.Std.Text.{codes}
use btc_vendor_tools.Web.Strings.{join}
use btc_vendor_tools.Web.Service.{register_redeem, Sdk, contract_call-hex}
use btc_vendor_tools.Web.Pages.{Form, get_post_form, your_tx, ok_page}
use btc_vendor_tools.Web.Controller.{WebState, served, contract_request, handle_set_contract}

number_of : (n : ℕ) → n < 2 ^ 64 → parse_uint 64 (format_uint n) ≡ ok n
number_of n small = (parse_uint-format_uint_plain 64 n small (omega arith))

-- A contract page whose fields are the contract in hex behind `0x`, two numbers of 64 bits in
-- decimal, and the signatures in hex with commas between them, sends one transaction that
-- registers exactly these for the configured redeem script, and shows the hash that Poly answers
-- if it accepts.
pub handle_set_contract-sent :
    (sdk : Sdk) (form : Form) (st : WebState) (c r sig : Bytes) (sigs : List Bytes) (id v : ℕ)
    (tx : Bytes)
    → All IsByte c
    → All IsByte r
    → All IsByte sig
    → All (All IsByte) sigs
    → id < 2 ^ 64
    → v < 2 ^ 64
    → st.conf.redeem ≡ hex_encode r
    → get_post_form form (codes "contract") ≡ some (48 ∷ 120 ∷ hex_encode c)
    → get_post_form form (codes "ver") ≡ some (format_uint v)
    → get_post_form form (codes "chainid") ≡ some (format_uint id)
    → get_post_form form (codes "sigs") ≡ some (join (hex_encode sig) (map hex_encode sigs))
    → sdk.submit st.acc (register_redeem id r c v (sig ∷ sigs)) ≡ ok tx
    → handle_set_contract sdk form st
      ≡ served
          (ok_page (codes "index.tmpl") (your_tx tx))
          (record st { calls = st.calls ++ register_redeem id r c v (sig ∷ sigs) ∷ [] })
unfolding handle_set_contract contract_request
handle_set_contract-sent sdk form st c r sig sigs id v tx bc br bs bss small small' redeem contract
      ver chainid sent accepted =
    rw (contract, ver, chainid, sent, number_of id small, number_of v small', redeem)
      (rw (contract_call-hex c r sig sigs v id bc br bs bss).1 (rw accepted refl))
