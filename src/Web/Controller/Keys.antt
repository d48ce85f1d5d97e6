-- ===== src/Web/Controller/Keys.antt =====
-- web/controller/controller.go: HandleGenePrivk and HandleGeneRedeem.
use btc_vendor_tools.Base.{bytes_eq, if◌then◌else◌, Result, ok, err, panic}
use btc_vendor_tools.Std.Binary.{Bytes}
use btc_vendor_tools.Std.Hex.{hex_encode}
use btc_vendor_tools.Std.Text.{codes}
use btc_vendor_tools.Web.Redeem.{Scripts, gene_redeem, KeyLib, NewKey, gene_privk_and_addr}
use btc_vendor_tools.Web.Pages.{
  Form, get_post_form, Page, said, failed, your_key, your_redeem, ok_page, index_tmpl,
}
use btc_vendor_tools.Web.Controller.{WebState, Served, served, crashed}
use btc_vendor_tools.Web.Controller.Stateful.{
  Step, Handler, next, answered, broke, ◌>>=◌, ◌>>◌, answer, need, checked, change_conf, reading,
  serve,
}

module _ (lib : Scripts) where
  abbrev redeem_steps : Form → Handler Page
  redeem_steps form = do
    pubks ← need 400 index_tmpl (codes "no pubkeys") (get_post_form form (codes "pubks"))
    req ← need 400 index_tmpl (codes "no net type") (get_post_form form (codes "req"))
    made ←
        reading (λ st. st.net)
          (λ net.
            checked 200 index_tmpl (failed (codes "call function to generate redeem failed: "))
              (gene_redeem lib net pubks req))
    change_conf (λ c. record c { redeem = hex_encode made.r })
    answer 200 index_tmpl
        (your_redeem (hex_encode made.r) (hex_encode made.rk) made.p2wsh made.p2sh)

  unfoldable pub handle_gene_redeem : Form → WebState → Served
  handle_gene_redeem form st = serve (redeem_steps form st)

-- The fields of HandleGenePrivk: a password that was typed twice, and the path of a wallet.
unfoldable pub key_request : Form → Handler (Bytes × Bytes)
key_request form = do
  pwd ← need 400 index_tmpl (codes "no pwd") (get_post_form form (codes "pwd"))
  pwd2 ← need 400 index_tmpl (codes "no pwd confirmation") (get_post_form form (codes "pwd2"))
  let with_path = (do
    path ← need 400 index_tmpl (codes "no path") (get_post_form form (codes "path"))
    next (pwd, path))
  if bytes_eq pwd pwd2
      then with_path
      else answer 400 index_tmpl (said (codes "password is not equal"))

module _ (lib : KeyLib) where
  abbrev pub with_wallet : Bytes → Bytes → WebState → WebState
  with_wallet pwd path st = record st {
    conf = record st.conf { btc_wallet_pwd = pwd; btc_privk_file = path };
  }

  abbrev pub key_page : Bytes → Bytes → Result NewKey → Handler Page
  key_page pwd path (ok made) st =
      next (ok_page index_tmpl (your_key made.wif (hex_encode made.pub_key) made.addr))
        (with_wallet pwd path st)
  key_page pwd path (err e) st =
      answer 200 index_tmpl (failed (codes "call function to generate private key failed: ") e) st
  key_page pwd path panic st = broke st

  abbrev pub make_key : Result Bytes → lib.Wallets → Step (Bytes × Bytes) → Served × lib.Wallets
  make_key drawn ws (answered page st) = (served page st, ws)
  make_key drawn ws (broke st) = (crashed st, ws)
  make_key drawn ws (next (pwd, path) st) =
      let (made, ws') = gene_privk_and_addr lib st.net drawn pwd path ws in
      (serve (key_page pwd path made st), ws')

  -- With what NewPrivateKey draws, and the wallets.
  unfoldable pub handle_gene_privk :
      Result Bytes → Form → lib.Wallets → WebState → Served × lib.Wallets
  unfolding key_request
  handle_gene_privk drawn form ws st = make_key drawn ws (key_request form st)
