-- ===== src/Web/Controller/Imported.antt =====
-- web/controller/controller.go: what HandleGenePrivk does to the Config and to the wallets.
use btc_vendor_tools.Base.{
  ◌≡◌, refl, ap, sym, ◌∙◌, ◌⊎◌, inl, inr, Bool-cases, some, Option-cases, bytes_eq, eq_of_bytes_eq,
  IsErr, Result, ok, Result-cases,
}
use btc_vendor_tools.Std.Binary.{Bytes}
use btc_vendor_tools.Std.Hex.{hex_encode}
use btc_vendor_tools.Std.Text.{codes}
use btc_vendor_tools.Web.Redeem.{KeyLib, NewKey, new_account, after_import, gene_privk_and_addr}
use btc_vendor_tools.Web.Pages.{Form, get_post_form, Page, your_key, ok_page, index_tmpl}
use btc_vendor_tools.Web.Controller.{WebState, Served, served}
use btc_vendor_tools.Web.Controller.Calls.{served_eq}
use btc_vendor_tools.Web.Controller.Stateful.{Step, next, answered, broke, serve}
use btc_vendor_tools.Web.Controller.Keys.{
  key_request, make_key, key_page, with_wallet, handle_gene_privk,
}

-- Two fields that hold the same password, and the path of a wallet.
pub record IsKeyForm (form : Form) (pwd path : Bytes) : Type 0 where
  pub has_pwd : get_post_form form (codes "pwd") ≡ some pwd
  pub has_pwd2 : get_post_form form (codes "pwd2") ≡ some pwd
  pub has_path : get_post_form form (codes "path") ≡ some path

abbrev IsRequested : Form → WebState → Step (Bytes × Bytes) → Type 0
IsRequested form st (next (pwd, path) st') = (st' ≡ st) × IsKeyForm form pwd path
IsRequested form st (answered page st') = st' ≡ st
IsRequested form st (broke s) = ⊥

key_request-IsRequested : (form : Form) (st : WebState) → IsRequested form st (key_request form st)
unfolding key_request
key_request-IsRequested form st = elim (Option-cases (get_post_form form (codes "pwd"))) [
  | inl no_pwd ↦ rw (no_pwd, key_request) refl
  | inr (pwd, pwd_) ↦ elim (Option-cases (get_post_form form (codes "pwd2"))) [
    | inl no_pwd2 ↦ rw (pwd_, no_pwd2, key_request) refl
    | inr (pwd2, pwd2_) ↦ elim (Bool-cases (bytes_eq pwd pwd2)) [
      | inr other ↦ rw (pwd_, pwd2_, other, key_request) refl
      | inl same ↦ elim (Option-cases (get_post_form form (codes "path"))) [
        | inl no_path ↦ rw (pwd_, pwd2_, same, no_path, key_request) refl
        | inr (path, path_) ↦
            rw (pwd_, pwd2_, same, path_, key_request)
              (
                refl,
                record {
                  has_pwd = pwd_;
                  has_pwd2 = pwd2_ ∙ ap some (sym (eq_of_bytes_eq pwd pwd2 same));
                  has_path = path_;
                },
              )
      ]
    ]
  ]
]

module _ (lib : KeyLib) (drawn : Result Bytes) (ws ws' : lib.Wallets) (st st' : WebState)
    (page : Page) where
  -- A key that was made and put into the wallet under the path, or that could not be put there.
  pub record IsImported (pwd path : Bytes) : Type 0 where
    pub key : NewKey
    pub wallet : lib.Wallet
    pub encrypted : Bytes
    pub public_key : Bytes
    pub made : new_account lib st.net drawn pwd path ws ≡ ok (key, wallet, encrypted, public_key)
    pub wallets : ws' ≡ (lib.import_account ws wallet encrypted public_key).1
    pub outcome :
        (((lib.import_account ws wallet encrypted public_key).0 ≡ ok tt)
          × (page ≡ ok_page index_tmpl (your_key key.wif (hex_encode key.pub_key) key.addr))
          × (st' ≡ with_wallet lib pwd path st))
        ⊎ (IsErr (lib.import_account ws wallet encrypted public_key).0 × (st' ≡ st))

  abbrev Outcome : Bytes → Bytes → Type 0
  Outcome pwd path = ((st' ≡ st) × (ws' ≡ ws)) ⊎ IsImported pwd path

  imported :
      (pwd path : Bytes) (made : NewKey × lib.Wallet × Bytes × Bytes)
      → new_account lib st.net drawn pwd path ws ≡ ok made
      → ◌≡◌ {A = Served × lib.Wallets}
          (
            serve (
                key_page lib pwd path
                  (after_import lib st.net (lib.import_account ws made.1 made.2 made.3).0 made.0)
                  st),
            (lib.import_account ws made.1 made.2 made.3).1,
          )
          (served page st', ws')
      → IsImported pwd path
  imported pwd path made made_ e =
      let wallets = ap (λ p. p.1) (sym e) in
      elim (Result-cases (lib.import_account ws made.1 made.2 made.3).0) [
        | inl (tt, ok_) ↦
            let (shown, after) = served_eq (ap (λ p. p.0) (rw (ok_, key_page) at e)) in
            record {
              key = made.0;
              wallet = made.1;
              encrypted = made.2;
              public_key = made.3;
              made = made_;
              wallets = wallets;
              outcome = inl (ok_, shown, after);
            }
        | inr (inl (x, bad)) ↦
            let (_, after) = served_eq (ap (λ p. p.0) (rw (bad, key_page) at e)) in
            let is_err : IsErr (lib.import_account ws made.1 made.2 made.3).0 = rw bad tt in
            record {
              key = made.0;
              wallet = made.1;
              encrypted = made.2;
              public_key = made.3;
              made = made_;
              wallets = wallets;
              outcome = inr (is_err, after);
            }
        | inr (inr bad) ↦ cc (ap (λ p. p.0) (rw (bad, key_page) at e))
      ]

  make_key-Outcome :
      (pwd path : Bytes)
      → make_key lib drawn ws (next (pwd, path) st) ≡ (served page st', ws')
      → Outcome pwd path
  unfolding gene_privk_and_addr
  make_key-Outcome pwd path e = elim (Result-cases (new_account lib st.net drawn pwd path ws)) [
    | inr (inl (x, bad)) ↦
        let e' = rw (bad, make_key, gene_privk_and_addr) at e in
        inl ((served_eq (ap (λ p. p.0) e')).1, ap (λ p. p.1) (sym e'))
    | inr (inr bad) ↦ cc (ap (λ p. p.0) (rw (bad, make_key, gene_privk_and_addr) at e))
    | inl (made, made_) ↦
        inr (imported pwd path made made_ (rw (made_, make_key, gene_privk_and_addr) at e))
  ]

-- HandleGenePrivk leaves the service and the wallets as they were, or the form has a path and twice
-- the same password, a key was made, encrypted with that password and given to the wallet under
-- that path. If the wallet takes it, the page shows the key and the Config has the password and the
-- path; if not, the Config stays.
pub handle_gene_privk_cases :
    (lib : KeyLib) (drawn : Result Bytes) (form : Form) (ws ws' : lib.Wallets) (st st' : WebState)
    (page : Page)
    → handle_gene_privk lib drawn form ws st ≡ (served page st', ws')
    → ((st' ≡ st) × (ws' ≡ ws))
      ⊎ ((pwd : Bytes) × (path : Bytes) × IsKeyForm form pwd path
          × IsImported lib drawn ws ws' st st' page pwd path)
unfolding handle_gene_privk
handle_gene_privk_cases lib drawn form ws ws' st st' page e =
    by_request (key_request form st) (key_request-IsRequested form st) e
  where
    by_request :
        (step : Step (Bytes × Bytes))
        → IsRequested form st step
        → make_key lib drawn ws step ≡ (served page st', ws')
        → ((st' ≡ st) × (ws' ≡ ws))
          ⊎ ((pwd : Bytes) × (path : Bytes) × IsKeyForm form pwd path
              × IsImported lib drawn ws ws' st st' page pwd path)
    by_request (answered p s) same h =
        inl ((served_eq (ap (λ q. q.0) h)).1 ∙ same, ap (λ q. q.1) (sym h))
    by_request (broke s) bad h = absurd bad
    by_request (next (pwd, path) s) (same, fields) h =
        elim (make_key-Outcome lib drawn ws ws' st st' page pwd path (rw same at h)) [
          | inl kept ↦ inl kept
          | inr done ↦ inr (pwd, path, fields, done)
        ]
