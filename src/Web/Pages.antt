-- ===== src/Web/Pages.antt =====
-- web/controller/controller.go: the posted fields, the pages, and the checks that the handlers begin with.
use btc_vendor_tools.Base.{
  ℕ, List, [], ◌∷◌, Option, none, some, bytes_eq, if◌then◌else◌, Error, Result, ok, err, panic,
}
use btc_vendor_tools.Std.Binary.{Bytes}
use btc_vendor_tools.Std.Decimal.{parse_uint}
use btc_vendor_tools.Std.Text.{codes}

-- The posted fields, in their order.
abbrev pub Form : Type 0
Form = List (Bytes × Bytes)

-- `ctx.GetPostForm`: the first value of a field.
unfoldable pub get_post_form : Form → Bytes → Option Bytes
get_post_form [] name = none
get_post_form ((k, v) ∷ rest) name = if bytes_eq k name then some v else get_post_form rest name

-- What the status page shows.
pub record Summary : Type 0 where
  pub sum : ℕ
  pub total : ℕ
  pub contract : Bytes
  pub ver : ℕ
  pub mc : ℕ
  pub fr : ℕ
  pub pver : ℕ

-- What a page shows as its data: a fixed text, an error behind a text, or what was made; or its
-- title, its error, a status, or named values. The values that the texts before an error repeat are left out.
pub data Notice : Type 0 where
  said : Bytes → Notice
  failed : Bytes → Error → Notice
  your_sig your_tx : Bytes → Notice
  your_key : (wif pubkey addr : Bytes) → Notice
  your_redeem : (r rk p2wsh p2sh : Bytes) → Notice
  title : Bytes → Notice
  wrong : Bytes → Error → Notice
  status_of : Summary → Notice
  values : List (Bytes × Bytes) → Notice

pub record Page : Type 0 where
  pub status : ℕ
  pub template : Bytes
  pub data_ : Notice

abbrev pub bad_request : Bytes → Bytes → Page
bad_request tmpl text = record { status = 400; template = tmpl; data_ = said text }

abbrev pub ok_page : Bytes → Notice → Page
ok_page tmpl notice = record { status = 200; template = tmpl; data_ = notice }

-- A handler goes on with a value, or returns with a page, or panics.
pub data Checked (A : Type 0) : Type 0 where
  go_on : A → Checked A
  stop : Page → Checked A
  crash : Checked A

infixl 5 ◌>>=◌
abbrev pub ◌>>=◌ : {A B : Type 0} → Checked A → (A → Checked B) → Checked B
go_on a >>= f = f a
stop p >>= f = stop p
crash >>= f = crash

-- `if !ok { ctx.HTML(http.StatusBadRequest, …); return }`.
abbrev pub required : Bytes → Bytes → Option Bytes → Checked Bytes
required tmpl text none = stop (bad_request tmpl text)
required tmpl text (some v) = go_on v

abbrev pub shown : {A : Type 0} → Bytes → Bytes → Result A → Checked A
shown tmpl text (ok a) = go_on a
shown tmpl text (err e) = stop (ok_page tmpl (failed text e))
shown tmpl text panic = crash

-- `strconv.ParseUint(s, 10, 64)` with its error page.
abbrev pub number : Bytes → Bytes → Checked ℕ
number tmpl s = shown tmpl (codes "wrong number format: ") (parse_uint 64 s)

abbrev pub index_tmpl : Bytes
index_tmpl = codes "index.tmpl"

abbrev pub sign_contract_tmpl : Bytes
sign_contract_tmpl = codes "sign_contract.tmpl"

abbrev pub set_contract_tmpl : Bytes
set_contract_tmpl = codes "set_contract.tmpl"

abbrev pub sign_param_tmpl : Bytes
sign_param_tmpl = codes "sign_param.tmpl"

abbrev pub set_param_tmpl : Bytes
set_param_tmpl = codes "set_param.tmpl"

abbrev pub field : Bytes → Form → Bytes → Bytes → Checked Bytes
field tmpl form name text = required tmpl text (get_post_form form name)
