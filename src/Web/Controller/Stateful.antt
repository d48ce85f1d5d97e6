-- ===== src/Web/Controller/Stateful.antt =====
-- web/controller/controller.go: handlers that change the Config before they return with a page.
use btc_vendor_tools.Base.{ℕ, Option, none, some, Error, Result, ok, err, panic}
use btc_vendor_tools.Std.Binary.{Bytes}
use btc_vendor_tools.Std.Text.{codes}
use btc_vendor_tools.Config.{Config}
use btc_vendor_tools.Web.Service.{Sdk}
use btc_vendor_tools.Web.Pages.{Page, Notice, said, failed}
use btc_vendor_tools.Web.Controller.{WebState, Served, served, crashed, read_account, get_orc_pwd}

-- A handler goes on with a value, or has answered with a page, or panics.
pub data Step (A : Type 0) : Type 0 where
  next : A → WebState → Step A
  answered : Page → WebState → Step A
  broke : WebState → Step A

abbrev pub Handler : Type 0 → Type 0
Handler A = WebState → Step A

abbrev pub continue : {A B : Type 0} → Step A → (A → Handler B) → Step B
continue (next a st) f = f a st
continue (answered page st) f = answered page st
continue (broke st) f = broke st

infixl 5 ◌>>=◌ ◌>>◌
abbrev pub ◌>>=◌ : {A B : Type 0} → Handler A → (A → Handler B) → Handler B
(m >>= f) st = continue (m st) f

abbrev pub ◌>>◌ : {B : Type 0} → Handler (Unit {0}) → Handler B → Handler B
m >> f = m >>= λ done. f

-- `ctx.HTML(…); return`.
abbrev pub answer : {A : Type 0} → ℕ → Bytes → Notice → Handler A
answer status tmpl notice st =
    answered (record { status = status; template = tmpl; data_ = notice }) st

-- `if !ok { ctx.HTML(…); return }`.
abbrev pub need : ℕ → Bytes → Bytes → Option Bytes → Handler Bytes
need status tmpl text none = answer status tmpl (said text)
need status tmpl text (some v) = next v

-- `if err != nil { ctx.HTML(…); return }`.
abbrev pub checked : {A : Type 0} → ℕ → Bytes → (Error → Notice) → Result A → Handler A
checked status tmpl notice (ok a) = next a
checked status tmpl notice (err e) = answer status tmpl (notice e)
checked status tmpl notice panic = broke

abbrev pub change : (WebState → WebState) → Handler (Unit {0})
change f st = next tt (f st)

abbrev pub change_conf : (Config → Config) → Handler (Unit {0})
change_conf f = change (λ st. record st { conf = f st.conf })

-- What a handler reads of the state.
abbrev pub reading : {A B : Type 0} → (WebState → A) → (A → Handler B) → Handler B
reading f g st = g (f st) st

-- getORCPwd, with the page for its error.
abbrev pub open_account : Sdk → Bytes → Handler (Unit {0})
open_account sdk tmpl st = elim (get_orc_pwd sdk st.conf) [
  | ok acc ↦ next tt (read_account st acc)
  | err e ↦ answer 200 tmpl (failed (codes "get account failed: ") e) st
  | panic ↦ broke st
]

abbrev pub serve : Step Page → Served
serve (next page st) = served page st
serve (answered page st) = served page st
serve (broke st) = crashed st
