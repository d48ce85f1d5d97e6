-- ===== src/Start/Browsing.antt =====
-- cmd/run.go and web/router/router.go: what ends the wait for the web pages.
use btc_vendor_tools.Base.{◌≡◌, ◌⊎◌, false, List, All}
use btc_vendor_tools.Std.Binary.{Bytes}
use btc_vendor_tools.Std.Text.{codes}
use btc_vendor_tools.Web.Router.{Route, Backend, Reply, replied, not_found, panicked, status}

abbrev pub status_path : Bytes
status_path = codes "/status"

-- The path of each route, and what another one than that of the status page leaves alone.
abbrev IsOther : Route → Type 0
IsOther status = ⊥
IsOther _ = Unit

-- A table in which only the path of the status page has its route.
abbrev IsTable : List (Bytes × Route) → Type 0
IsTable = All (λ entry. IsOther entry.1 ⊎ (entry.0 ≡ status_path))

module _ (b : Backend) where
  -- A reply that leaves the channel as it was.
  abbrev Open : Reply b → Type 0
  Open (replied page s) = s.done ≡ false
  Open (not_found s) = s.done ≡ false
  Open (panicked s) = s.done ≡ false
