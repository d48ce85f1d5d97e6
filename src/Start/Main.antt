-- ===== src/Start/Main.antt =====
-- cmd/run.go: main, from the command line to the end of the process.
use btc_vendor_tools.Base.{ℕ, ◌≡◌, ◌≢◌, refl, sym, ◌⊎◌, inl, inr, List, [], ◌∷◌, All, arith}
use btc_vendor_tools.Std.Int.{ℤ, pos}
use btc_vendor_tools.Std.Text.{codes}
use btc_vendor_tools.Wire.{Wire}
use btc_vendor_tools.Btc.{Btc}
use btc_vendor_tools.LevelDb.{LevelDb}
use btc_vendor_tools.Config.{Files}
use btc_vendor_tools.Config.Flags.{
  Context, HasDefault, app_flags, log_level_flag, config_file_flag, go_max_procs_flag,
  poly_wallet_pwd_flag, btc_wallet_pwd_flag, run_mode_flag, web_flag,
}
use btc_vendor_tools.Web.Router.{Backend}
use btc_vendor_tools.Start.{Start, going, exited, aborted, waits, Flags, World, Running, run}

-- The flags that run reads.
unfoldable pub flags_of : Context → Flags
flags_of ctx = record {
  config_file = ctx.global_string config_file_flag.name;
  mode = ctx.global_string run_mode_flag.name;
  web = ctx.global_int web_flag.name;
  poly_wallet_pwd = ctx.global_string poly_wallet_pwd_flag.name;
  btc_wallet_pwd = ctx.global_string btc_wallet_pwd_flag.name;
}

-- The level of log.InitLog in run, and what Before of setupApp passes to runtime.GOMAXPROCS.
abbrev pub log_level_of : Context → ℤ
log_level_of ctx = ctx.global_int log_level_flag.name

abbrev pub cores_of : Context → ℤ
cores_of ctx = ctx.global_int go_max_procs_flag.name

-- The signals that waitToExit asks for.
pub data Signal : Type 0 where
  sigint sigterm sighup : Signal

-- How the process stands: it runs on, with what it runs or before that, or it has ended with a
-- status or a panic.
pub data Process (R : Type 0) : Type 0 where
  serving : R → Process R
  browsing : Process R
  ended : ℕ → Process R
  panicked : Process R

-- waitToExit, with the signals that arrive: the first one closes `exit`, and run returns.
abbrev pub wait_to_exit : {R : Type 0} → R → List Signal → Process R
wait_to_exit r [] = serving r
wait_to_exit r (sig ∷ more) = ended 0

-- How main goes on behind run, which ends the process itself where it fails.
abbrev pub after_run : {R : Type 0} → List Signal → Start R → Process R
after_run signals (going r) = wait_to_exit r signals
after_run signals exited = ended 1
after_run signals aborted = panicked
after_run signals waits = browsing

module _ (w : Wire) (L : LevelDb) (btc : Btc) (F : Files) (b : Backend) where
  -- main, where the library parses the command line to `ctx`.
  unfoldable pub main : Context → World w L btc F b → List Signal → Process (Running w L btc F b)
  unfolding run flags_of
  main ctx world signals = after_run signals (run w L btc F b (flags_of ctx) world)

  ended_eq : {R : Type 0} {n m : ℕ} → ◌≡◌ {A = Process R} (ended n) (ended m) → n ≡ m
  ended_eq e = ground arith

  after_run-cases :
      (signals : List Signal) (r : Start (Running w L btc F b)) (status : ℕ)
      → after_run signals r ≡ ended status
      → ((status ≡ 1) × (r ≡ exited))
        ⊎ ((status ≡ 0) × (signals ≢ []) × ((x : Running w L btc F b) × (r ≡ going x)))
  after_run-cases [] (going x) status e = cc e
  after_run-cases (sig ∷ more) (going x) status e =
      inr (sym (ended_eq e), (λ none_sent. cc none_sent), (x, refl))
  after_run-cases signals exited status e = inl (sym (ended_eq e), refl)
  after_run-cases signals aborted status e = cc e
  after_run-cases signals waits status e = cc e

-- The process ends with status 0 only if its services run and a signal has come, and otherwise with
-- status 1, where run ends it before any service runs.
pub main_ends :
    (w : Wire) (L : LevelDb) (btc : Btc) (F : Files) (b : Backend) (ctx : Context)
    (world : World w L btc F b) (signals : List Signal) (status : ℕ)
    → main w L btc F b ctx world signals ≡ ended status
    → ((status ≡ 1) × (run w L btc F b (flags_of ctx) world ≡ exited))
      ⊎ ((status ≡ 0)
          × (signals ≢ [])
          × ((r : Running w L btc F b) × (run w L btc F b (flags_of ctx) world ≡ going r)))
unfolding main
main_ends w L btc F b ctx world signals status e =
    after_run-cases w L btc F b signals (run w L btc F b (flags_of ctx) world) status e

-- A plain start, where no flag is given, reads ./conf.json, shows the web pages, and then observes and
-- signs, with the passwords of the Config or of the terminal.
pub flags_of-defaults :
    (ctx : Context)
    → All (λ f. HasDefault ctx f f.value) app_flags
    → (flags_of ctx ≡ record {
      config_file = codes "./conf.json";
      mode = codes "all";
      web = pos 1;
      poly_wallet_pwd = [];
      btc_wallet_pwd = [];
    })
      × (log_level_of ctx ≡ pos 2)
      × (cores_of ctx ≡ pos 4)
unfolding flags_of
flags_of-defaults ctx h =
    (rw (h.1.0, h.1.1.1.0, h.1.1.1.1.0, h.1.1.1.1.1.0, h.1.1.1.1.1.1.0) refl, h.0, h.1.1.0)
