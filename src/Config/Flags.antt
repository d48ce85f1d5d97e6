-- ===== src/Config/Flags.antt =====
-- config/flags.go: the table of flags. What github.com/urfave/cli makes of the command line is a
-- parameter.
use btc_vendor_tools.Base.{ℕ, ◌≡◌, List, [], ◌∷◌}
use btc_vendor_tools.Std.Binary.{Bytes}
use btc_vendor_tools.Std.Int.{ℤ, pos}
use btc_vendor_tools.Std.Text.{codes}

-- The value of a flag that is not given: of a cli.UintFlag, a cli.IntFlag, or a cli.StringFlag.
pub data Default : Type 0 where
  uint : ℕ → Default
  int : ℤ → Default
  string : Bytes → Default

pub record Flag : Type 0 where
  pub name : Bytes
  pub value : Default

abbrev pub default_log_level : ℕ
default_log_level = 2

abbrev pub default_maxproc_num : ℤ
default_maxproc_num = pos 4

abbrev pub log_level_flag : Flag
log_level_flag = record { name = codes "loglevel"; value = uint default_log_level }

abbrev pub config_file_flag : Flag
config_file_flag = record { name = codes "config"; value = string (codes "./conf.json") }

abbrev pub go_max_procs_flag : Flag
go_max_procs_flag = record { name = codes "gomaxprocs"; value = int default_maxproc_num }

abbrev pub poly_wallet_pwd_flag : Flag
poly_wallet_pwd_flag = record { name = codes "polypwd"; value = string [] }

abbrev pub btc_wallet_pwd_flag : Flag
btc_wallet_pwd_flag = record { name = codes "btcpwd"; value = string [] }

abbrev pub run_mode_flag : Flag
run_mode_flag = record { name = codes "mode"; value = string (codes "all") }

abbrev pub web_flag : Flag
web_flag = record { name = codes "web"; value = int (pos 1) }

-- `app.Flags` of setupApp in cmd/run.go.
abbrev pub app_flags : List Flag
app_flags =
    log_level_flag ∷ config_file_flag ∷ go_max_procs_flag ∷ poly_wallet_pwd_flag
    ∷ btc_wallet_pwd_flag ∷ run_mode_flag ∷ web_flag ∷ []

-- cli.Context: GlobalInt and GlobalString.
pub record Context : Type 0 where
  pub global_int : Bytes → ℤ
  pub global_string : Bytes → Bytes

-- What the library documents of a flag that the command line does not give: its value in the table.
abbrev pub HasDefault : Context → Flag → Default → Type 0
HasDefault ctx f (uint n) = ctx.global_int f.name ≡ pos n
HasDefault ctx f (int z) = ctx.global_int f.name ≡ z
HasDefault ctx f (string s) = ctx.global_string f.name ≡ s
