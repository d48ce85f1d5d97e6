-- ===== src/Log.antt =====
-- log/log.go: levels and their names, and which messages are written. The format of a line, the
-- goroutine and the place of a call are parameters.
pub mod Lines
pub mod Files
pub mod Reaches
use btc_vendor_tools.Base.{
  ℕ, zero, suc, ◌-◌, ◌*◌, ◌%◌, ◌^◌, ◌≤◌, ◌≡◌, refl, ap, ◌∙◌, Bool, true, false, Option, none, some,
  List, [], ◌∷◌, ◌++◌, ltb, ◌==◌, if◌then◌else◌, bytes_eq, arith, out_of_range, Result, ok, err,
  panic,
}
use btc_vendor_tools.Std.Binary.{Bytes}
use btc_vendor_tools.Std.Int.{ℤ, pos, negsuc, IsInt64, format_int, atoi, atoi-format_int}
use btc_vendor_tools.Std.Text.{codes}

abbrev pub green : Bytes
green = codes "0;32"

abbrev pub cyan : Bytes
cyan = codes "0;36"

abbrev pub yellow : Bytes
yellow = codes "0;33"

abbrev pub red : Bytes
red = codes "0;31"

abbrev pub pink : Bytes
pink = codes "1;35"

-- Color: the escape sequences around a text.
abbrev pub color : Bytes → Bytes → Bytes
color code msg = 27 ∷ 91 ∷ code ++ (109 ∷ msg ++ (27 ∷ 91 ∷ 109 ∷ []))

abbrev pub trace_log : ℕ
trace_log = 0

abbrev pub debug_log : ℕ
debug_log = 1

abbrev pub info_log : ℕ
info_log = 2

abbrev pub warn_log : ℕ
warn_log = 3

abbrev pub error_log : ℕ
error_log = 4

abbrev pub fatal_log : ℕ
fatal_log = 5

abbrev pub max_level_log : ℕ
max_level_log = 6

-- The map of the names; they differ, so the order in which Go ranges over it does not matter.
abbrev pub levels : List (ℕ × Bytes)
levels =
    (debug_log, color green (codes "[DEBUG]"))
    ∷ (info_log, color cyan (codes "[INFO ]"))
    ∷ (warn_log, color yellow (codes "[WARN ]"))
    ∷ (error_log, color red (codes "[ERROR]"))
    ∷ (fatal_log, color red (codes "[FATAL]"))
    ∷ (trace_log, color pink (codes "[TRACE]"))
    ∷ []

abbrev pub name_prefix : Bytes
name_prefix = codes "LEVEL"

abbrev pub name_at : ℕ → List (ℕ × Bytes) → Option Bytes
name_at level [] = none
name_at level ((k, v) ∷ rest) = if k == level then some v else name_at level rest

abbrev pub known_name : ℤ → Option Bytes
known_name (pos n) = name_at n levels
known_name (negsuc n) = none

abbrev name_or_number : Option Bytes → ℤ → Bytes
name_or_number (some name) level = name
name_or_number none level = name_prefix ++ format_int level

unfoldable pub level_name : ℤ → Bytes
level_name level = name_or_number (known_name level) level

unfoldable pub level_at : Bytes → List (ℕ × Bytes) → Option ℕ
level_at name [] = none
level_at name ((k, v) ∷ rest) =
    let more = level_at name rest in if bytes_eq v name then some k else more

-- `strings.HasPrefix(name, NAME_PREFIX)`, and what stands behind the prefix.
unfoldable pub behind_prefix : Bytes → Bytes → Option Bytes
behind_prefix [] name = some name
behind_prefix (p ∷ ps) [] = none
behind_prefix (p ∷ ps) (c ∷ cs) = let more = behind_prefix ps cs in if p == c then more else none

abbrev pub numbered : Option Bytes → ℤ
numbered none = pos 0
numbered (some s) = atoi s

unfoldable pub name_level : Bytes → ℤ
unfolding level_at behind_prefix
name_level name = elim (level_at name levels) [
  | some k ↦ pos k
  | none ↦ numbered (behind_prefix name_prefix name)
]

numbered_level : (level : ℤ) → IsInt64 level → name_level (name_prefix ++ format_int level) ≡ level
unfolding name_level bytes_eq
numbered_level level h = atoi-format_int level h

name_at_large : (n : ℕ) → 6 ≤ n → name_at n levels ≡ none
name_at_large n h = ground arith

-- NameLevel takes the name of every int back to that int, of the six levels as of all others.
pub name_level-level_name : (level : ℤ) → IsInt64 level → name_level (level_name level) ≡ level
unfolding level_name name_level level_at bytes_eq behind_prefix
name_level-level_name (negsuc n) h = numbered_level (negsuc n) h
name_level-level_name (pos zero) h = refl
name_level-level_name (pos (suc zero)) h = refl
name_level-level_name (pos (suc (suc zero))) h = refl
name_level-level_name (pos (suc (suc (suc zero)))) h = refl
name_level-level_name (pos (suc (suc (suc (suc zero))))) h = refl
name_level-level_name (pos (suc (suc (suc (suc (suc zero)))))) h = refl
name_level-level_name (pos (suc (suc (suc (suc (suc (suc n))))))) h =
    let level : ℤ = pos (suc (suc (suc (suc (suc (suc n)))))) in
    ap (λ o. name_level (name_or_number o level))
      (name_at_large (suc (suc (suc (suc (suc (suc n)))))) (omega arith))
    ∙ numbered_level level h

-- A Logger, with the lines that it has written.
pub record Logger (Line : Type 0) : Type 0 where
  pub level : ℤ
  pub lines : List Line

abbrev pub at_least : ℕ → ℤ → Bool
at_least level (pos n) = if ltb level n then false else true
at_least level (negsuc n) = true

-- SetDebugLevel.
unfoldable pub set_debug_level : {Line : Type 0} → ℤ → Logger Line → Result (Unit {0}) × Logger Line
set_debug_level (negsuc n) l = (err out_of_range, l)
set_debug_level (pos n) l =
    if ltb max_level_log n then (err out_of_range, l) else (ok tt, record l { level = pos n })

-- Output and Outputf of a level: the line that `format` makes of the name of the level is written
-- if the level is at least that of the logger.
unfoldable pub output :
    {Line : Type 0} → (format : Bytes → Line) (level : ℕ) → Logger Line → Logger Line
output format level l =
    if at_least level l.level
    then record l { lines = l.lines ++ format (level_name (pos level)) ∷ [] }
    else l

-- The methods, and the functions of the package, by their levels; the variants with a format string
-- differ in `format` only.
pub data Method : Type 0 where
  trace debug info warn error fatal : Method

abbrev pub level_of : Method → ℕ
level_of trace = trace_log
level_of debug = debug_log
level_of info = info_log
level_of warn = warn_log
level_of error = error_log
level_of fatal = fatal_log

unfoldable pub log_method :
    {Line : Type 0} → (format : Bytes → Line) → Method → Logger Line → Logger Line
unfolding output
log_method format m l = output format (level_of m) l

-- `if TraceLog < Log.level { return }`, before the place of the call is looked up.
abbrev traced : {Line : Type 0} → (format : Bytes → Line) → Method → Logger Line → Logger Line
traced format m l =
    let written = log_method format m l in if at_least (level_of m) l.level then written else l

unfoldable pub log_function :
    {Line : Type 0} → (format : Bytes → Line) → Method → Logger Line → Logger Line
unfolding log_method
log_function format trace l = traced format trace l
log_function format debug l = traced format debug l
log_function format m l = log_method format m l

-- The int64 of 64 bits.
abbrev pub of_bits : ℕ → ℤ
of_bits m = if ltb m (2 ^ 63) then pos m else negsuc (2 ^ 64 - 1 - m)

-- GetMaxLogChangeInterval.
unfoldable pub get_max_log_change_interval : ℤ → ℤ
get_max_log_change_interval (pos n) =
    if n == 0 then pos (20 * 1048576) else of_bits (n * 1048576 % 2 ^ 64)
get_max_log_change_interval (negsuc n) = of_bits ((2 ^ 64 - suc n * 1048576 % 2 ^ 64) % 2 ^ 64)

abbrev pub above : ℕ → ℤ → Bool
above size (pos limit) = ltb limit size
above size (negsuc limit) = true

-- CheckIfNeedNewFile, with the size that GetLogFileSize finds.
unfoldable pub check_if_need_new_file : Result ℕ → Result Bool
unfolding get_max_log_change_interval
check_if_need_new_file (ok size) = ok (above size (get_max_log_change_interval (pos 0)))
check_if_need_new_file (err e) = ok false
check_if_need_new_file panic = panic
