-- ===== src/Log/Files.antt =====
-- log/log.go: where the lines go. The file system and the clock are parameters; io.MultiWriter is
-- the loop over its writers.
use btc_vendor_tools.Base.{
  ℕ, Bool, true, false, List, [], ◌∷◌, ◌++◌, Option, none, some, if◌then◌else◌, bad_params, Result,
  ok, err, panic,
}
use btc_vendor_tools.Std.Binary.{Bytes}
use btc_vendor_tools.Std.Int.{ℤ}
use btc_vendor_tools.Std.Text.{codes}
use btc_vendor_tools.Log.{at_least, check_if_need_new_file}

-- os.Stat: a folder, another file, nothing there, or another error.
pub data Stat : Type 0 where
  folder file absent broken : Stat

pub record Disk : Type 1 where
  pub State : Type 0
  pub Handle : Type 0
  pub stdout : Handle
  pub discard : Handle
  pub stat : State → Bytes → Stat
  -- Whether os.MkdirAll succeeded, and the disk after it.
  pub mkdir_all : State → Bytes → Bool × State
  -- os.OpenFile with the flags of FileOpen.
  pub open_file : State → Bytes → Result Handle × State
  pub write : State → Handle → Bytes → Bool × State
  pub size : State → Handle → Result ℕ
  pub close : State → Handle → Result (Unit {0}) × State

-- The elements of `a ...interface{}` of InitLog.
pub data Location (Handle : Type 0) : Type 0 where
  path : Bytes → Location Handle
  opened : Handle → Location Handle
  invalid : Location Handle

module _ (D : Disk) where
  abbrev open_log : Bytes → D.State → Result D.Handle × D.State
  open_log name d = D.open_file d name

  abbrev opened_in : Bytes → Bool × D.State → Result D.Handle × D.State
  opened_in name (true, d) = open_log name d
  opened_in name (false, d) = (err bad_params, d)

  abbrev open_as : Bytes → Bytes → D.State → Stat → Result D.Handle × D.State
  open_as dir name d folder = open_log name d
  open_as dir name d file = (err bad_params, d)
  open_as dir name d absent = opened_in name (D.mkdir_all d dir)
  open_as dir name d broken = (err bad_params, d)

  -- FileOpen, at the time `now` as it is formatted.
  unfoldable pub file_open : (now dir : Bytes) → D.State → Result D.Handle × D.State
  file_open now dir d = open_as dir (dir ++ now ++ codes "_LOG.log") d (D.stat d dir)

  -- The writers and logFile while InitLog goes over its arguments.
  pub record Writers : Type 0 where
    pub handles : List D.Handle
    pub log_file : Option D.Handle

  abbrev with_writer : D.Handle → Writers → Writers
  with_writer h ws = record ws { handles = ws.handles ++ h ∷ [] }

  abbrev with_file : D.Handle → Writers → Writers
  with_file h ws = record ws { handles = ws.handles ++ h ∷ []; log_file = some h }

  -- The loop of InitLog; `none` is os.Exit(1).
  unfoldable pub open_all :
      (now : Bytes) → List (Location D.Handle) → Writers → D.State → Option (Writers × D.State)
  unfolding file_open
  open_all now [] ws d = some (ws, d)
  open_all now (path dir ∷ rest) ws d =
      let (h, d') = file_open now dir d in
      elim h [
        | ok handle ↦ open_all now rest (with_file handle ws) d'
        | err e ↦ none
        | panic ↦ none
      ]
  open_all now (opened h ∷ rest) ws d = open_all now rest (with_writer h ws) d
  open_all now (invalid ∷ rest) ws d = none

  pub record Logger : Type 0 where
    pub level : ℤ
    pub handles : List D.Handle
    pub log_file : Option D.Handle

  abbrev logger_of : ℤ → Option (Writers × D.State) → Option (Logger × D.State)
  logger_of level none = none
  logger_of level (some (ws, d)) =
      some (record { level = level; handles = ws.handles; log_file = ws.log_file }, d)

  -- InitLog.
  unfoldable pub init_log :
      (now : Bytes) → ℤ → List (Location D.Handle) → D.State → Option (Logger × D.State)
  unfolding open_all
  init_log now level [] d =
      some (record { level = level; handles = D.discard ∷ []; log_file = none }, d)
  init_log now level (a ∷ as_) d =
      logger_of level (open_all now (a ∷ as_) (record { handles = []; log_file = none }) d)

  -- MultiWriter writes to one after the other, up to the first that fails.
  unfoldable pub write_all : List D.Handle → Bytes → D.State → Bool × D.State
  write_all [] text d = (true, d)
  write_all (h ∷ hs) text d =
      let (written, d') = D.write d h text in
      let rest = write_all hs text d' in if written then rest else (false, d')

  -- Output and Outputf of a level, with the text of the line.
  unfoldable pub output_line : ℕ → Bytes → Logger → D.State → Bool × D.State
  unfolding write_all
  output_line level text l d =
      let written = write_all l.handles text d in
      if at_least level l.level then written else (true, d)

  -- GetLogFileSize; Stat of a nil *os.File is an error.
  abbrev pub get_log_file_size : Logger → D.State → Result ℕ
  get_log_file_size l d = elim l.log_file [ none ↦ err bad_params | some h ↦ D.size d h ]

  -- CheckIfNeedNewFile.
  unfoldable pub needs_new_file : Logger → D.State → Result Bool
  unfolding check_if_need_new_file
  needs_new_file l d = check_if_need_new_file (get_log_file_size l d)

  -- ClosePrintLog.
  unfoldable pub close_print_log : Logger → D.State → Result (Unit {0}) × D.State
  close_print_log l d = elim l.log_file [ none ↦ (ok tt, d) | some h ↦ D.close d h ]
