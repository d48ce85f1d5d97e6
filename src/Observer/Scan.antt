-- ===== src/Observer/Scan.antt =====
-- observer/alliaob.go: NewObserver's start height and Observer.Listen.
pub mod Range
pub mod Heights
pub mod Checkpoint
pub mod Restart
use btc_vendor_tools.Base.{
  ℕ, suc, ◌+◌, ◌-◌, ◌%◌, ◌^◌, Bool, true, false, not, ◌||◌, List, [], ◌∷◌, Option, none, some, ltb,
  leb, ◌==◌, if◌then◌else◌,
}
use btc_vendor_tools.Std.Binary.{Bytes}
use btc_vendor_tools.Wire.{Wire}
use btc_vendor_tools.LevelDb.{LevelDb}
use btc_vendor_tools.Run.{Run, finished, crashed, waiting, ◌>>=◌}
use btc_vendor_tools.Observer.Events.{Value, ObConf, ObState, check_events}
use btc_vendor_tools.Observer.Height.{get_last_height, last_height_file}

-- How a write of the file last_height ends; a write that fails leaves some file behind.
pub data Write : Type 0 where
  written : Write
  unwritten : Option Bytes → Write

-- What a tick meets: the answer of GetCurrentBlockHeight, whether each call of
-- GetSmartContractEventByBlock succeeds, and how the write of the file ends.
pub record Tick : Type 0 where
  pub height : Option ℕ
  pub replies : List Bool
  pub write : Write

module _ (w : Wire) (L : LevelDb) where
  -- The local variables of Listen, the file last_height, and what checkEvents changes.
  pub record ListenState : Type 0 where
    pub top : ℕ
    pub last_recorded : ℕ
    pub file : Option Bytes
    pub ob : ObState w L

  module _ (conf : ObConf) (chain : ℕ → List (List Value)) where
    -- The state when the loop of Listen starts.
    unfoldable pub listen_start : Option Bytes → ObState w L → ListenState
    listen_start file ob =
        let start = (if conf.start_height == 0 then get_last_height file else conf.start_height) in
        record { top = start; last_recorded = start; file = file; ob = ob }

    -- `for h <= newTop`, with toSign. Replies that run out leave the loop waiting.
    unfoldable pub scan : ℕ → ℕ → List Bool → ℕ → ObState w L → Run (ℕ × ObState w L)
    scan h new_top [] n st = if ltb new_top h then finished (n, st) else waiting
    scan h new_top (false ∷ rest) n st =
        let again = scan h new_top rest n st in if ltb new_top h then finished (n, st) else again
    scan h new_top (true ∷ rest) n st =
        let next = (do
          (c, st') ← check_events w L conf (chain h) st
          scan ((h + 1) % 2 ^ 32) new_top rest (n + c) st') in
        if ltb new_top h then finished (n, st) else next

    abbrev pub file_after : Write → ℕ → Option Bytes
    file_after written top = some (last_height_file top)
    file_after (unwritten left) top = left

    -- The end of a tick, from `top = newTop`.
    unfoldable pub record_height : ℕ → ℕ → Write → ObState w L → ListenState → ListenState
    record_height new_top to_sign write ob s =
        if ltb 0 to_sign || leb conf.waiting_circle ((new_top + 2 ^ 32 - s.last_recorded) % 2 ^ 32)
        then record {
          top = new_top;
          last_recorded = new_top;
          file = file_after write new_top;
          ob = ob;
        }
        else record s { top = new_top; ob = ob }

    -- `newTop-top <= 0` on uint32 holds only where the difference is 0.
    abbrev pub tick_to : ℕ → Tick → ListenState → Run ListenState
    tick_to new_top t s =
        let watch = (do
          (n, ob') ← scan ((s.top + 1) % 2 ^ 32) new_top t.replies 0 s.ob
          finished (record_height new_top n t.write ob' s)) in
        if (new_top + 2 ^ 32 - s.top) % 2 ^ 32 == 0 then finished s else watch

    unfoldable pub tick : Tick → ListenState → Run ListenState
    tick t s = elim t.height [ none ↦ finished s | some new_top ↦ tick_to new_top t s ]

    -- `for { select { case <-tick.C: … } }`, for the ticks of a list.
    unfoldable pub listen : List Tick → ListenState → Run ListenState
    listen [] s = finished s
    listen (t ∷ ts) s = do s' ← tick t s; listen ts s'
