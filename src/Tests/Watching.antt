-- ===== src/Tests/Watching.antt =====
-- The observer at concrete inputs.
use btc_vendor_tools.Wire.{MsgTx}
use btc_vendor_tools.Utils.Saved.{SavedItem}
use btc_vendor_tools.Db.{get_signed_tx, set_tx_done}
use btc_vendor_tools.Db.Cache.Lookup.{set_done}
use btc_vendor_tools.Db.View.{Inv}
use btc_vendor_tools.Signer.{clear_scripts}
use btc_vendor_tools.Observer.Events.{signed_tx_key, Values}
use btc_vendor_tools.Observer.Events.Finishes.{IsSignedEvent, check_notify-set_tx_done}
use btc_vendor_tools.Tests.Stored.{bare_db, bare_db-Inv, done_db, done_bare}
use btc_vendor_tools.Tests.Toy.{store-IsLevelDb}
use btc_vendor_tools.Base.{ok, if◌then◌else◌}
use btc_vendor_tools.Base.{
  ◌⊎◌, ◌+◌, ◌≤◌, ◌<◌, ℕ, ◌≡◌, refl, Bool, true, false, List, [], ◌∷◌, ◌++◌, flatten, length, arith,
  bytes_eq, none, some,
}
use btc_vendor_tools.Std.Binary.{Bytes}
use btc_vendor_tools.Std.Hex.{hex_decode}
use btc_vendor_tools.Std.Text.{codes}
use btc_vendor_tools.Utils.ToSign.{ToSignItem}
use btc_vendor_tools.Run.{finished, ◌>>=◌}
use btc_vendor_tools.Observer.Events.{
  Value, text, number, list, other, nil, cons, to_sign_tx_key, ObConf, ObState, decode_tx, deliver,
  check_to_sign, check_notify, check_notifies, check_loop, check_events,
}
use btc_vendor_tools.Observer.Events.Requests.{Requests}
use btc_vendor_tools.Observer.Events.Captures.{check_events_captures}
use btc_vendor_tools.Observer.Height.{get_last_height, last_height_file}
use btc_vendor_tools.Observer.Scan.{
  Tick, written, ListenState, listen_start, record_height, scan, tick, listen,
}
use btc_vendor_tools.Observer.Scan.Heights.{
  Rising, ended, no_height, same, up, handle, reached, listen-handle,
}
use btc_vendor_tools.Observer.Scan.Restart.{listen_restart}
use btc_vendor_tools.Observer.Scan.Checkpoint.{listen_lower}
use btc_vendor_tools.Tests.Toy.{wire, store, item_two, empty_db}

abbrev pub vendor : Bytes
vendor = codes "c330"

abbrev pub conf : ObConf
conf = record { hash_key = vendor; has_chan = true; waiting_circle = 5; start_height = 0 }

-- A request for item_two, one for another vendor, and an event that is no list.
abbrev pub to_sign : Value
to_sign = list (
    cons (text to_sign_tx_key) (
      cons (text vendor) (
        cons (text (codes "07010802"))
          (cons (list (cons (number 5) (cons (number 600) nil))) nil))))

abbrev foreign : Value
foreign = list (cons (text to_sign_tx_key) (cons (text (codes "d441")) nil))

abbrev pub events : List (List Value)
events = (to_sign ∷ foreign ∷ []) ∷ [] ∷ (other ∷ to_sign ∷ []) ∷ []

abbrev pub idle : ObState wire store
idle = record { vdb = empty_db; queue = []; posted = []; answers = [] }

abbrev pub busy : ObState wire store
busy = record idle { queue = item_two ∷ item_two ∷ [] }

pub checked : check_events wire store conf events idle ≡ finished (2, busy)
unfolding check_events check_loop check_notifies check_notify check_to_sign decode_tx deliver
    hex_decode bytes_eq
checked = refl

check_events_captures_example :
    (items : List ToSignItem) × Requests wire conf (flatten events) items
    × (busy.queue ≡ idle.queue ++ items)
    × (2 ≡ length items)
check_events_captures_example =
    check_events_captures wire store conf refl events idle busy 2 checked

abbrev chain : ℕ → List (List Value)
chain h = events

abbrev at_ten : ListenState wire store
at_ten = record { top = 10; last_recorded = 8; file = some (last_height_file 8); ob = idle }

abbrev tick_at : ℕ → List Bool → Tick
tick_at h replies = record { height = some h; replies = replies; write = written }

abbrev ticks : List Tick
ticks =
    tick_at 12 (true ∷ false ∷ true ∷ [])
    ∷ record { height = none; replies = []; write = written }
    ∷ tick_at 12 []
    ∷ tick_at 13 (true ∷ [])
    ∷ []

ticks-Rising : Rising 10 ticks 3
ticks-Rising =
    up 1 refl (omega arith) (omega arith)
      (no_height refl (same refl (up 0 refl (omega arith) (omega arith) ended)))

listen-handle_example :
    (listen wire store conf chain ticks at_ten >>= reached wire store conf chain)
    ≡ (handle wire store conf chain 11 3 idle >>= (λ ob. finished (13, ob)))
listen-handle_example = listen-handle wire store conf chain 3 ticks at_ten ticks-Rising

-- Blocks without events: only the fifth block since the last record brings a write.
abbrev quiet : ℕ → List (List Value)
quiet h = []

abbrev quiet_ticks : List Tick
quiet_ticks =
    tick_at 2 (true ∷ true ∷ [])
    ∷ tick_at 6 (true ∷ true ∷ true ∷ true ∷ [])
    ∷ tick_at 7 (true ∷ [])
    ∷ []

abbrev at_seven : ListenState wire store
at_seven = record { top = 7; last_recorded = 6; file = some (last_height_file 6); ob = idle }

listened :
    listen wire store conf quiet quiet_ticks (listen_start wire store conf quiet none idle)
    ≡ finished at_seven
unfolding listen listen_start get_last_height tick scan record_height check_events check_loop
listened = refl

none_is_zero : get_last_height none ≡ 0
unfolding get_last_height
none_is_zero = refl

quiet-Rising : Rising (get_last_height none) quiet_ticks 7
unfolding get_last_height
quiet-Rising =
    up 1 refl (omega arith) (omega arith)
      (up 3 refl (omega arith) (omega arith) (up 0 refl (omega arith) (omega arith) ended))

listen_restart_example :
    (7 ≡ get_last_height none + 7)
    × ((listen_start wire store conf quiet at_seven.file busy).top ≤ 7)
    × ((7 ≡ (listen_start wire store conf quiet at_seven.file busy).top)
        ⊎ (7 < (listen_start wire store conf quiet at_seven.file busy).top + 5))
listen_restart_example =
    listen_restart wire store conf quiet none idle busy quiet_ticks 7 at_seven refl
      (rw none_is_zero (omega arith)) quiet-Rising (refl, (refl, (refl, tt))) listened

listen_lower_example :
    (listen wire store conf chain (tick_at 9 [] ∷ tick_at 11 (true ∷ true ∷ []) ∷ []) at_ten
      >>= reached wire store conf chain)
    ≡ (handle wire store conf chain 10 2 idle >>= (λ ob. finished (11, ob)))
listen_lower_example =
    listen_lower wire store conf chain 9 2 (tick_at 9 []) (tick_at 11 (true ∷ true ∷ []) ∷ [])
      at_ten refl (omega arith) (omega arith) (up 1 refl (omega arith) (omega arith) ended)

-- The transaction of the item in bare_db comes back signed.
abbrev signed_states : Values
signed_states =
    cons (text signed_tx_key) (
      cons other
        (cons other (cons (text (codes "07630864")) (cons other (cons (text vendor) nil)))))

abbrev tx_signed : MsgTx
tx_signed = record {
  kept = [];
  tx_in =
      record { kept = 7 ∷ []; signature_script = 99 ∷ [] }
      ∷ record { kept = 8 ∷ []; signature_script = 100 ∷ [] }
      ∷ [];
}

signed_event : IsSignedEvent wire conf signed_states tx_signed
unfolding decode_tx hex_decode
signed_event = record {
  named = refl;
  keyed = refl;
  raw = codes "07630864";
  has_raw = refl;
  decoded = refl;
}

abbrev stocked : ObState wire store
stocked = record idle { vdb = bare_db }

marked : set_tx_done wire store (wire.tx_hash (clear_scripts tx_signed)) bare_db ≡ (ok tt, done_db)
unfolding clear_scripts
marked = done_bare

check_notify-set_tx_done_example :
    (check_notify wire store conf (list signed_states) stocked
      ≡ finished (0, record stocked { vdb = done_db }))
    × ((item : SavedItem) × (get_signed_tx wire store
            (wire.tx_hash (clear_scripts tx_signed))
            bare_db
          ≡ ok item)
        × Inv wire store done_db
        × ((j : Bytes)
            → get_signed_tx wire store j done_db ≡ (
                if bytes_eq (wire.tx_hash (clear_scripts tx_signed)) j
                then ok (set_done item)
                else get_signed_tx wire store j bare_db)))
check_notify-set_tx_done_example =
    check_notify-set_tx_done wire store conf store-IsLevelDb signed_states tx_signed stocked done_db
      signed_event bare_db-Inv marked
