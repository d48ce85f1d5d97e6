-- ===== src/Tests/Whole.antt =====
-- A start in the mode "all" and its first turns at concrete inputs.
use btc_vendor_tools.Base.{
  ◌≤◌, ◌≡◌, refl, ap, List, [], ◌∷◌, ◌++◌, none, map, flatten, length, All, arith, bytes_eq, Result,
  ok,
}
use btc_vendor_tools.Std.Binary.{Bytes}
use btc_vendor_tools.Std.Hex.{hex_decode, hex_encode}
use btc_vendor_tools.Std.Text.{codes}
use btc_vendor_tools.Utils.ToSign.{ToSignItem}
use btc_vendor_tools.Utils.Key.{get_utxo_key}
use btc_vendor_tools.Db.View.{Inv, IsStored}
use btc_vendor_tools.Run.{finished}
use btc_vendor_tools.Signer.{
  Submission, SignerState, Reply, accepted, done, submission, sign_next, clear_scripts,
}
use btc_vendor_tools.Signer.Saves.{sign_next-accepted}
use btc_vendor_tools.Observer.Setup.{conf_of}
use btc_vendor_tools.Observer.Events.{
  Value, text, number, list, cons, nil, to_sign_tx_key, ObState, check_notify, check_notifies,
  check_loop, check_events, check_to_sign, decode_tx, deliver,
}
use btc_vendor_tools.Observer.Events.Requests.{Requests}
use btc_vendor_tools.Pipeline.Interleaved.{
  channel_size, Turn, noticed, took, signed, notices, handled, Both, held, notices_one, takes,
  signs, Steps, stay, turn,
}
use btc_vendor_tools.Pipeline.Kept.{IsKept}
use btc_vendor_tools.Pipeline.Noticed.{check_events-Steps}
use btc_vendor_tools.Pipeline.Whole.{started, run_keeps}
use btc_vendor_tools.Tests.Toy.{
  wire, store, store-IsLevelDb, store-IsReliable, btc, redeem, item_two, noon, empty_db,
  empty_db-Inv,
}
use btc_vendor_tools.Tests.Stored.{bare_db, put_bare}
use btc_vendor_tools.Tests.Signing.{sigs_of_two, two_sigs}
use btc_vendor_tools.Tests.Piping.{item_two-IsSignable}
use btc_vendor_tools.Tests.Starting.{backend, files, world, flags, observer, running, runs}

abbrev key : Bytes
key = codes "09"

abbrev St : Type 0
St = Both wire store btc redeem key (conf_of observer)

abbrev request : Value
request = list (
    cons (text to_sign_tx_key) (
      cons (text key) (
        cons (text (codes "07010802"))
          (cons (list (cons (number 5) (cons (number 600) nil))) nil))))

abbrev answers : List Reply
answers = accepted (7 ∷ []) ∷ []

abbrev turns : List Turn
turns = noticed request ∷ took ∷ signed item_two noon (done (7 ∷ [])) ∷ []

abbrev none_sent : ObState wire store
none_sent = record { vdb = empty_db; queue = []; posted = []; answers = [] }

abbrev one_sent : ObState wire store
one_sent = record none_sent { queue = item_two ∷ [] }

noticed_one : check_notify wire store (conf_of observer) request none_sent ≡ finished (1, one_sent)
unfolding check_notify check_to_sign decode_tx deliver hex_decode bytes_eq
noticed_one = refl

abbrev one_call : List Submission
one_call = submission wire key item_two two_sigs ∷ []

abbrev after : SignerState wire store btc redeem
after = record { vdb = bare_db; calls = one_call; replies = [] }

abbrev end : St
end = record {
  ob = record none_sent { vdb = bare_db };
  hand = none;
  calls = one_call;
  replies = [];
}

signed_one :
    sign_next wire store btc redeem key item_two noon
      (record { vdb = empty_db; calls = []; replies = answers })
    ≡ (done (7 ∷ []), after)
unfolding clear_scripts
signed_one =
    sign_next-accepted wire store btc redeem key item_two noon
      (record { vdb = empty_db; calls = []; replies = answers }) two_sigs 0 (7 ∷ []) [] bare_db
      (ap (λ p. p.0) sigs_of_two) refl put_bare

steps :
    Steps wire store btc redeem key
      (conf_of observer)
      (started wire store btc redeem observer empty_db answers)
      turns
      end
steps = turn (notices_one request 1 one_sent noticed_one (omega arith)) (
    turn (takes item_two [] refl refl)
      (turn (signs item_two noon (done (7 ∷ [])) after refl signed_one refl) stay))

opened_empty :
    (path : Bytes) (d : store.State) → world.open_file path ≡ ok d → IsStored wire store d
opened_empty path d e =
    let same : d ≡ [] =
      (let f : ◌≡◌ {A = Result (List (Bytes × Bytes))} (ok []) (ok d) = e in ground arith) in
    rw same empty_db-Inv.stored

decoded : hex_decode running.settings.conf.redeem ≡ ok redeem
unfolding hex_decode hex_encode
decoded = refl

run_keeps_example :
    (get_utxo_key btc redeem ≡ ok key)
    × ((requested : List ToSignItem) × Requests wire (conf_of observer) (notices turns) requested
        × (requested ≡ handled turns ++ held wire store btc redeem key (conf_of observer) end))
    × All (IsKept wire store btc redeem end.ob.vdb) turns
    × (length end.ob.queue ≤ channel_size)
    × Inv wire store end.ob.vdb
unfolding clear_scripts
run_keeps_example =
    run_keeps wire store btc files backend flags world running observer redeem answers
      store-IsLevelDb store-IsReliable opened_empty runs refl decoded turns end steps
      (tt, (tt, (item_two-IsSignable.fits, tt)))

checked_one :
    check_events wire store (conf_of observer) ((request ∷ []) ∷ []) none_sent
    ≡ finished (1, one_sent)
unfolding check_events check_loop check_notifies check_notify check_to_sign decode_tx deliver
    hex_decode bytes_eq
checked_one = refl

abbrev first : St
first = started wire store btc redeem observer empty_db answers

check_events-Steps_example :
    Steps wire store btc redeem key
      (conf_of observer)
      first
      (map noticed (flatten ((request ∷ []) ∷ [])))
      (record first { ob = one_sent })
check_events-Steps_example =
    check_events-Steps wire store btc redeem key (conf_of observer) refl ((request ∷ []) ∷ []) first
      one_sent 1 checked_one (omega arith)
