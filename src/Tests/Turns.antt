-- ===== src/Tests/Turns.antt =====
-- The observer and the signer taking turns at concrete inputs.
use btc_vendor_tools.Base.{
  ◌≤◌, ◌≡◌, refl, ap, List, [], ◌∷◌, ◌++◌, none, length, All, arith, bytes_eq,
}
use btc_vendor_tools.Std.Binary.{Bytes}
use btc_vendor_tools.Std.Hex.{hex_decode}
use btc_vendor_tools.Std.Clock.{Time}
use btc_vendor_tools.Utils.ToSign.{ToSignItem}
use btc_vendor_tools.Db.View.{Inv}
use btc_vendor_tools.Db.Reliable.{IsFound}
use btc_vendor_tools.Run.{finished}
use btc_vendor_tools.Signer.{
  Submission, SignerState, Reply, accepted, post_failed, done, submission, sign_next, clear_scripts,
}
use btc_vendor_tools.Signer.Saves.{sign_next-accepted}
use btc_vendor_tools.Signer.Drains.{Acceptance, none_left, one_more}
use btc_vendor_tools.Observer.Events.{ObState, check_notify, check_to_sign, decode_tx, deliver}
use btc_vendor_tools.Observer.Events.Requests.{Requests}
use btc_vendor_tools.Pipeline.Interleaved.{
  channel_size, Turn, noticed, took, signed, notices, handled, Both, held, notices_one, takes,
  signs, Steps, stay, turn,
}
use btc_vendor_tools.Pipeline.Kept.{IsKept}
use btc_vendor_tools.Pipeline.Order.{turns_keep}
use btc_vendor_tools.Pipeline.Drained.{turns_of, signer_empties}
use btc_vendor_tools.Tests.Toy.{
  wire, store, store-IsLevelDb, store-IsReliable, btc, redeem, item_two, noon, empty_db,
  empty_db-Inv,
}
use btc_vendor_tools.Tests.Stored.{bare_db, put_bare}
use btc_vendor_tools.Tests.Watching.{conf, to_sign, idle}
use btc_vendor_tools.Tests.Signing.{sigs_of_two}
use btc_vendor_tools.Tests.Piping.{item_two-IsSignable}

abbrev key : Bytes
key = 1 ∷ []

abbrev St : Type 0
St = Both wire store btc redeem key conf

abbrev answers : List Reply
answers = post_failed ∷ accepted (7 ∷ []) ∷ []

-- The item that is sent while the signer is at work on the first one stays on the channel.
abbrev turns : List Turn
turns = noticed to_sign ∷ took ∷ noticed to_sign ∷ signed item_two noon (done (7 ∷ [])) ∷ []

abbrev one_item : ObState wire store
one_item = record idle { queue = item_two ∷ [] }

noticed_one : check_notify wire store conf to_sign idle ≡ finished (1, one_item)
unfolding check_notify check_to_sign decode_tx deliver hex_decode bytes_eq
noticed_one = refl

abbrev start : St
start = record { ob = idle; hand = none; calls = []; replies = answers }

abbrev sigs : List Bytes
sigs = (0 ∷ 9 ∷ []) ∷ (1 ∷ 600 ∷ []) ∷ []

abbrev two_calls : List Submission
two_calls = submission wire key item_two sigs ∷ submission wire key item_two sigs ∷ []

abbrev after : SignerState wire store btc redeem
after = record { vdb = bare_db; calls = two_calls; replies = [] }

abbrev end : St
end = record {
  ob = record one_item { vdb = bare_db };
  hand = none;
  calls = two_calls;
  replies = [];
}

signed_two :
    sign_next wire store btc redeem key item_two noon
      (record { vdb = empty_db; calls = []; replies = answers })
    ≡ (done (7 ∷ []), after)
unfolding clear_scripts
signed_two =
    sign_next-accepted wire store btc redeem key item_two noon
      (record { vdb = empty_db; calls = []; replies = answers }) sigs 1 (7 ∷ []) [] bare_db
      (ap (λ p. p.0) sigs_of_two) refl put_bare

steps : Steps wire store btc redeem key conf start turns end
steps = turn (notices_one to_sign 1 one_item noticed_one (omega arith)) (
    turn (takes item_two [] refl refl) (
      turn (notices_one to_sign 1 one_item noticed_one (omega arith))
        (turn (signs item_two noon (done (7 ∷ [])) after refl signed_two refl) stay)))

turns_keep_example :
    ((requested : List ToSignItem) × Requests wire conf (notices turns) requested
      × (held wire store btc redeem key conf start ++ requested
          ≡ handled turns ++ held wire store btc redeem key conf end))
    × All (IsKept wire store btc redeem end.ob.vdb) turns
    × ((j : Bytes) → IsFound wire store j start.ob.vdb → IsFound wire store j end.ob.vdb)
    × (length end.ob.queue ≤ channel_size)
    × Inv wire store end.ob.vdb
unfolding clear_scripts
turns_keep_example =
    turns_keep wire store btc redeem key conf refl store-IsLevelDb store-IsReliable start end turns
      steps empty_db-Inv (tt, (tt, (tt, (item_two-IsSignable.fits, tt)))) (omega arith)

abbrev waiting_items : List (ToSignItem × Time)
waiting_items = (item_two, noon) ∷ (item_two, noon) ∷ []

abbrev accepts : List Acceptance
accepts = (1, 7 ∷ []) ∷ (0, 8 ∷ []) ∷ []

abbrev full : St
full = record {
  ob = record idle { queue = item_two ∷ item_two ∷ [] };
  hand = none;
  calls = [];
  replies = answers ++ accepted (8 ∷ []) ∷ [];
}

signer_empties_example :
    (s' : St) × Steps wire store btc redeem key conf full (turns_of waiting_items accepts) s'
    × (held wire store btc redeem key conf s' ≡ [])
    × (s'.replies ≡ [])
signer_empties_example =
    signer_empties wire store btc redeem key conf store-IsReliable waiting_items accepts [] full
      (one_more item_two-IsSignable (one_more item_two-IsSignable none_left)) refl refl refl
