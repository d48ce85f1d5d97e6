-- ===== src/Tests/Piping.antt =====
-- The way of an item from the events to the database at concrete inputs.
use btc_vendor_tools.Base.{◌≡◌, refl, List, [], ◌∷◌, map, flatten, length, All}
use btc_vendor_tools.Std.Binary.{Bytes}
use btc_vendor_tools.Std.Clock.{Time}
use btc_vendor_tools.Utils.ToSign.{ToSignItem}
use btc_vendor_tools.Db.View.{Inv}
use btc_vendor_tools.Db.Reliable.{IsFound}
use btc_vendor_tools.Signer.{
  done, SignerState, accepted, post_failed, signing_loop, get_sigs, sign_inputs, sign_input,
  clear_scripts,
}
use btc_vendor_tools.Signer.Drains.{Acceptance, db_key, IsSignable, none_left, one_more}
use btc_vendor_tools.Observer.Events.Requests.{Requests}
use btc_vendor_tools.Pipeline.{captured_are_saved}
use btc_vendor_tools.Tests.Toy.{
  wire, store, store-IsLevelDb, store-IsReliable, btc, redeem, item_two, saved_bare-IsSaved, noon,
  empty_db, empty_db-Inv,
}
use btc_vendor_tools.Tests.Watching.{conf, events, idle, busy, checked}

abbrev timed : List (ToSignItem × Time)
timed = (item_two, noon) ∷ (item_two, noon) ∷ []

abbrev accepts : List Acceptance
accepts = (0, 1 ∷ []) ∷ (1, 2 ∷ []) ∷ []

abbrev signer : SignerState wire store btc redeem
signer = record {
  vdb = empty_db;
  calls = [];
  replies = accepted (1 ∷ []) ∷ post_failed ∷ accepted (2 ∷ []) ∷ [];
}

pub item_two-IsSignable : IsSignable wire store btc redeem item_two noon
unfolding get_sigs sign_inputs sign_input clear_scripts
item_two-IsSignable = record {
  sigs = (0 ∷ 9 ∷ []) ∷ (1 ∷ 600 ∷ []) ∷ [];
  signs = refl;
  fits = saved_bare-IsSaved;
}

captured_are_saved_example :
    (requested : List ToSignItem) × Requests wire conf (flatten events) requested
    × (2 ≡ length requested)
    × All
        (λ item.
          IsFound wire store
            (db_key wire store btc redeem item)
            (signing_loop wire store btc redeem (1 ∷ []) timed signer).1.vdb)
        requested
    × ((signing_loop wire store btc redeem (1 ∷ []) timed signer).0 ≡ map (λ a. done a.1) accepts)
    × ((j : Bytes)
        → IsFound wire store j empty_db
        → IsFound wire store j (signing_loop wire store btc redeem (1 ∷ []) timed signer).1.vdb)
    × Inv wire store (signing_loop wire store btc redeem (1 ∷ []) timed signer).1.vdb
captured_are_saved_example =
    captured_are_saved wire store btc redeem (1 ∷ []) conf refl store-IsLevelDb store-IsReliable
      events idle busy 2 timed accepts [] signer empty_db-Inv checked refl
      (one_more item_two-IsSignable (one_more item_two-IsSignable none_left)) refl refl
