-- ===== src/Tests/Signing.antt =====
-- The signer at concrete inputs.
use btc_vendor_tools.Base.{
  ◌≡◌, refl, ap, List, [], ◌∷◌, ◌++◌, replicate, length, bytes_eq, if◌then◌else◌, ok,
}
use btc_vendor_tools.Std.Binary.{Bytes}
use btc_vendor_tools.Utils.ToSign.{ToSignItem}
use btc_vendor_tools.Utils.Saved.{SavedItem}
use btc_vendor_tools.Utils.Saved.RoundTrip.{IsSaved}
use btc_vendor_tools.Db.{VendorDb, put_signed_tx, put_uncached, store_new, get_signed_tx}
use btc_vendor_tools.Db.Cache
use btc_vendor_tools.Signer.{
  clear_scripts, cleared, pk_scripts, sign_input, sign_inputs, get_sigs, accepted, post_failed,
  rejected, done, waiting, Submission, submission, submit, SignerState, saved_item, sign_next,
}
use btc_vendor_tools.Signer.Sigs.{IsSigned, get_sigs-IsSigned}
use btc_vendor_tools.Signer.Submit.{verdict_of, submit_replies}
use btc_vendor_tools.Signer.Saves.{sign_next-saves}
use btc_vendor_tools.Utils.Saved
use btc_vendor_tools.Utils.ToSign
use btc_vendor_tools.Std.Clock.{gob_encode, zone_bits}
use btc_vendor_tools.Tests.Toy.{
  wire, store, store-IsLevelDb, btc, redeem, item_two, item_bare, saved_bare-IsSaved, noon,
  empty_db, empty_db-Inv,
}

-- The first input is signed as multisig, the second one with its amount.
abbrev pub two_sigs : List Bytes
two_sigs = (0 ∷ 9 ∷ []) ∷ (1 ∷ 600 ∷ []) ∷ []

pub sigs_of_two : get_sigs btc redeem item_two ≡ (ok two_sigs, item_bare)
unfolding get_sigs sign_inputs sign_input clear_scripts
sigs_of_two = refl

get_sigs-IsSigned_example :
    (item_bare ≡ cleared item_two)
    × (length two_sigs ≡ length item_two.mtx.tx_in)
    × IsSigned btc redeem
        (clear_scripts item_two.mtx)
        item_two.amts
        (pk_scripts item_two.mtx)
        two_sigs
get_sigs-IsSigned_example = get_sigs-IsSigned btc redeem item_two item_bare two_sigs sigs_of_two

abbrev call : Submission
call = submission wire (57 ∷ []) item_two two_sigs

submit_replies_example :
    (submit call (post_failed ∷ post_failed ∷ rejected ∷ accepted [] ∷ []) ≡ record {
      verdict = verdict_of rejected;
      calls = call ∷ call ∷ call ∷ [];
      replies = accepted [] ∷ [];
    })
    × (submit call (post_failed ∷ post_failed ∷ [])
        ≡ record { verdict = waiting; calls = call ∷ call ∷ []; replies = [] })
submit_replies_example = submit_replies call 2 rejected (accepted [] ∷ []) (λ e. cc e)

abbrev signer : SignerState wire store btc redeem
signer = record {
  vdb = empty_db;
  calls = [];
  replies = post_failed ∷ accepted (4 ∷ []) ∷ rejected ∷ [];
}

abbrev bare_hash : Bytes
bare_hash = 7 ∷ 0 ∷ 8 ∷ 0 ∷ []

abbrev after_two : VendorDb store.State
after_two =
    (put_signed_tx wire store (wire.tx_hash (clear_scripts item_two.mtx))
      (saved_item wire store btc redeem item_two noon) empty_db).1

put_two :
    put_signed_tx wire store
      (wire.tx_hash (clear_scripts item_two.mtx))
      (saved_item wire store btc redeem item_two noon)
      empty_db
    ≡ (ok tt, after_two)
unfolding put_signed_tx put_uncached store_new Cache.get Cache.find Saved.serialize ToSign.serialize
    gob_encode zone_bits clear_scripts
put_two = refl

two-IsSaved : IsSaved wire (saved_item wire store btc redeem item_two noon)
unfolding clear_scripts
two-IsSaved = saved_bare-IsSaved

sign_next-saves_example :
    (sign_next wire store btc redeem (57 ∷ []) item_two noon signer ≡ (
      done (4 ∷ []),
      record { vdb = after_two; calls = [] ++ replicate 2 call; replies = rejected ∷ [] },
    ))
    × ((j : Bytes)
        → get_signed_tx wire store j after_two ≡ (
            if bytes_eq (wire.tx_hash (clear_scripts item_two.mtx)) j
            then ok (saved_item wire store btc redeem item_two noon)
            else get_signed_tx wire store j empty_db))
sign_next-saves_example =
    sign_next-saves wire store btc redeem (57 ∷ []) store-IsLevelDb item_two noon signer two_sigs 1
      (4 ∷ []) (rejected ∷ []) after_two empty_db-Inv two-IsSaved (ap (λ p. p.0) sigs_of_two) refl
      refl put_two
