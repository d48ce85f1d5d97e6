-- ===== src/Tests/Serving.antt =====
-- The REST service, and the observer as its client, at concrete inputs.
use btc_vendor_tools.Base.{◌≡◌, refl, false, List, [], ◌∷◌, ◌++◌, replicate, bytes_eq, IsErr, ok}
use btc_vendor_tools.Std.Binary.{Bytes, read_be, read_full}
use btc_vendor_tools.Utils.ToSign.{deserialize}
use btc_vendor_tools.Std.Hex.{hex_encode, hex_decode}
use btc_vendor_tools.Std.Text.{codes}
use btc_vendor_tools.Utils.Key.{get_utxo_key}
use btc_vendor_tools.Run.{finished}
use btc_vendor_tools.Signer.{
  clear_scripts, sign_input, sign_inputs, get_sigs, accepted, post_failed, rejected, submission,
}
use btc_vendor_tools.Observer.Client.{Answer, answer, request, check_answer, send_loop}
use btc_vendor_tools.Rest.{action_signtx}
use btc_vendor_tools.Rest.Service.{Poly, Texts, sign_tx}
use btc_vendor_tools.Rest.Router.{try_routes, compile, split_word, match_path, parse_params}
use btc_vendor_tools.Rest.Server.{Request, answered, silent, init_rest_server, post, serve_http}
use btc_vendor_tools.Rest.Split.{answer_of, post_of, serve_http-request}
use btc_vendor_tools.Rest.Split.Refusals.{serve_http-refused}
use btc_vendor_tools.Rest.Split.Endless.{posts, send_loop-posts}
use btc_vendor_tools.Tests.Toy.{wire, store, btc, redeem, item_two, item_two-IsItem}

abbrev texts : Texts
texts = record { of_error = λ e. []; of_sign = λ item. [] }

abbrev host : Bytes
host = codes "127.0.0.1"

abbrev poly : Poly
poly = record { calls = []; replies = post_failed ∷ accepted (4 ∷ []) ∷ rejected ∷ [] }

abbrev two_sigs : List Bytes
two_sigs = (0 ∷ 9 ∷ []) ∷ (1 ∷ 600 ∷ []) ∷ []

sigs_of_two : (get_sigs btc redeem item_two).0 ≡ ok two_sigs
unfolding get_sigs sign_inputs sign_input clear_scripts
sigs_of_two = refl

key_of_redeem : get_utxo_key btc redeem ≡ ok (48 ∷ 57 ∷ [])
unfolding get_utxo_key hex_encode
key_of_redeem = refl

serve_http-request_example :
    (raw : Bytes) × (request wire item_two ≡ ok raw)
    × (serve_http wire store btc redeem texts (init_rest_server host) (post_of host raw) poly
        ≡ finished (
          answered (record { action = action_signtx; desc = []; error = 0 }),
          record {
            calls = [] ++ replicate 2 (submission wire (48 ∷ 57 ∷ []) item_two two_sigs);
            replies = rejected ∷ [];
          },
        ))
serve_http-request_example =
    serve_http-request wire store btc redeem texts host item_two (48 ∷ 57 ∷ []) two_sigs 1 (4 ∷ [])
      (rejected ∷ []) poly item_two-IsItem key_of_redeem sigs_of_two refl

abbrev foreign : Request
foreign = post_of (codes "10.0.0.1") []

served_foreign :
    serve_http wire store btc redeem texts (init_rest_server host) foreign poly
    ≡ finished (silent, poly)
unfolding serve_http init_rest_server bytes_eq
served_foreign = refl

serve_http-refused_example : IsErr (check_answer (answer_of silent))
serve_http-refused_example =
    serve_http-refused wire store btc redeem texts (init_rest_server host) foreign poly poly silent
      served_foreign

-- Hex that is too short for an item is refused twice, and nothing is signed.
abbrev short_answers : List Answer
short_answers =
    answer 42003 (codes "[Rest] SignTx: deserialize failed, err: ")
    ∷ answer 42003 (codes "[Rest] SignTx: deserialize failed, err: ")
    ∷ []

posts_short :
    posts wire store btc redeem texts (init_rest_server host) host (codes "07") 2 poly
    ≡ finished (short_answers, poly)
unfolding posts serve_http init_rest_server try_routes compile split_word match_path parse_params
    post sign_tx hex_decode bytes_eq deserialize read_be read_full
posts_short = refl

send_loop-posts_example :
    send_loop (codes "07") short_answers
    ≡ record { ended = false; posted = replicate 2 (codes "07"); answers = [] }
send_loop-posts_example =
    send_loop-posts wire store btc redeem texts (init_rest_server host) host (codes "07") 2 poly
      poly short_answers posts_short
