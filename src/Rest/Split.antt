-- ===== src/Rest/Split.antt =====
-- observer/alliaob.go and rest/: the observer in one process, the signer behind the REST server of
-- another.
pub mod Refusals
pub mod Endless
use btc_vendor_tools.Base.{
  ℕ, zero, suc, ◌≡◌, ◌≢◌, refl, sym, ap, ◌∙◌, Bool, true, false, List, [], ◌∷◌, ◌++◌, replicate,
  Option, none, some, bytes_eq, bytes_eq_refl, All, if◌then◌else◌, Result, ok, err, panic,
}
use btc_vendor_tools.Std.Binary.{Bytes, IsByte}
use btc_vendor_tools.Std.Hex.{hex_encode, hex_decode, hex_decode-hex_encode}
use btc_vendor_tools.Std.Text.{codes}
use btc_vendor_tools.Wire.{Wire}
use btc_vendor_tools.LevelDb.{LevelDb}
use btc_vendor_tools.Btc.{Btc}
use btc_vendor_tools.Run.{Run, finished, ◌>>=◌}
use btc_vendor_tools.Utils.ToSign.{ToSignItem, serialize, deserialize}
use btc_vendor_tools.Utils.ToSign.RoundTrip.{IsItem, deserialize-serialize}
use btc_vendor_tools.Utils.Key.{get_utxo_key}
use btc_vendor_tools.Signer.{
  Reply, accepted, post_failed, done, Submission, submission, submit, get_sigs, sign,
}
use btc_vendor_tools.Signer.Submit.{submit_replies}
use btc_vendor_tools.Observer.Client.{Answer, no_answer, answer, request}
use btc_vendor_tools.Rest.{Response, Field, text, signtx, action_signtx}
use btc_vendor_tools.Rest.Service.{Poly, Texts, after_sign, sign_tx}
use btc_vendor_tools.Rest.Router.{
  add, compile, split_word, match_path, words, try_routes, parse_params,
}
use btc_vendor_tools.Rest.Server.{
  params, Request, Served, silent, not_found, no_body, answered, post_handler, init_rest_server,
  register, post_body, post, with_action, serve_http,
}

-- What the client makes of what the server wrote: only a Response is one.
abbrev pub answer_of : Served → Answer
answer_of silent = no_answer
answer_of not_found = no_answer
answer_of no_body = no_answer
answer_of (answered resp) = answer resp.error resp.desc

-- The POST of sendRequest, from the observer's host.
abbrev pub post_of : Bytes → Bytes → Request
post_of host raw = record {
  host = host;
  method = codes "POST";
  path = signtx;
  body = params (text raw);
}

module _ (w : Wire) (L : LevelDb) (b : Btc) (redeem : Bytes) (texts : Texts) where
  serve_http-post :
      (host raw : Bytes) (p : Poly)
      → serve_http w L b redeem texts (init_rest_server host) (post_of host raw) p
        ≡ post_body w L b redeem texts (params (text raw)) p
  unfolding serve_http post init_rest_server try_routes compile split_word match_path words
      parse_params bytes_eq
  serve_http-post host raw p = rw (bytes_eq_refl host, serve_http) refl

  sign_tx-hex_encode :
      (item : ToSignItem) (bytes : Bytes) (p : Poly)
      → All IsByte bytes
      → deserialize w bytes ≡ ok item
      → sign_tx w L b redeem texts (text (hex_encode bytes)) p
        ≡ after_sign w L b redeem texts item p
            (sign w L b redeem item p.replies)
            (sign w L b redeem item p.replies).verdict
  unfolding sign_tx
  sign_tx-hex_encode item bytes p are_bytes decoded =
      rw (hex_decode-hex_encode bytes are_bytes) (rw (decoded) refl)

  sign-accepted :
      (item : ToSignItem) (key : Bytes) (sigs : List Bytes) (n : ℕ) (txid : Bytes)
      (rest : List Reply)
      → get_utxo_key b redeem ≡ ok key
      → (get_sigs b redeem item).0 ≡ ok sigs
      → sign w L b redeem item (replicate n post_failed ++ accepted txid ∷ rest) ≡ record {
        verdict = done txid;
        calls = replicate (suc n) (submission w key item sigs);
        replies = rest;
      }
  unfolding sign
  sign-accepted item key sigs n txid rest keyed signed =
      rw (keyed, sign)
        (rw (signed, sign)
          (submit_replies (submission w key item sigs) n (accepted txid) rest (λ e. cc e)).0)

-- An item of the wire format that the observer posts from the host that the server serves is signed
-- by the other process as it is: if its signer signs it, and Poly accepts after n failures to post,
-- Poly is called n + 1 times for this item, and the response says error 0 with an empty desc.
pub serve_http-request :
    (w : Wire) (L : LevelDb) (b : Btc) (redeem : Bytes) (texts : Texts) (host : Bytes)
    (item : ToSignItem) (key : Bytes) (sigs : List Bytes) (n : ℕ) (txid : Bytes) (rest : List Reply)
    (p : Poly)
    → IsItem w item
    → get_utxo_key b redeem ≡ ok key
    → (get_sigs b redeem item).0 ≡ ok sigs
    → p.replies ≡ replicate n post_failed ++ accepted txid ∷ rest
    → (raw : Bytes) × (request w item ≡ ok raw)
      × (serve_http w L b redeem texts (init_rest_server host) (post_of host raw) p
          ≡ finished (
            answered (record { action = action_signtx; desc = []; error = 0 }),
            record {
              calls = p.calls ++ replicate (suc n) (submission w key item sigs);
              replies = rest;
            },
          ))
unfolding request
serve_http-request w L b redeem texts host item key sigs n txid rest p fits keyed signed replies =
    let (bytes, encoded, are_bytes, _, _, decoded) = deserialize-serialize w item fits in
    (
      hex_encode bytes,
      rw encoded refl,
      serve_http-post w L b redeem texts host (hex_encode bytes) p
          ∙ ap (λ r. r >>= with_action w L b redeem texts action_signtx)
              (sign_tx-hex_encode w L b redeem texts item bytes p are_bytes decoded
                ∙ ap (λ a. after_sign w L b redeem texts item p a a.verdict)
                    (ap (sign w L b redeem item) replies
                      ∙ sign-accepted w L b redeem texts item key sigs n txid rest keyed signed)),
    )
