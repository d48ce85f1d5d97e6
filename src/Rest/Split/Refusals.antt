-- ===== src/Rest/Split/Refusals.antt =====
-- observer/alliaob.go and rest/: the responses of SignTx and the test of SendToSign on them.
use mathlib.Core.Path.{subst}
use btc_vendor_tools.Base.{
  ◌≡◌, ◌≢◌, ◌⊎◌, refl, sym, [], Option, none, some, bytes_eq, ==-no, if_cases, inl, inr, Result, ok,
  err, panic, IsErr, arith,
}
use btc_vendor_tools.Std.Binary.{Bytes}
use btc_vendor_tools.Std.Hex.{hex_decode}
use btc_vendor_tools.Wire.{Wire}
use btc_vendor_tools.LevelDb.{LevelDb}
use btc_vendor_tools.Btc.{Btc}
use btc_vendor_tools.Run.{Run, finished, >>=-eq-finished, finished_pair}
use btc_vendor_tools.Utils.ToSign.{ToSignItem, deserialize}
use btc_vendor_tools.Signer.{Attempt, Verdict, done, failed, sign}
use btc_vendor_tools.Observer.Client.{answer, check_answer}
use btc_vendor_tools.Rest.{
  Response, Field, text, absent, mistyped, pack_response, signtx, action_signtx, internal_error,
  illegal_dataformat, invalid_params, invalid_method,
}
use btc_vendor_tools.Rest.Service.{Poly, Texts, sign_tx, sign_raw, sign_item, after_sign}
use btc_vendor_tools.Rest.Router.{Router, ParamsMap, try_routes}
use btc_vendor_tools.Rest.Server.{
  Body, bad_json, null_json, params, Request, Served, answered, post_handler, options_handler,
  post_body, post, handle, serve_http, Handler, get_handler,
}
use btc_vendor_tools.Rest.Split.{answer_of}

internal_error-nonzero : internal_error ≢ 0
internal_error-nonzero = omega arith

illegal_dataformat-nonzero : illegal_dataformat ≢ 0
illegal_dataformat-nonzero = omega arith

invalid_params-nonzero : invalid_params ≢ 0
invalid_params-nonzero = omega arith

invalid_method-nonzero : invalid_method ≢ 0
invalid_method-nonzero = omega arith

-- The error is not 0, or there is no desc.
IsPlain : Response → Type 0
IsPlain resp = ((resp.error ≡ 0) × (resp.desc ≡ [])) ⊎ (resp.error ≢ 0)

IsPlain-refused :
    (resp : Response) → IsPlain resp → IsErr (check_answer (answer resp.error resp.desc))
unfolding IsPlain check_answer bytes_eq
IsPlain-refused resp (inl (zero_error, no_desc)) = rw (zero_error, no_desc) tt
IsPlain-refused resp (inr error) = rw (==-no error) tt

module _ (w : Wire) (L : LevelDb) (b : Btc) (redeem : Bytes) (texts : Texts) where
  after_sign-IsPlain :
      (item : ToSignItem) (p p' : Poly) (a : Attempt) (v : Verdict) (resp : Response)
      → after_sign w L b redeem texts item p a v ≡ finished (resp, p')
      → IsPlain resp
  unfolding IsPlain
  after_sign-IsPlain item p p' a (done txid) resp e =
      subst IsPlain (sym (finished_pair e).0) (inl (refl, refl))
  after_sign-IsPlain item p p' a failed resp e =
      subst IsPlain (sym (finished_pair e).0) (inr internal_error-nonzero)
  after_sign-IsPlain item p p' a Verdict.waiting resp e = cc
  after_sign-IsPlain item p p' a Verdict.crashed resp e = cc

  sign_item-IsPlain :
      (p p' : Poly) (r : Result ToSignItem) (resp : Response)
      → sign_item w L b redeem texts p r ≡ finished (resp, p')
      → IsPlain resp
  unfolding IsPlain
  sign_item-IsPlain p p' (ok item) resp e =
      let a = sign w L b redeem item p.replies in after_sign-IsPlain item p p' a a.verdict resp e
  sign_item-IsPlain p p' (err x) resp e =
      subst IsPlain (sym (finished_pair e).0) (inr illegal_dataformat-nonzero)
  sign_item-IsPlain p p' panic resp e = cc

  sign_raw-IsPlain :
      (p p' : Poly) (r : Result Bytes) (resp : Response)
      → sign_raw w L b redeem texts p r ≡ finished (resp, p')
      → IsPlain resp
  unfolding IsPlain
  sign_raw-IsPlain p p' (ok raw) resp e = sign_item-IsPlain p p' (deserialize w raw) resp e
  sign_raw-IsPlain p p' (err x) resp e =
      subst IsPlain (sym (finished_pair e).0) (inr illegal_dataformat-nonzero)
  sign_raw-IsPlain p p' panic resp e = cc

  sign_tx-IsPlain :
      (f : Field) (p p' : Poly) (resp : Response)
      → sign_tx w L b redeem texts f p ≡ finished (resp, p')
      → IsPlain resp
  unfolding IsPlain sign_tx
  sign_tx-IsPlain absent p p' resp e = sign_raw-IsPlain p p' (hex_decode []) resp e
  sign_tx-IsPlain (text raw) p p' resp e = sign_raw-IsPlain p p' (hex_decode raw) resp e
  sign_tx-IsPlain mistyped p p' resp e =
      subst IsPlain (sym (finished_pair e).0) (inr invalid_params-nonzero)

  -- What is written is refused by the client.
  IsRefused : Served → Type 0
  IsRefused served = IsErr (check_answer (answer_of served))

  answered-IsRefused :
      (resp : Response) (p p' : Poly) (served : Served) (name : Bytes)
      → IsPlain resp
      → ◌≡◌ {A = Run (Served × Poly)}
          (finished (answered (record resp { action = name }), p))
          (finished (served, p'))
      → IsRefused served
  unfolding IsRefused
  answered-IsRefused resp p p' served name plain e =
      subst IsRefused (sym (finished_pair e).0) (IsPlain-refused resp plain)

  post_body-IsRefused :
      (body : Body) (p p' : Poly) (served : Served)
      → post_body w L b redeem texts body p ≡ finished (served, p')
      → IsRefused served
  unfolding IsPlain
  post_body-IsRefused bad_json p p' served e =
      answered-IsRefused (pack_response illegal_dataformat) p p' served action_signtx
        (inr illegal_dataformat-nonzero) e
  post_body-IsRefused null_json p p' served e = cc
  post_body-IsRefused (params f) p p' served e =
      let ((resp, q), made, sent) = >>=-eq-finished (sign_tx w L b redeem texts f p) _ e in
      answered-IsRefused resp q p' served action_signtx (sign_tx-IsPlain f p q resp made) sent

  post-IsRefused :
      (req : Request) (p p' : Poly) (served : Served)
      → post w L b redeem texts req p ≡ finished (served, p')
      → IsRefused served
  unfolding post IsPlain
  post-IsRefused req p p' served e = elim (if_cases (bytes_eq req.path signtx) e) [
    | inl (_, sent) ↦ post_body-IsRefused req.body p p' served sent
    | inr (_, sent) ↦
        answered-IsRefused (pack_response invalid_method) p p' served []
          (inr invalid_method-nonzero) sent
  ]

  handle-IsRefused :
      (req : Request) (p p' : Poly) (served : Served) (h : Option (Handler × ParamsMap))
      → handle w L b redeem texts req p h ≡ finished (served, p')
      → IsRefused served
  unfolding IsRefused check_answer IsPlain
  handle-IsRefused req p p' served none e = subst IsRefused (sym (finished_pair e).0) tt
  handle-IsRefused req p p' served (some (get_handler, values)) e =
      answered-IsRefused (pack_response invalid_method) p p' served [] (inr invalid_method-nonzero)
        e
  handle-IsRefused req p p' served (some (post_handler, values)) e =
      post-IsRefused req p p' served e
  handle-IsRefused req p p' served (some (options_handler, values)) e =
      subst IsRefused (sym (finished_pair e).0) tt

-- Whatever the server of the signer writes to a request, SendToSign takes it for a failure: it
-- wants a desc `SUCCESS`, which no handler writes.
pub serve_http-refused :
    (w : Wire) (L : LevelDb) (b : Btc) (redeem : Bytes) (texts : Texts) (router : Router Handler)
    (req : Request) (p p' : Poly) (served : Served)
    → serve_http w L b redeem texts router req p ≡ finished (served, p')
    → IsErr (check_answer (answer_of served))
unfolding serve_http IsRefused check_answer
serve_http-refused w L b redeem texts router req p p' served e =
    elim (if_cases (bytes_eq req.host router.cli_host) e) [
      | inl (_, sent) ↦
          handle-IsRefused w L b redeem texts req p p' served
            (try_routes Handler req.path req.method router.routes) sent
      | inr (_, sent) ↦ subst (IsRefused w L b redeem texts) (sym (finished_pair sent).0) tt
    ]
