-- ===== src/Rest/Split/Endless.antt =====
-- observer/alliaob.go and rest/: the retry loop of checkEvents against the server of the signer.
use btc_vendor_tools.Base.{
  ℕ, zero, suc, ◌≡◌, refl, ap, ◌∙◌, false, List, [], ◌∷◌, replicate, Result, ok, err, panic, IsErr,
}
use btc_vendor_tools.Std.Binary.{Bytes}
use btc_vendor_tools.Wire.{Wire}
use btc_vendor_tools.LevelDb.{LevelDb}
use btc_vendor_tools.Btc.{Btc}
use btc_vendor_tools.Run.{Run, finished, ◌>>=◌, >>=-eq-finished, finished_pair}
use btc_vendor_tools.Observer.Client.{Answer, check_answer, Sending, send_loop}
use btc_vendor_tools.Rest.Service.{Poly, Texts}
use btc_vendor_tools.Rest.Router.{Router}
use btc_vendor_tools.Rest.Server.{serve_http, Handler}
use btc_vendor_tools.Rest.Split.{answer_of, post_of}
use btc_vendor_tools.Rest.Split.Refusals.{serve_http-refused}

unended : Bytes → Sending → Sending
unended req s = record { ended = s.ended; posted = req ∷ s.posted; answers = s.answers }

send_loop-refused :
    (req : Bytes) (a : Answer) (rest : List Answer)
    → IsErr (check_answer a)
    → send_loop req (a ∷ rest) ≡ unended req (send_loop req rest)
unfolding send_loop unended
send_loop-refused req a rest bad = on (check_answer a) refl bad
  where
    on :
        (r : Result (Unit {0}))
        → check_answer a ≡ r
        → IsErr r
        → send_loop req (a ∷ rest) ≡ unended req (send_loop req rest)
    on (ok u) e bad = absurd bad
    on (err x) e bad = rw (e, send_loop) refl
    on panic e bad = absurd bad

module _ (w : Wire) (L : LevelDb) (b : Btc) (redeem : Bytes) (texts : Texts)
    (router : Router Handler) (host : Bytes) where
  -- The answers to one request that is posted a number of times.
  unfoldable pub posts : Bytes → ℕ → Poly → Run (List Answer × Poly)
  posts req zero p = finished ([], p)
  posts req (suc n) p = do
    (served, p1) ← serve_http w L b redeem texts router (post_of host req) p
    (rest, p2) ← posts req n p1
    finished (answer_of served ∷ rest, p2)

  posts-unended :
      (req : Bytes) (n : ℕ) (p p' : Poly) (answers : List Answer)
      → posts req n p ≡ finished (answers, p')
      → send_loop req answers ≡ record { ended = false; posted = replicate n req; answers = [] }
  unfolding posts unended send_loop
  posts-unended req zero p p' answers e = ap (send_loop req) (finished_pair e).0
  posts-unended req (suc n) p p' answers e =
      let ((served, p1), first, e1) =
        >>=-eq-finished (serve_http w L b redeem texts router (post_of host req) p) _ e in
      let ((rest, p2), more, e2) = >>=-eq-finished (posts req n p1) _ e1 in
      ap (send_loop req) (finished_pair e2).0
      ∙ send_loop-refused req (answer_of served) rest
          (serve_http-refused w L b redeem texts router (post_of host req) p p1 served first)
      ∙ ap (unended req) (posts-unended req n p1 p2 rest more)

-- Against the server of the signer the loop around SendToSign does not end: however often it posts
-- the request, and whatever Poly replied, it is left about to post it once more.
pub send_loop-posts :
    (w : Wire) (L : LevelDb) (b : Btc) (redeem : Bytes) (texts : Texts) (router : Router Handler)
    (host req : Bytes) (n : ℕ) (p p' : Poly) (answers : List Answer)
    → posts w L b redeem texts router host req n p ≡ finished (answers, p')
    → send_loop req answers ≡ record { ended = false; posted = replicate n req; answers = [] }
send_loop-posts w L b redeem texts router host req n p p' answers e =
    posts-unended w L b redeem texts router host req n p p' answers e
