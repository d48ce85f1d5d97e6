-- ===== src/Observer/Client.antt =====
-- observer/alliaob.go: ObCli.SendToSign and the loop that repeats it.
use btc_vendor_tools.Base.{
  ℕ, Bool, true, false, not, ◌||◌, List, [], ◌∷◌, ◌==◌, bytes_eq, if◌then◌else◌, Result, ok, err,
  panic, post_err, refused, ◌>>=◌,
}
use btc_vendor_tools.Std.Binary.{Bytes}
use btc_vendor_tools.Std.Hex.{hex_encode}
use btc_vendor_tools.Std.Text.{codes}
use btc_vendor_tools.Wire.{Wire}
use btc_vendor_tools.Utils.ToSign.{ToSignItem, serialize}

-- What comes back from a POST: nothing that can be read as a Response, or the fields of one.
pub data Answer : Type 0 where
  no_answer : Answer
  answer : ℕ → Bytes → Answer

-- The field Raw of the request.
unfoldable pub request : Wire → ToSignItem → Result Bytes
request w item = do raw ← serialize w item; ok (hex_encode raw)

-- `resp.Error != 0 || resp.Desc != "SUCCESS"`.
unfoldable pub check_answer : Answer → Result (Unit {0})
check_answer no_answer = err post_err
check_answer (answer error desc) =
    if not (error == 0) || not (bytes_eq desc (codes "SUCCESS")) then err refused else ok tt

-- SendToSign, with the answer to its POST.
unfoldable pub send_to_sign : Wire → ToSignItem → Answer → Result (Unit {0})
unfolding request check_answer
send_to_sign w item a = do req ← request w item; check_answer a

-- Whether the loop ended, what it posted, and the answers that it left.
pub record Sending : Type 0 where
  pub ended : Bool
  pub posted : List Bytes
  pub answers : List Answer

-- `RETRY:` for a request that can be built.
unfoldable pub send_loop : Bytes → List Answer → Sending
send_loop req [] = record { ended = false; posted = []; answers = [] }
send_loop req (a ∷ rest) =
    let again = send_loop req rest in
    elim (check_answer a) [
      | ok _ ↦ record { ended = true; posted = req ∷ []; answers = rest }
      | err _ ↦ record { ended = again.ended; posted = req ∷ again.posted; answers = again.answers }
      | panic ↦ record { ended = again.ended; posted = req ∷ again.posted; answers = again.answers }
    ]
