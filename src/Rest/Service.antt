-- ===== src/Rest/Service.antt =====
-- rest/service/handlers.go: Service.SignTx.
use btc_vendor_tools.Base.{ℕ, List, [], ◌++◌, Error, Result, ok, err, panic}
use btc_vendor_tools.Std.Binary.{Bytes}
use btc_vendor_tools.Std.Hex.{hex_decode}
use btc_vendor_tools.Std.Text.{codes}
use btc_vendor_tools.Wire.{Wire}
use btc_vendor_tools.LevelDb.{LevelDb}
use btc_vendor_tools.Btc.{Btc}
use btc_vendor_tools.Run.{Run, finished}
use btc_vendor_tools.Utils.ToSign.{ToSignItem, deserialize}
use btc_vendor_tools.Signer.{Reply, Submission, Attempt, Verdict, done, failed, sign}
use btc_vendor_tools.Rest.{
  Response, Field, parse_params, refactor_resp, action_signtx, success, invalid_params,
  illegal_dataformat, internal_error,
}

-- What the signer's calls of Poly change: the calls made, and the replies to come.
pub record Poly : Type 0 where
  pub calls : List Submission
  pub replies : List Reply

-- The texts of errors, which only the log and the field desc show.
pub record Texts : Type 0 where
  pub of_error : Error → Bytes
  pub of_sign : ToSignItem → Bytes

module _ (w : Wire) (L : LevelDb) (b : Btc) (redeem : Bytes) (texts : Texts) where
  abbrev pub failure : ℕ → Bytes → Response
  failure code desc =
      refactor_resp (record { action = action_signtx; desc = desc; error = code }) code

  abbrev pub signed : Response
  signed = refactor_resp (record { action = action_signtx; desc = []; error = success }) success

  -- The answer to how Sign ended, with the calls that it made.
  abbrev pub after_sign : ToSignItem → Poly → Attempt → Verdict → Run (Response × Poly)
  after_sign item p a (done txid) =
      finished (signed, record { calls = p.calls ++ a.calls; replies = a.replies })
  after_sign item p a failed = finished (
    failure internal_error (codes "[Rest] SignTx: sign failed, err: " ++ texts.of_sign item),
    record { calls = p.calls ++ a.calls; replies = a.replies },
  )
  after_sign item p a Verdict.waiting = Run.waiting
  after_sign item p a Verdict.crashed = Run.crashed

  abbrev pub sign_item : Poly → Result ToSignItem → Run (Response × Poly)
  sign_item p (ok item) = let a = sign w L b redeem item p.replies in after_sign item p a a.verdict
  sign_item p (err e) = finished (
    failure illegal_dataformat
        (codes "[Rest] SignTx: deserialize failed, err: " ++ texts.of_error e),
    p,
  )
  sign_item p panic = Run.crashed

  abbrev pub sign_raw : Poly → Result Bytes → Run (Response × Poly)
  sign_raw p (ok raw) = sign_item p (deserialize w raw)
  sign_raw p (err e) =
      finished (
        failure illegal_dataformat (codes "SignTx: decode raw failed, err: " ++ texts.of_error e),
        p,
      )
  sign_raw p panic = Run.crashed

  abbrev pub sign_params : Poly → Result Bytes → Run (Response × Poly)
  sign_params p (ok raw) = sign_raw p (hex_decode raw)
  sign_params p (err e) =
      finished (
        failure invalid_params (codes "SignTx: decode params failed, err: " ++ texts.of_error e),
        p,
      )
  sign_params p panic = Run.crashed

  unfoldable pub sign_tx : Field → Poly → Run (Response × Poly)
  sign_tx params p = sign_params p (parse_params params)
