-- ===== src/Rest.antt =====
-- rest/http/common/common.go, rest/http/restful/error.go and resp_utils.go, and rest/utils/utils.go.
-- The result of a Response is always nil or empty here and left out.
pub mod Service
pub mod Router
pub mod Server
pub mod Split
pub mod Spv
pub mod Client
use btc_vendor_tools.Base.{ℕ, List, [], ◌∷◌, Error, bad_params, Result, ok, err}
use btc_vendor_tools.Std.Binary.{Bytes}
use btc_vendor_tools.Std.Text.{codes}

-- common.go.
abbrev pub signtx : Bytes
signtx = codes "/api/v1/signtx"

abbrev pub action_signtx : Bytes
action_signtx = codes "signtx"

pub record Response : Type 0 where
  pub action : Bytes
  pub desc : Bytes
  pub error : ℕ

-- error.go.
abbrev pub success : ℕ
success = 0

abbrev pub invalid_method : ℕ
invalid_method = 42001

abbrev pub invalid_params : ℕ
invalid_params = 42002

abbrev pub illegal_dataformat : ℕ
illegal_dataformat = 42003

abbrev pub internal_error : ℕ
internal_error = 42004

-- What encoding/json finds for the field raw of a SignItemReq in the params: no such field or null,
-- a string, or anything else.
pub data Field : Type 0 where
  absent : Field
  text : Bytes → Field
  mistyped : Field

-- ParseParams of a SignItemReq, with its field Raw.
abbrev pub parse_params : Field → Result Bytes
parse_params absent = ok []
parse_params (text raw) = ok raw
parse_params mistyped = err bad_params

-- RefactorResp, for a Response, which encoding/json takes to a map and back.
abbrev pub refactor_resp : Response → ℕ → Response
refactor_resp resp err_code = record resp { error = err_code }

abbrev pub pack_response : ℕ → Response
pack_response err_code = record { action = []; desc = []; error = err_code }
