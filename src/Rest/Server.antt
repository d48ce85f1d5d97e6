-- ===== src/Rest/Server.antt =====
-- rest/http/restful/router.go and restful_server.go: the Router, and the handlers of restServer.
use btc_vendor_tools.Base.{
  ℕ, ◌==◌, Result, ok, ◌>>◌, List, [], ◌∷◌, Option, none, some, bytes_eq, if◌then◌else◌,
}
use btc_vendor_tools.Std.Binary.{Bytes}
use btc_vendor_tools.Wire.{Wire}
use btc_vendor_tools.LevelDb.{LevelDb}
use btc_vendor_tools.Btc.{Btc}
use btc_vendor_tools.Run.{Run, finished, crashed, ◌>>=◌}
use btc_vendor_tools.Rest.{
  Response, Field, pack_response, signtx, action_signtx, illegal_dataformat, invalid_method,
}
use btc_vendor_tools.Rest.Router
use btc_vendor_tools.Rest.Router.{Router, ParamsMap, try_routes}
use btc_vendor_tools.Rest.Service.{Poly, Texts, sign_tx}

-- The handlers of initGetHandler and initPostHandler.
pub data Handler : Type 0 where
  get_handler post_handler options_handler : Handler

-- postMap, by its paths, and getMap.
abbrev post_map : List Bytes
post_map = signtx ∷ []

abbrev get_map : List Bytes
get_map = []

-- A loop over a map that registers its paths.
unfoldable pub register :
    (Bytes → Router Handler → Router Handler) → List Bytes → Router Handler → Router Handler
register f [] r = r
register f (path ∷ paths) r = register f paths (f path r)

-- InitRestServer: its router, once the actions are registered. The handler of a GET has no path.
unfoldable pub init_rest_server : Bytes → Router Handler
unfolding register Router.add
init_rest_server cli_addr =
    register (λ path. Router.options Handler path options_handler) post_map
      (register (λ path. Router.post Handler path post_handler) post_map
        (register (λ path. Router.get Handler path get_handler) get_map
          (Router.new_router Handler cli_addr)))

-- Start, with what net.Listen and Serve return. A port that is not configured is no error.
unfoldable pub start : (port : ℕ) (listen serve : Result (Unit {0})) → Result (Unit {0})
start port listen serve = let served = listen >> serve in if port == 0 then ok tt else served

-- What json.Unmarshal makes of a body for a map: an error, the nil map, or the params.
pub data Body : Type 0 where
  bad_json null_json : Body
  params : Field → Body

-- The parts of a request that the server reads.
pub record Request : Type 0 where
  pub host : Bytes
  pub method : Bytes
  pub path : Bytes
  pub body : Body

-- What is written: nothing at all, the error of http.NotFound, an empty body with the headers, or a
-- Response.
pub data Served : Type 0 where
  silent not_found no_body : Served
  answered : Response → Served

module _ (w : Wire) (L : LevelDb) (b : Btc) (redeem : Bytes) (texts : Texts) where
  abbrev pub with_action : Bytes → Response × Poly → Run (Served × Poly)
  with_action name (resp, p) = finished (answered (record resp { action = name }), p)

  -- `req["host"] = …` on the nil map is a panic.
  abbrev pub post_body : Body → Poly → Run (Served × Poly)
  post_body bad_json p = with_action action_signtx (pack_response illegal_dataformat, p)
  post_body null_json p = crashed
  post_body (params fields) p = do
    (resp, p') ← sign_tx w L b redeem texts fields p
    with_action action_signtx (resp, p')

  -- The handler of initPostHandler; the name of an Action that is not in postMap is empty.
  unfoldable pub post : Request → Poly → Run (Served × Poly)
  post req p =
      if bytes_eq req.path signtx
      then post_body req.body p
      else with_action [] (pack_response invalid_method, p)

  -- The handler of initGetHandler: getMap is empty, so no path is in it.
  abbrev pub get : Poly → Run (Served × Poly)
  get p = with_action [] (pack_response invalid_method, p)

  abbrev pub handle : Request → Poly → Option (Handler × ParamsMap) → Run (Served × Poly)
  handle req p none = finished (not_found, p)
  handle req p (some (get_handler, values)) = get p
  handle req p (some (post_handler, values)) = post req p
  handle req p (some (options_handler, values)) = finished (no_body, p)

  -- ServeHTTP.
  unfoldable pub serve_http : Router Handler → Request → Poly → Run (Served × Poly)
  serve_http router req p =
      if bytes_eq req.host router.cli_host
      then handle req p (try_routes Handler req.path req.method router.routes)
      else finished (silent, p)
