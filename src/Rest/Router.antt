-- ===== src/Rest/Router.antt =====
-- rest/http/restful/router.go: the Router. A path is made of letters that stand for themselves in a
-- regular expression, and of names of parameters behind a colon.
pub mod Matching
use btc_vendor_tools.Base.{
  ℕ, leb, ◌==◌, ◌&&◌, ◌||◌, Bool, true, false, List, [], ◌∷◌, ◌++◌, Option, none, some, bytes_eq,
  if◌then◌else◌,
}
use btc_vendor_tools.Std.Binary.{Bytes}
use btc_vendor_tools.Std.Text.{codes}

-- `\w`.
unfoldable pub is_word : ℕ → Bool
is_word c =
    (leb b'0' c && leb c b'9')
    || (leb b'A' c && leb c b'Z')
    || (leb b'a' c && leb c b'z')
    || c == b'_'

-- A part of the regular expression that `add` makes of a path: a character, or `(\w+)` in place of
-- a colon with a name.
pub data Piece : Type 0 where
  char : ℕ → Piece
  param : (name : Bytes) → Piece

-- The word characters at the start of what is parsed, and what stands behind them.
abbrev word_part : ℕ → Bytes × List Piece → List Piece → Bytes × List Piece
word_part c (name, rest) whole = if is_word c then (c ∷ name, rest) else ([], char c ∷ whole)

unfoldable pub split_word : List Piece → Bytes × List Piece
unfolding is_word
split_word [] = ([], [])
split_word (char c ∷ ps) = word_part c (split_word ps) ps
split_word (param name ∷ ps) = ([], param name ∷ ps)

-- `:(\w+)` takes all word characters behind a colon.
abbrev behind_colon : Bytes × List Piece → List Piece → List Piece
behind_colon ([], rest) whole = char b':' ∷ whole
behind_colon (c ∷ cs, rest) whole = param (c ∷ cs) ∷ rest

unfoldable pub compile : Bytes → List Piece
unfolding split_word
compile [] = []
compile (c ∷ cs) =
    let ps = compile cs in if c == b':' then behind_colon (split_word ps) ps else char c ∷ ps

abbrev pub names : List Piece → List Bytes
names [] = []
names (char c ∷ ps) = names ps
names (param name ∷ ps) = name ∷ names ps

abbrev consed : Bytes → Option (List Bytes) → Option (List Bytes)
consed v none = none
consed v (some vs) = some (v ∷ vs)

abbrev pub or_else : Option (List Bytes) → Option (List Bytes) → Option (List Bytes)
or_else none o = o
or_else (some vs) o = some vs

-- `(\w+)` ends here with what it has taken, if that is not empty, and the rest has to match.
abbrev pub stop : (Bytes → Option (List Bytes)) → Bytes → Bytes → Option (List Bytes)
stop k [] s = none
stop k (c ∷ cs) s = consed (c ∷ cs) (k s)

-- `(\w+)` takes as much as it can, and less only where the rest does not match otherwise.
unfoldable pub words : (Bytes → Option (List Bytes)) → Bytes → Bytes → Option (List Bytes)
unfolding is_word
words k taken [] = stop k taken []
words k taken (d ∷ s) =
    let longer = words k (taken ++ d ∷ []) s in
    if is_word d then or_else longer (stop k taken (d ∷ s)) else stop k taken (d ∷ s)

-- The expression between `^` and `$` against a path: what its groups take.
unfoldable pub match_path : List Piece → Bytes → Option (List Bytes)
unfolding words
match_path [] [] = some []
match_path [] (d ∷ s) = none
match_path (char c ∷ ps) [] = none
match_path (char c ∷ ps) (d ∷ s) = let rest = match_path ps s in if c == d then rest else none
match_path (param name ∷ ps) s = words (match_path ps) [] s

abbrev pub ParamsMap : Type 0
ParamsMap = List (Bytes × Bytes)

-- `params[k] = v` in a list without k twice.
unfoldable pub set_param : Bytes → Bytes → ParamsMap → ParamsMap
set_param k v [] = (k, v) ∷ []
set_param k v ((j, u) ∷ m) = if bytes_eq j k then (k, v) ∷ m else (j, u) ∷ set_param k v m

-- parseParams, over the names of the route and the values that its groups took.
unfoldable pub parse_params : List Bytes → List Bytes → ParamsMap → ParamsMap
unfolding set_param
parse_params (k ∷ ks) (v ∷ vs) m = parse_params ks vs (set_param k v m)
parse_params [] vs m = m
parse_params (k ∷ ks) [] m = m

module _ (H : Type 0) where
  pub record Route : Type 0 where
    pub method : Bytes
    pub path : List Piece
    pub handler : H

  pub record Router : Type 0 where
    pub cli_host : Bytes
    pub routes : List Route

  abbrev pub new_router : Bytes → Router
  new_router cli_host = record { cli_host = cli_host; routes = [] }

  unfoldable pub add : Bytes → Bytes → H → Router → Router
  unfolding compile
  add method path handler r = record r {
    routes = r.routes ++ record { method = method; path = compile path; handler = handler } ∷ [];
  }

  abbrev pub head : Bytes → H → Router → Router
  head = add (codes "HEAD")

  abbrev pub connect : Bytes → H → Router → Router
  connect = add (codes "CONNECT")

  abbrev pub get : Bytes → H → Router → Router
  get = add (codes "GET")

  abbrev pub post : Bytes → H → Router → Router
  post = add (codes "POST")

  abbrev pub put : Bytes → H → Router → Router
  put = add (codes "PUT")

  abbrev pub delete : Bytes → H → Router → Router
  delete = add (codes "DELETE")

  abbrev pub options : Bytes → H → Router → Router
  options = add (codes "OPTIONS")

  abbrev found : Route → Option (List Bytes) → Option (H × ParamsMap) → Option (H × ParamsMap)
  found route (some vs) later = some (route.handler, parse_params (names route.path) vs [])
  found route none later = later

  -- Try, over the routes in their order.
  unfoldable pub try_routes : Bytes → Bytes → List Route → Option (H × ParamsMap)
  unfolding match_path parse_params
  try_routes path method [] = none
  try_routes path method (route ∷ rest) =
      let later = try_routes path method rest in
      if bytes_eq route.method method then found route (match_path route.path path) later else later
