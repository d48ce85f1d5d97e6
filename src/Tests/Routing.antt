-- ===== src/Tests/Routing.antt =====
-- The Router at concrete inputs.
use btc_vendor_tools.Base.{ℕ, ◌≡◌, ◌≢◌, ◌⊎◌, bytes_eq, refl, List, [], ◌∷◌, some}
use btc_vendor_tools.Std.Binary.{Bytes}
use btc_vendor_tools.Std.Text.{codes}
use btc_vendor_tools.Rest.Router.{
  Piece, param, char, is_word, split_word, compile, names, words, match_path, parse_params,
  set_param, Route, try_routes,
}
use btc_vendor_tools.Rest.Router.Matching.{Fills, Separated, try_routes-Fills}

abbrev pieces : List Piece
pieces =
    char b'/' ∷ param (codes "id") ∷ char b'/' ∷ char b':' ∷ char b'-' ∷ param (codes "n_2") ∷ []

compiled : compile (codes "/:id/:-:n_2") ≡ pieces
unfolding compile split_word is_word
compiled = refl

-- A group gives back what the rest of the expression needs.
given_back :
    match_path (param (codes "a") ∷ param (codes "b") ∷ []) (codes "xyz")
    ≡ some (codes "xy" ∷ codes "z" ∷ [])
unfolding match_path words is_word
given_back = refl

-- A name that occurs twice has its last value.
twice :
    parse_params (codes "a" ∷ codes "a" ∷ []) (codes "x" ∷ codes "y" ∷ []) []
    ≡ (codes "a", codes "y") ∷ []
unfolding parse_params set_param bytes_eq
twice = refl

abbrev route : Route ℕ
route = record { method = codes "GET"; path = pieces; handler = 7 }

pieces-Separated : Separated pieces
unfolding is_word
pieces-Separated = (refl, (tt, tt))

abbrev asked : Bytes
asked = codes "/b7/:-x"

try_routes-Fills_example :
    ((vs : List Bytes) × (codes "GET" ≡ codes "GET")
      × Fills pieces vs asked
      × ((others : List Bytes) → Fills pieces others asked → others ≡ vs)
      × (try_routes ℕ asked (codes "GET") (route ∷ [])
          ≡ some (7, parse_params (names pieces) vs [])))
    ⊎ (((codes "GET" ≢ codes "GET") ⊎ ((vs : List Bytes) → ¬ Fills pieces vs asked))
        × (try_routes ℕ asked (codes "GET") (route ∷ []) ≡ try_routes ℕ asked (codes "GET") []))
try_routes-Fills_example = try_routes-Fills ℕ route [] asked (codes "GET") pieces-Separated

tried :
    try_routes ℕ asked (codes "GET") (route ∷ [])
    ≡ some (7, (codes "id", codes "b7") ∷ (codes "n_2", codes "x") ∷ [])
unfolding try_routes match_path words is_word parse_params set_param bytes_eq
tried = refl
