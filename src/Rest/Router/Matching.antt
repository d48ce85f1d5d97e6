-- ===== src/Rest/Router/Matching.antt =====
-- rest/http/restful/router.go: which paths a route matches, and what the groups of its regular
-- expression take.
use btc_vendor_tools.Base.{
  ℕ, ◌==◌, ◌≡◌, ◌≢◌, refl, ap, sym, ◌∙◌, ◌⊎◌, inl, inr, true, false, List, [], ◌∷◌, ◌++◌,
  append_assoc, append-nil, Option, none, some, Option-cases, Bool-cases, ==-refl, bytes_eq,
  bytes_eq_refl, eq_of_bytes_eq, All, arith,
}
use btc_vendor_tools.Std.Binary.{Bytes}
use btc_vendor_tools.Rest.Router.{
  Piece, char, param, names, parse_params, Route, try_routes, is_word, consed, or_else, stop, words,
  match_path,
}

abbrev pub AreWords : Bytes → Type 0
AreWords = All (λ c. is_word c ≡ true)

-- A path with values in place of the parameters, each of at least one word character.
pub data Fills : List Piece → List Bytes → Bytes → Type 0 where
  no_piece : Fills [] [] []
  same_char :
      (c : ℕ) {ps : List Piece} {vs : List Bytes} {s : Bytes}
      → Fills ps vs s
      → Fills (char c ∷ ps) vs (c ∷ s)
  value :
      (name : Bytes) (c : ℕ) (cs : Bytes) {ps : List Piece} {vs : List Bytes} {s : Bytes}
      → AreWords (c ∷ cs)
      → Fills ps vs s
      → Fills (param name ∷ ps) ((c ∷ cs) ∷ vs) (c ∷ (cs ++ s))

-- The path goes on behind a parameter with something else than a word character.
abbrev EndsWord : List Piece → Type 0
EndsWord [] = Unit {0}
EndsWord (char c ∷ ps) = is_word c ≡ false
EndsWord (param name ∷ ps) = ⊥

abbrev pub Separated : List Piece → Type 0
Separated [] = Unit {0}
Separated (char c ∷ ps) = Separated ps
Separated (param name ∷ ps) = EndsWord ps × Separated ps

abbrev Next : Type 0
Next = Bytes → Option (List Bytes)

some_list : {a b : List Bytes} → ◌≡◌ {A = Option (List Bytes)} (some a) (some b) → a ≡ b
some_list e = ground arith

consed-some :
    (v : Bytes) (o : Option (List Bytes)) (vs : List Bytes)
    → consed v o ≡ some vs
    → (ws : List Bytes) × (o ≡ some ws) × (vs ≡ v ∷ ws)
consed-some v none vs e = cc e
consed-some v (some ws) vs e = (ws, refl, sym (some_list e))

or_else-some :
    (o o' : Option (List Bytes)) (vs : List Bytes)
    → or_else o o' ≡ some vs
    → (o ≡ some vs) ⊎ (o' ≡ some vs)
or_else-some none o' vs e = inr e
or_else-some (some ws) o' vs e = inl e

-- What a group has taken, and what the rest of the expression makes of what is left.
Taken : Next → ℕ → Bytes → Bytes → List Bytes → Type 0
Taken k t ts s vs =
    (v : Bytes) × (rest : Bytes) × (ws : List Bytes) × AreWords v
    × (s ≡ v ++ rest)
    × (k rest ≡ some ws)
    × (vs ≡ (t ∷ (ts ++ v)) ∷ ws)

stop-Taken :
    (k : Next) (t : ℕ) (ts s : Bytes) (vs : List Bytes)
    → stop k (t ∷ ts) s ≡ some vs
    → Taken k t ts s vs
unfolding Taken
stop-Taken k t ts s vs e =
    let (ws, next, whole) = consed-some (t ∷ ts) (k s) vs e in
    ([], s, ws, tt, refl, next, whole ∙ ap (λ q. (t ∷ q) ∷ ws) (sym (append-nil ts)))

words-Taken :
    (k : Next) (t : ℕ) (ts s : Bytes) (vs : List Bytes)
    → words k (t ∷ ts) s ≡ some vs
    → Taken k t ts s vs
unfolding words Taken
words-Taken k t ts [] vs e = stop-Taken k t ts [] vs e
words-Taken k t ts (d ∷ s) vs e = elim (Bool-cases (is_word d)) [
  | inr other ↦ stop-Taken k t ts (d ∷ s) vs (rw other at e)
  | inl word ↦ elim (or_else-some (words k (t ∷ (ts ++ d ∷ [])) s) _ vs (rw word at e)) [
    | inr stopped ↦ stop-Taken k t ts (d ∷ s) vs stopped
    | inl longer ↦
        let (v, rest, ws, are, split, next, whole) = words-Taken k t (ts ++ d ∷ []) s vs longer in
        (
          d ∷ v,
          rest,
          ws,
          (word, are),
          ap (◌∷◌ d) split,
          next,
          whole ∙ ap (λ q. (t ∷ q) ∷ ws) (append_assoc ts (d ∷ []) v),
        )
  ]
]

-- What a route matches is its path, filled with what the groups take.
match_path-Fills :
    (ps : List Piece) (s : Bytes) (vs : List Bytes) → match_path ps s ≡ some vs → Fills ps vs s
unfolding match_path words Taken
match_path-Fills [] [] vs e = rw (← some_list e) no_piece
match_path-Fills [] (d ∷ s) vs e = cc e
match_path-Fills (char c ∷ ps) [] vs e = cc e
match_path-Fills (char c ∷ ps) (d ∷ s) vs e = elim (Bool-cases (c == d)) [
  | inr other ↦ cc (rw other at e)
  | inl same ↦
      let eq : c ≡ d = ground arith in
      rw (← eq) (same_char c (match_path-Fills ps s vs (rw same at e)))
]
match_path-Fills (param name ∷ ps) [] vs e = cc e
match_path-Fills (param name ∷ ps) (d ∷ s) vs e = elim (Bool-cases (is_word d)) [
  | inr other ↦ cc (rw other at e)
  | inl word ↦ elim (or_else-some (words (match_path ps) (d ∷ []) s) none vs (rw word at e)) [
    | inr never ↦ cc never
    | inl taken ↦
        let (v, rest, ws, are, split, next, whole) = words-Taken (match_path ps) d [] s vs taken in
        rw (split, whole) (value name d v (word, are) (match_path-Fills ps rest ws next))
  ]
]

-- A group that starts on a word takes all of it where what is behind is no word character.
words-append :
    (k : Next) (t : ℕ) (ts v rest : Bytes) (ws : List Bytes)
    → AreWords v
    → k rest ≡ some ws
    → ((taken : Bytes) → words k (t ∷ taken) rest ≡ stop k (t ∷ taken) rest)
    → words k (t ∷ ts) (v ++ rest) ≡ some ((t ∷ (ts ++ v)) ∷ ws)
unfolding words
words-append k t ts [] rest ws are next ends =
    ends ts ∙ rw next (ap (λ q. some ((t ∷ q) ∷ ws)) (sym (append-nil ts)))
words-append k t ts (d ∷ v) rest ws are next ends =
    let longer = words-append k t (ts ++ d ∷ []) v rest ws are.1 next ends in
    rw are.0 (
      ap (λ o. or_else o (stop k (t ∷ ts) (d ∷ (v ++ rest)))) longer
      ∙ ap (λ q. some ((t ∷ q) ∷ ws)) (append_assoc ts (d ∷ []) v))

-- Behind a parameter the path has no word character.
EndsWord-stop :
    (ps : List Piece) (vs : List Bytes) (s : Bytes) (k : Next) (t : ℕ)
    → EndsWord ps
    → Fills ps vs s
    → (taken : Bytes) → words k (t ∷ taken) s ≡ stop k (t ∷ taken) s
unfolding words
EndsWord-stop [] vs s k t ends no_piece taken = refl
EndsWord-stop (char c ∷ ps) vs s k t ends (same_char _ f) taken = rw ends refl
EndsWord-stop (param name ∷ ps) vs s k t ends f taken = absurd ends

Separated-match_path :
    (ps : List Piece) (vs : List Bytes) (s : Bytes)
    → Separated ps
    → Fills ps vs s
    → match_path ps s ≡ some vs
unfolding match_path words
Separated-match_path [] vs s sep no_piece = refl
Separated-match_path (char c ∷ ps) vs s sep (same_char _ f) =
    rw (==-refl c, Separated-match_path ps vs _ sep f) refl
Separated-match_path (param name ∷ ps) vs s sep (value _ c cs {vs = ws} {s = rest} are f) =
    let taken =
      words-append (match_path ps) c [] cs rest ws are.1 (Separated-match_path ps ws rest sep.1 f)
        (EndsWord-stop ps ws rest (match_path ps) c sep.0 f) in
    rw are.0 (ap (λ o. or_else o none) taken)

-- Where every parameter of a route ends before something else than a word character, Try either hands
-- a path over to the route: it has the method, and the path fills it with values of at least one word
-- character for the parameters, which are the only such values, and are passed on under their names.
-- Or it leaves the path to the routes behind: the route has another method, or the path does not fill it
-- with any values.
pub try_routes-Fills :
    (H : Type 0) (route : Route H) (rest : List (Route H)) (path method : Bytes)
    → Separated route.path
    → ((vs : List Bytes) × (route.method ≡ method)
        × Fills route.path vs path
        × ((others : List Bytes) → Fills route.path others path → others ≡ vs)
        × (try_routes H path method (route ∷ rest)
            ≡ some (route.handler, parse_params (names route.path) vs [])))
      ⊎ (((route.method ≢ method) ⊎ ((vs : List Bytes) → ¬ Fills route.path vs path))
          × (try_routes H path method (route ∷ rest) ≡ try_routes H path method rest))
unfolding try_routes
try_routes-Fills H route rest path method sep = elim (Bool-cases (bytes_eq route.method method)) [
  | inr differs ↦
      let different : route.method ≢ method =
        (λ same. cc (rw (same, bytes_eq_refl method) at differs)) in
      inr (inl different, rw differs refl)
  | inl same ↦ elim (Option-cases (match_path route.path path)) [
    | inl no_match ↦
        let unfilled : (vs : List Bytes) → ¬ Fills route.path vs path =
          (λ vs fills. cc (no_match, Separated-match_path route.path vs path sep fills)) in
        inr (inr unfilled, rw (same, no_match) refl)
    | inr (vs, matched) ↦
        let only : (others : List Bytes) → Fills route.path others path → others ≡ vs =
          (λ others fills.
            some_list (sym (Separated-match_path route.path others path sep fills) ∙ matched)) in
        inl (
          vs,
          eq_of_bytes_eq route.method method same,
          match_path-Fills route.path path vs matched,
          only,
          rw (same, matched) refl,
        )
  ]
]
