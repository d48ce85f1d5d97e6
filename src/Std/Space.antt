-- ===== src/Std/Space.antt =====
-- strings.TrimSpace, on the bytes of a text in UTF-8.
use mathlib.Core.List.{reverse-append, reverse-reverse, reverse-cons}
use btc_vendor_tools.Base.{
  ℕ, zero, suc, ◌-◌, ◌≤◌, ◌<◌, ◌≡◌, refl, ap, sym, ◌∙◌, Bool, true, ◌&&◌, ◌||◌, [], ◌∷◌, ◌++◌,
  reverse, append-nil, arith, leb, ◌==◌, if◌then◌else◌, All, All-append,
}
use btc_vendor_tools.Std.Binary.{Bytes}

-- '\t', '\n', '\v', '\f', '\r' and ' '.
abbrev pub is_ascii_space : ℕ → Bool
is_ascii_space c = c == 32 || leb 9 c && leb c 13

-- The third byte of U+2000 to U+200A, U+2028, U+2029 and U+202F.
abbrev is_general_space : ℕ → Bool
is_general_space c = leb 128 c && leb c 138 || c == 168 || c == 169 || c == 175

-- U+0085 and U+00A0.
abbrev is_two : ℕ → ℕ → Bool
is_two a b = a == 194 && (b == 133 || b == 160)

-- U+1680, the general spaces, U+205F and U+3000.
abbrev is_three : ℕ → ℕ → ℕ → Bool
is_three a b c =
    a == 225 && b == 154 && c == 128
    || a == 226 && b == 128 && is_general_space c
    || a == 226 && b == 129 && c == 159
    || a == 227 && b == 128 && c == 128

-- The bytes of the space that a text begins with, and of the one that it ends with when its bytes
-- stand in reverse; 0 if it is no space.
abbrev pub space_at : Bytes → ℕ
space_at [] = 0
space_at (a ∷ []) = if is_ascii_space a then 1 else 0
space_at (a ∷ b ∷ []) = if is_ascii_space a then 1 else if is_two a b then 2 else 0
space_at (a ∷ b ∷ c ∷ rest) =
    if is_ascii_space a then 1 else if is_two a b then 2 else if is_three a b c then 3 else 0

abbrev pub last_space_at : Bytes → ℕ
last_space_at [] = 0
last_space_at (a ∷ []) = if is_ascii_space a then 1 else 0
last_space_at (b ∷ a ∷ []) = if is_ascii_space b then 1 else if is_two a b then 2 else 0
last_space_at (c ∷ b ∷ a ∷ rest) =
    if is_ascii_space c then 1 else if is_two b c then 2 else if is_three a b c then 3 else 0

-- Drops spaces, behind the bytes of one that it still has to drop.
unfoldable pub skip : (Bytes → ℕ) → ℕ → Bytes → Bytes
skip size k [] = []
skip size (suc k) (c ∷ cs) = skip size k cs
skip size zero (c ∷ cs) =
    let n = size (c ∷ cs) in let rest = skip size (n - 1) cs in if n == 0 then c ∷ cs else rest

unfoldable pub trim_space : Bytes → Bytes
unfolding skip
trim_space s = reverse (skip last_space_at 0 (reverse (skip space_at 0 s)))

-- An ASCII character that is no space and no control character.
abbrev pub IsText : ℕ → Type 0
IsText c = (33 ≤ c) × (c < 128)

abbrev IsSpace : ℕ → Type 0
IsSpace c = is_ascii_space c ≡ true

-- A way to find spaces that knows those of ASCII, and finds none at a text.
record Finds (size : Bytes → ℕ) : Type 0 where
  space : (c : ℕ) (cs : Bytes) → is_ascii_space c ≡ true → size (c ∷ cs) ≡ 1
  text : (c : ℕ) (cs : Bytes) → IsText c → size (c ∷ cs) ≡ 0

space_at-Finds : Finds space_at
space_at-Finds = record { space = λ c cs h. at_space c cs h; text = λ c cs h. at_text c cs h }
  where
    at_space : (c : ℕ) (cs : Bytes) → is_ascii_space c ≡ true → space_at (c ∷ cs) ≡ 1
    at_space c [] h = rw h
    at_space c (b ∷ []) h = rw h
    at_space c (b ∷ a ∷ cs) h = rw h

    at_text : (c : ℕ) (cs : Bytes) → IsText c → space_at (c ∷ cs) ≡ 0
    at_text c [] h = ground arith
    at_text c (b ∷ []) h = ground arith
    at_text c (b ∷ a ∷ cs) h = ground arith

last_space_at-Finds : Finds last_space_at
last_space_at-Finds = record { space = λ c cs h. at_space c cs h; text = λ c cs h. at_text c cs h }
  where
    at_space : (c : ℕ) (cs : Bytes) → is_ascii_space c ≡ true → last_space_at (c ∷ cs) ≡ 1
    at_space c [] h = rw h
    at_space c (b ∷ []) h = rw h
    at_space c (b ∷ a ∷ cs) h = rw h

    at_text : (c : ℕ) (cs : Bytes) → IsText c → last_space_at (c ∷ cs) ≡ 0
    at_text c [] h = ground arith
    at_text c (b ∷ []) h = ground arith
    at_text c (b ∷ a ∷ cs) h = ground arith

module _ (size : Bytes → ℕ) (finds : Finds size) where
  skip-spaces : (sp t : Bytes) → All IsSpace sp → skip size 0 (sp ++ t) ≡ skip size 0 t
  unfolding skip
  skip-spaces [] t h = refl
  skip-spaces (c ∷ sp) t h = rw (finds.space c (sp ++ t) h.0) (skip-spaces sp t h.1)

  skip-text : (s : Bytes) → All IsText s → skip size 0 s ≡ s
  unfolding skip
  skip-text [] h = refl
  skip-text (c ∷ s) h = rw (finds.text c s h.0) refl

All-reverse : (P : ℕ → Type 0) (s : Bytes) → All P s → All P (reverse s)
All-reverse P [] h = tt
All-reverse P (c ∷ s) h =
    rw (reverse-cons c s) (All-append P (reverse s) (c ∷ []) (All-reverse P s h.1) (h.0, tt))

skip-only_spaces : (sp : Bytes) → All IsSpace sp → skip space_at 0 sp ≡ []
skip-only_spaces sp h =
    ap (skip space_at 0) (sym (append-nil sp))
    ∙ skip-spaces space_at space_at-Finds sp [] h
    ∙ skip-text space_at space_at-Finds [] tt

-- Blanks around a text go, and the text stays.
pub trim_space-text :
    (before after s : Bytes)
    → All (λ c. is_ascii_space c ≡ true) before
    → All (λ c. is_ascii_space c ≡ true) after
    → All IsText s
    → trim_space (before ++ (s ++ after)) ≡ s
unfolding trim_space
trim_space-text before after [] hb ha hs =
    let none_left : skip space_at 0 (before ++ after) ≡ [] =
      skip-spaces space_at space_at-Finds before after hb ∙ skip-only_spaces after ha in
    rw none_left refl
trim_space-text before after (c ∷ s) hb ha hs =
    let left : skip space_at 0 (before ++ (c ∷ s ++ after)) ≡ c ∷ s ++ after =
      skip-spaces space_at space_at-Finds before (c ∷ s ++ after) hb
      ∙ unfold skip in rw (space_at-Finds.text c (s ++ after) hs.0) refl in
    let right : skip last_space_at 0 (reverse (c ∷ s ++ after)) ≡ reverse (c ∷ s) =
      ap (skip last_space_at 0) (reverse-append (c ∷ s) after)
      ∙ skip-spaces last_space_at last_space_at-Finds (reverse after) (reverse (c ∷ s))
          (All-reverse IsSpace after ha)
      ∙ skip-text last_space_at last_space_at-Finds (reverse (c ∷ s))
          (All-reverse IsText (c ∷ s) hs) in
    rw left (rw right (reverse-reverse (c ∷ s)))
