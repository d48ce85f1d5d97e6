-- ===== src/Std/Decimal.antt =====
-- strconv.FormatUint and strconv.ParseUint in base 10, and strings.TrimFunc over blanks.
use native.Mathlib.Nat.{pow-suc}
use btc_vendor_tools.Base.{
  length, length-append, ℕ, zero, suc, ◌+◌, ◌-◌, ◌*◌, ◌/◌, ◌%◌, ◌^◌, ◌<◌, ◌≤◌, ◌≡◌, refl, ap, ◌∙◌,
  Bool, true, false, [], ◌∷◌, ◌++◌, reverse, arith, ltb, leb, ◌==◌, if◌then◌else◌, ◌&&◌, ◌||◌, All,
  All-append, Result, ok, err, syntax, out_of_range, ◌>>=◌, Bool-cases, inl, inr,
}
use btc_vendor_tools.Std.Binary.{Bytes}
use mathlib.Core.List.{reverse-reverse, reverse-cons}

-- One digit a round; 20 rounds are enough below 10 ^ 20, so for every uint64.
format_loop : ℕ → ℕ → Bytes
format_loop zero v = []
format_loop (suc f) v =
    let high = format_loop f (v / 10) in
    if ltb v 10 then (v + 48) ∷ [] else high ++ ((v % 10 + 48) ∷ [])

-- `strconv.FormatUint(v, 10)`.
unfoldable pub format_uint : ℕ → Bytes
unfolding format_loop
format_uint v = format_loop 20 v

is_digit : ℕ → Bool
is_digit c = leb 48 c && leb c 57

-- The loop of ParseUint. Its tests for an overflow of uint64 and for a value above `max` amount to
-- one, since `max` is below 2 ^ 64.
unfoldable pub parse_loop : ℕ → ℕ → Bytes → Result ℕ
unfolding is_digit
parse_loop max n [] = ok n
parse_loop max n (c ∷ cs) =
    let rest = parse_loop max (n * 10 + (c - 48)) cs in
    if is_digit c
    then (if ltb max (n * 10 + (c - 48)) then err out_of_range else rest)
    else err syntax

-- `strconv.ParseUint(s, 10, bits)`.
unfoldable pub parse_uint : ℕ → Bytes → Result ℕ
unfolding parse_loop
parse_uint bits s = if length s == 0 then err syntax else parse_loop (2 ^ bits - 1) 0 s

abbrev pub is_blank : ℕ → Bool
is_blank c = c == 32 || c == 10

trim_left : Bytes → Bytes
trim_left [] = []
trim_left (c ∷ cs) = let rest = trim_left cs in if is_blank c then rest else c ∷ cs

-- `strings.TrimFunc(s, …)` with the blanks ' ' and '\n'.
unfoldable pub trim : Bytes → Bytes
unfolding trim_left
trim s = reverse (trim_left (reverse (trim_left s)))

parse_loop-append :
    (max n : ℕ) (xs ys : Bytes)
    → parse_loop max n (xs ++ ys) ≡ (parse_loop max n xs >>= λ m. parse_loop max m ys)
unfolding parse_loop
parse_loop-append max n [] ys = refl
parse_loop-append max n (x ∷ xs) ys =
    ground (arith, parse_loop-append max (n * 10 + (x - 48)) xs ys)

parse_loop-digit :
    (max n d : ℕ) → d < 10 → n * 10 + d ≤ max → parse_loop max n ((d + 48) ∷ []) ≡ ok (n * 10 + d)
unfolding parse_loop
parse_loop-digit max n d h le = ground arith

at_least_one : (f : ℕ) {v : ℕ} → 10 ≤ v → v / 10 < 10 ^ f → 0 < f
at_least_one zero h more = absurd (omega arith)
at_least_one (suc f) h more = omega arith

parse_loop-format_loop :
    (f v max : ℕ) → 0 < f → v < 10 ^ f → v ≤ max → parse_loop max 0 (format_loop f v) ≡ ok v
unfolding format_loop
parse_loop-format_loop zero v max pos h le = absurd (omega arith)
parse_loop-format_loop (suc f) v max pos h le = elim (Bool-cases (ltb v 10)) [
  | inl small ↦
      rw small
        (parse_loop-digit max 0 v (ground arith) (omega arith) ∙ ap (λ (t : ℕ). ok t) (omega arith))
  | inr large ↦
      let more : v / 10 < 10 ^ f = omega (arith, pow-suc 10 f) in
      let again : 0 < f = at_least_one f (ground arith) more in
      rw large (
        parse_loop-append max 0 (format_loop f (v / 10)) ((v % 10 + 48) ∷ [])
        ∙ rw (parse_loop-format_loop f (v / 10) max again more (omega arith)) (
            parse_loop-digit max (v / 10) (v % 10) (omega arith) (omega arith)
            ∙ ap (λ (t : ℕ). ok t) (omega arith)))
]

-- A text without blanks at its ends.
abbrev IsPlain : Bytes → Type 0
IsPlain = All (λ c. is_blank c ≡ false)

format_loop-IsPlain : (f v : ℕ) → IsPlain (format_loop f v)
unfolding format_loop
format_loop-IsPlain zero v = tt
format_loop-IsPlain (suc f) v = elim (Bool-cases (ltb v 10)) [
  | inl small ↦ rw small (ground arith)
  | inr large ↦ rw large (
      All-append (λ c. is_blank c ≡ false) (format_loop f (v / 10)) ((v % 10 + 48) ∷ [])
        (format_loop-IsPlain f (v / 10)) (ground arith))
]

trim_left-IsPlain : (s : Bytes) → IsPlain s → trim_left s ≡ s
unfolding trim_left
trim_left-IsPlain [] h = refl
trim_left-IsPlain (c ∷ s) h = ground (arith, h.0)

reverse-IsPlain : (s : Bytes) → IsPlain s → IsPlain (reverse s)
reverse-IsPlain [] h = tt
reverse-IsPlain (c ∷ s) h =
    rw (reverse-cons c s)
      (All-append (λ c. is_blank c ≡ false) (reverse s) (c ∷ []) (reverse-IsPlain s h.1) (h.0, tt))

trim-IsPlain : (s : Bytes) → IsPlain s → trim s ≡ s
unfolding trim
trim-IsPlain s h =
    rw (trim_left-IsPlain s h)
      (rw (trim_left-IsPlain (reverse s) (reverse-IsPlain s h)) (reverse-reverse s))

format_loop-pos : (f v : ℕ) → 0 < length (format_loop (suc f) v)
unfolding format_loop
format_loop-pos f v = elim (Bool-cases (ltb v 10)) [
  | inl small ↦ rw small (omega arith)
  | inr large ↦
      rw large (omega (arith, length-append (format_loop f (v / 10)) ((v % 10 + 48) ∷ [])))
]

-- What FormatUint writes, ParseUint reads, also with blanks trimmed.
pub parse_uint-format_uint :
    (bits v : ℕ) → v < 2 ^ bits → v < 10 ^ 20 → parse_uint bits (trim (format_uint v)) ≡ ok v
parse_uint-format_uint bits v h fits =
    unfold format_uint in
    rw (trim-IsPlain (format_loop 20 v) (format_loop-IsPlain 20 v)) (
      unfold parse_uint in
      rw some_digit (parse_loop-format_loop 20 v (2 ^ bits - 1) (omega arith) fits (omega arith)))
  where
    some_digit : (length (format_loop 20 v) == 0) ≡ false
    some_digit = let p = format_loop-pos 19 v in ground arith

pub trim-format_uint : (v : ℕ) → trim (format_uint v) ≡ format_uint v
unfolding format_uint
trim-format_uint v = trim-IsPlain (format_loop 20 v) (format_loop-IsPlain 20 v)

pub parse_uint-format_uint_plain :
    (bits v : ℕ) → v < 2 ^ bits → v < 10 ^ 20 → parse_uint bits (format_uint v) ≡ ok v
parse_uint-format_uint_plain bits v h fits =
    rw (trim-format_uint v) at (parse_uint-format_uint bits v h fits)

-- A text that begins with a digit.
abbrev pub IsNumeral : Bytes → Type 0
IsNumeral [] = ⊥
IsNumeral (c ∷ cs) = (48 ≤ c) × (c < 58)

append-IsNumeral : (s t : Bytes) → IsNumeral s → IsNumeral (s ++ t)
append-IsNumeral [] t h = absurd h
append-IsNumeral (c ∷ cs) t h = h

format_loop-IsNumeral : (f v : ℕ) → v < 10 ^ suc f → IsNumeral (format_loop (suc f) v)
unfolding format_loop
format_loop-IsNumeral zero v fits =
    let small : ltb v 10 ≡ true = ground arith in rw small (omega arith, omega arith)
format_loop-IsNumeral (suc f) v fits = elim (Bool-cases (ltb v 10)) [
  | inl small ↦ rw small (ground arith)
  | inr large ↦ rw large (
      append-IsNumeral (format_loop (suc f) (v / 10)) ((v % 10 + 48) ∷ [])
        (format_loop-IsNumeral f (v / 10) (omega (arith, pow-suc 10 (suc f)))))
]

pub format_uint-IsNumeral : (v : ℕ) → v < 10 ^ 20 → IsNumeral (format_uint v)
unfolding format_uint
format_uint-IsNumeral v fits = format_loop-IsNumeral 19 v fits
