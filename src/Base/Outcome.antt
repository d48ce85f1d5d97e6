-- ===== src/Base/Outcome.antt =====
-- How a Go function ends: with a value, with a non-nil error, or by a run-time panic.
use mathlib.Core.Path.{◌≡◌, refl}
use mathlib.Core.Logic.{◌⊎◌, inl, inr}

pub data Error : Type 0 where
  eof unexpected_eof : Error
  odd_length bad_char : Error
  syntax out_of_range : Error
  no_data bad_version bad_length bad_zone : Error
  bad_input_class sign_failed : Error
  bad_tx not_found storage : Error
  post_err refused : Error
  bad_params bad_response : Error

pub data Result {u} (X : Type u) : Type u where
  panic : Result X
  err : Error → Result X
  ok : X → Result X

-- `if err != nil { return err }` before what uses the value.
abbrev pub ◌>>=◌ {u v} : {X : Type u} {Y : Type v} → Result X → (X → Result Y) → Result Y
panic >>= next = panic
err why >>= next = err why
ok x >>= next = next x

abbrev pub ◌>>◌ {u} : {Y : Type u} → Result (Unit {0}) → Result Y → Result Y
first >> second = first >>= λ done. second

infixl 5 ◌>>◌ ◌>>=◌
-- What a chain that succeeds says of its first call.
pub >>=-eq-ok {u v} :
    {X : Type u} {Y : Type v} (first : Result X) (next : X → Result Y) {y : Y}
    → (first >>= next) ≡ ok y
    → (x : X) × (first ≡ ok x) × (next x ≡ ok y)
>>=-eq-ok panic next e = cc
>>=-eq-ok (err why) next e = cc
>>=-eq-ok (ok x) next e = (x, refl, e)

abbrev pub IsErr {ℓ} : {A : Type ℓ} → Result A → Type 0
IsErr (ok a) = ⊥
IsErr (err e) = Unit
IsErr panic = ⊥

pub IsErr-inverts {ℓ} : {A : Type ℓ} (r : Result A) → IsErr r → (e : Error) × (r ≡ err e)
IsErr-inverts (ok a) bad = absurd bad
IsErr-inverts (err e) bad = (e, refl)
IsErr-inverts panic bad = absurd bad

-- To split on how a computed call ends and keep the equation.
pub Result-cases {ℓ} :
    {A : Type ℓ} (r : Result A)
    → ((a : A) × (r ≡ ok a)) ⊎ (((e : Error) × (r ≡ err e)) ⊎ (r ≡ panic))
Result-cases (ok a) = inl (a, refl)
Result-cases (err e) = inr (inl (e, refl))
Result-cases panic = inr (inr refl)
