-- ===== src/Run.antt =====
-- How a run that meets answers from outside stands: it finished, or panicked, or still waits for one.
use btc_vendor_tools.Base.{◌≡◌, refl, arith}

pub data Run {ℓ} (A : Type ℓ) : Type ℓ where
  finished : A → Run A
  crashed : Run A
  waiting : Run A

infixl 5 ◌>>=◌
abbrev pub ◌>>=◌ {ℓ κ} : {A : Type ℓ} {B : Type κ} → Run A → (A → Run B) → Run B
finished a >>= f = f a
crashed >>= f = crashed
waiting >>= f = waiting

-- Inversion of a bind that finishes.
pub >>=-eq-finished {ℓ κ} :
    {A : Type ℓ} {B : Type κ} (m : Run A) (f : A → Run B) {b : B}
    → (m >>= f) ≡ finished b
    → (a : A) × (m ≡ finished a) × (f a ≡ finished b)
>>=-eq-finished (finished a) f h = (a, refl, h)
>>=-eq-finished crashed f h = cc
>>=-eq-finished waiting f h = cc

pub finished_pair {ℓ κ} :
    {A : Type ℓ} {B : Type κ} {a a' : A} {b b' : B}
    → ◌≡◌ {A = Run (A × B)} (finished (a, b)) (finished (a', b'))
    → (a' ≡ a) × (b' ≡ b)
finished_pair e = (ground arith, ground arith)

pub bind_cong {ℓ κ} :
    {A : Type ℓ} {B : Type κ} (m : Run A) (f g : A → Run B)
    → ((a : A) → f a ≡ g a)
    → (m >>= f) ≡ (m >>= g)
bind_cong (finished a) f g h = h a
bind_cong crashed f g h = refl
bind_cong waiting f g h = refl

pub bind_assoc {ℓ κ μ} :
    {A : Type ℓ} {B : Type κ} {C : Type μ} (m : Run A) (f : A → Run B) (g : B → Run C)
    → ((m >>= f) >>= g) ≡ (m >>= (λ a. f a >>= g))
bind_assoc (finished a) f g = refl
bind_assoc crashed f g = refl
bind_assoc waiting f g = refl
