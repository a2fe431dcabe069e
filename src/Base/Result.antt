-- ===== src/Base/Result.antt =====
-- The outcome of code that may throw: the C++ exceptions that this program meets, as values.
use mathlib.Core.Path.{◌≡◌, refl}

pub data Exception : Type 0 where
  runtime_error invalid_argument out_of_range length_error : Exception

pub data Result {ℓ} (A : Type ℓ) : Type ℓ where
  ok : A → Result A
  throw : Exception → Result A

infixl 5 ◌>>=◌
abbrev pub ◌>>=◌ {ℓ κ} : {B : Type κ} {A : Type ℓ} → Result A → (A → Result B) → Result B
throw problem >>= next = throw problem
ok value >>= next = next value

-- Where a chain returns, so does its head.
pub ok->>= {ℓ κ} :
    {B : Type κ} {A : Type ℓ} {value : B} (next : A → Result B) (head : Result A)
    → ok value ≡ (head >>= next)
    → (first : A) × (ok first ≡ head) × (ok value ≡ next first)
ok->>= next (throw problem) returned = cc
ok->>= next (ok first) returned = (first, refl, returned)
