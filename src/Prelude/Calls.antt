-- ===== src/Prelude/Calls.antt =====
-- What a call of a Go function does: it returns a value or panics. `runs_out` is the model's own,
-- the end of a loop's fuel; the theorems show that it is not reached.
use Prim.Native.Nat.{ℕ, ◌%◌, ◌^◌}
use mathlib.Core.Path.{◌≡◌, refl}
use mathlib.Core.Option.{none, some}
use mathlib.Core.List.{List}
use scalemate.Prelude.Lists.{get_elem?}

pub data Go {ℓ} (A : Type ℓ) : Type ℓ where
  returns : A → Go A
  panics : Go A
  runs_out : Go A

infixl 5 ◌>>=◌
abbrev pub ◌>>=◌ {ℓ κ} : {A : Type ℓ} {B : Type κ} → Go A → (A → Go B) → Go B
returns a >>= f = f a
panics >>= f = panics
runs_out >>= f = runs_out

-- `xs[i]`, which panics out of range
abbrev pub index {ℓ} : {A : Type ℓ} → List A → ℕ → Go A
index xs i = elim (get_elem? xs i) [ none ↦ panics | some a ↦ returns a ]

-- The conversions and the arithmetic of the unsigned machine integers.
abbrev pub u16 : ℕ → ℕ
u16 n = n % 2 ^ 16

abbrev pub u32 : ℕ → ℕ
u32 n = n % 2 ^ 32

-- Inversion of a call that returned, for proofs in which the parts stay shut.
pub >>=-eq-returns {ℓ κ} :
    {A : Type ℓ} {B : Type κ} (m : Go A) (f : A → Go B) {b : B}
    → (m >>= f) ≡ returns b
    → (a : A) × (m ≡ returns a) × (f a ≡ returns b)
>>=-eq-returns (returns a) f h = (a, refl, h)
>>=-eq-returns panics f h = cc
>>=-eq-returns runs_out f h = cc
