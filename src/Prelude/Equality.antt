-- ===== src/Prelude/Equality.antt =====
-- Boolean tests on texts and on lists of bytes.
use Prim.Native.Nat.{ℕ}
use Prim.Native.String.{String}
use mathlib.Core.Path.{◌≡◌, refl, ap₂}
use mathlib.Core.Bool.{Bool, true, false, ◌&&◌}
use mathlib.Core.List.{List, [], ◌∷◌}
use text.Mathlib.Text.{◌==◌ as ◌==ₛ◌}
use text.Mathlib.TextEquality.{eq_iff}
use native.Mathlib.Omega.{arith}
use scalemate.Prelude.Tests.{◌==◌}

-- `s == t` of two strings
abbrev pub same_text : String → String → Bool
same_text s t = s ==ₛ t

pub same_text→eq : (s t : String) → same_text s t ≡ true → s ≡ t
same_text→eq s t = (eq_iff s t).0

pub eq→same_text : (s t : String) → s ≡ t → same_text s t ≡ true
eq→same_text s t = (eq_iff s t).1

-- `bytes.Equal`
abbrev pub same_bytes : List ℕ → List ℕ → Bool
same_bytes [] [] = true
same_bytes (b ∷ bs) (c ∷ cs) = (b == c) && same_bytes bs cs
same_bytes _ _ = false

pub same_bytes→eq : (bs cs : List ℕ) → same_bytes bs cs ≡ true → bs ≡ cs
same_bytes→eq [] [] h = refl
same_bytes→eq [] (c ∷ cs) h = absurd cc
same_bytes→eq (b ∷ bs) [] h = absurd cc
same_bytes→eq (b ∷ bs) (c ∷ cs) h =
    ap₂ (λ (x : ℕ) (xs : List ℕ). x ∷ xs) (ground arith) (same_bytes→eq bs cs (ground arith))
