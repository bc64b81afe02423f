-- ===== src/BitArray/Bits.antt =====
-- Single bits of a machine word: how `|`, `&` and `1 << k` act on them. The native operations are
-- defined by a recursion over binary digits with fuel, which is left behind here.
use Prim.Native.Nat.{digits, bit_and-bitwise, bit_or-bitwise}
use native.Mathlib.Nat.{pow-suc, one-le-pow}
use scalemate.Prelude.{
  ℕ, zero, suc, ◌+◌, ◌*◌, ◌/◌, ◌%◌, ◌^◌, ◌≤◌, ◌<◌, min, max, bit_and, bit_or, ◌≡◌, refl, ◌∙◌, Bool,
  false, not, ◌||◌, ◌==◌, arith,
}

-- The bit of weight 2 ^ j.
abbrev pub bit : ℕ → ℕ → Bool
bit w zero = w % 2 == 1
bit w (suc j) = bit (w / 2) j

-- More fuel than the first argument needs makes no difference.
refuel :
    (z : ℕ → ℕ) (f : ℕ → ℕ → ℕ) (n m a b : ℕ) → a ≤ n → a ≤ m → digits z f n a b ≡ digits z f m a b
refuel z f zero zero a b p q = refl
refuel z f (suc n) zero zero b p q = refl
refuel z f zero (suc m) zero b p q = refl
refuel z f (suc n) (suc m) zero b p q = refl
refuel z f (suc n) zero (suc a) b p q = absurd (omega arith)
refuel z f zero (suc m) (suc a) b p q = absurd (omega arith)
refuel z f (suc n) (suc m) (suc a) b p q =
    rw (refuel z f n m (suc a / 2) (b / 2) (omega arith) (omega arith))

pub bit_and-halves : (a b : ℕ) → bit_and a b ≡ bit_and (a / 2) (b / 2) * 2 + min (a % 2) (b % 2)
bit_and-halves zero b = simp bit_and-bitwise (omega arith)
bit_and-halves (suc a) b = simp bit_and-bitwise (
    omega
      (arith, refuel (λ b. zero) min a (suc a / 2) (suc a / 2) (b / 2) (omega arith) (omega arith)))

pub bit_or-halves : (a b : ℕ) → bit_or a b ≡ bit_or (a / 2) (b / 2) * 2 + max (a % 2) (b % 2)
bit_or-halves zero b = simp bit_or-bitwise (omega arith)
bit_or-halves (suc a) b = simp bit_or-bitwise (
    omega
      (arith, refuel (λ b. b) max a (suc a / 2) (suc a / 2) (b / 2) (omega arith) (omega arith)))

bit_and-zero_below : (k a : ℕ) → a < k → bit_and a 0 ≡ 0
bit_and-zero_below (suc k) zero h = refl
bit_and-zero_below (suc k) (suc a) h =
    omega (arith, bit_and-halves (suc a) 0, bit_and-zero_below k (suc a / 2) (omega arith))
bit_and-zero_below zero a h = elim h [ ]

bit_and-zero : (a : ℕ) → bit_and a 0 ≡ 0
bit_and-zero a = bit_and-zero_below (suc a) a (omega arith)

bit_and-self_below : (k a : ℕ) → a < k → bit_and a a ≡ a
bit_and-self_below (suc k) zero h = refl
bit_and-self_below (suc k) (suc a) h =
    omega (arith, bit_and-halves (suc a) (suc a), bit_and-self_below k (suc a / 2) (omega arith))
bit_and-self_below zero a h = elim h [ ]

pub bit_and_self : (a : ℕ) → bit_and a a ≡ a
bit_and_self a = bit_and-self_below (suc a) a (omega arith)

-- The mask of one bit tests that bit.
pub bit_and-pow : (j w : ℕ) → not (bit_and w (2 ^ j) == 0) ≡ bit w j
bit_and-pow zero w = ground (arith, bit_and-halves w 1, bit_and-zero (w / 2))
bit_and-pow (suc j) w =
    ground (arith, pow-suc 2 j, bit_and-halves w (2 ^ suc j), bit_and-pow j (w / 2), halved j)
  where
    halved : (j : ℕ) → (2 ^ suc j / 2 ≡ 2 ^ j) × (2 ^ suc j % 2 ≡ 0)
    halved j = omega (arith, pow-suc 2 j)

pub bit-bit_or : (j a b : ℕ) → bit (bit_or a b) j ≡ (bit a j || bit b j)
bit-bit_or zero a b = ground (arith, bit_or-halves a b)
bit-bit_or (suc j) a b = rw (half a b) (bit-bit_or j (a / 2) (b / 2))
  where
    half : (a b : ℕ) → bit_or a b / 2 ≡ bit_or (a / 2) (b / 2)
    half a b = omega (arith, bit_or-halves a b)

pub bit-zero : (j : ℕ) → bit 0 j ≡ false
bit-zero zero = refl
bit-zero (suc j) = bit-zero j

pub bit-pow : (k j : ℕ) → bit (2 ^ k) j ≡ (k == j)
bit-pow zero zero = refl
bit-pow zero (suc j) = bit-zero j ∙ ground arith
bit-pow (suc k) zero = ground (arith, pow-suc 2 k)
bit-pow (suc k) (suc j) = rw (half k) (bit-pow k j ∙ ground arith)
  where
    half : (k : ℕ) → 2 ^ suc k / 2 ≡ 2 ^ k
    half k = omega (arith, pow-suc 2 k)

pub bit_or-lt : (k a b : ℕ) → a < 2 ^ k → b < 2 ^ k → bit_or a b < 2 ^ k
bit_or-lt zero a b p q = ground (arith, zeros a b)
  where
    zeros : (a b : ℕ) → a < 1 → b < 1 → bit_or a b ≡ 0
    zeros zero zero p q = refl
    zeros zero (suc b) p q = absurd (omega arith)
    zeros (suc a) b p q = absurd (omega arith)
bit_or-lt (suc k) a b p q = omega (
  arith,
  pow-suc 2 k,
  bit_or-halves a b,
  bit_or-lt k (a / 2) (b / 2) (omega (arith, pow-suc 2 k)) (omega (arith, pow-suc 2 k)),
)

pub pow-lt_pow : (j k : ℕ) → j < k → 2 ^ j < 2 ^ k
pow-lt_pow j zero h = elim h [ ]
pow-lt_pow zero (suc k) h = omega (arith, pow-suc 2 k, one-le-pow k 2)
pow-lt_pow (suc j) (suc k) h = omega (arith, pow-suc 2 j, pow-suc 2 k, pow-lt_pow j k (omega arith))
