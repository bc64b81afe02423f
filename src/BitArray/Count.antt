-- ===== src/BitArray/Count.antt =====
-- Counting: the loop of `positiveBits` counts the bits of a word that are set, and over all blocks
-- the counts add up to the number of indexes that are set.
use scalemate.Prelude.{
  ℕ, zero, suc, ◌+◌, ◌-◌, ◌/◌, ◌%◌, ◌^◌, ◌≤◌, ◌<◌, bit_and, ◌≡◌, refl, ap, ◌∙◌, Bool, true, false,
  returns, u16, arith,
}
use Prim.Native.Nat.{bit_and-bitwise}
use native.Mathlib.Decide.{dec_lt}
use native.Mathlib.Nat.{pow-suc, zero-add, add-zero, suc-add}
use scalemate.BitArray.{positive_bits_loop, positive_bits}
use scalemate.BitArray.Bits.{bit, bit_and-halves, bit_and_self}

-- One for an index that is chosen.
abbrev pub weight : Bool → ℕ
weight true = 1
weight false = 0

-- How many of the `k` indexes from `i` on are chosen.
unfoldable pub count_from : ℕ → ℕ → (ℕ → Bool) → ℕ
count_from i zero chosen = 0
count_from i (suc k) chosen = weight (chosen i) + count_from (suc i) k chosen

module _ (f g : ℕ → Bool) where
  pub count_from-ext :
      (i k : ℕ) → ((j : ℕ) → i ≤ j → j < i + k → f j ≡ g j) → count_from i k f ≡ count_from i k g
  unfolding count_from
  count_from-ext i zero h = refl
  count_from-ext i (suc k) h =
      ap₂-add (ap weight (h i (omega arith) (omega arith)))
        (count_from-ext (suc i) k (λ j p q. h j (omega arith) (omega arith)))
    where
      ap₂-add : {a b c d : ℕ} → a ≡ b → c ≡ d → a + c ≡ b + d
      ap₂-add p q = omega arith

pub count_from-shift :
    (d i k : ℕ) (f : ℕ → Bool) → count_from (d + i) k f ≡ count_from i k (λ j. f (d + j))
unfolding count_from
count_from-shift d i zero f = refl
count_from-shift d i (suc k) f = omega (arith, next ∙ count_from-shift d (suc i) k f)
  where
    next : count_from (suc (d + i)) k f ≡ count_from (d + suc i) k f
    next = ap (λ (n : ℕ). count_from n k f) (omega arith)

pub count_from-add :
    (i k l : ℕ) (f : ℕ → Bool) → count_from i (k + l) f ≡ count_from i k f + count_from (i + k) l f
unfolding count_from
count_from-add i zero l f = simp (zero-add, add-zero)
count_from-add i (suc k) l f = simp suc-add (omega (arith, regroup, count_from-add (suc i) k l f))
  where
    regroup : count_from (suc i + k) l f ≡ count_from (i + suc k) l f
    regroup = ap (λ (n : ℕ). count_from n l f) (omega arith)

pub count_from-none :
    (i k : ℕ) (f : ℕ → Bool) → ((j : ℕ) → i ≤ j → j < i + k → f j ≡ false) → count_from i k f ≡ 0
unfolding count_from
count_from-none i zero f h = refl
count_from-none i (suc k) f h = ground (
  arith,
  h i (omega arith) (omega arith),
  count_from-none (suc i) k f (λ j p q. h j (omega arith) (omega arith)),
)

pub count_from-le : (i k : ℕ) (f : ℕ → Bool) → count_from i k f ≤ k
unfolding count_from
count_from-le i zero f = omega arith
count_from-le i (suc k) f = ground (arith, count_from-le (suc i) k f)

-- The number of set bits among the lowest `k`, from the lowest on.
pop : ℕ → ℕ → ℕ
pop zero w = 0
pop (suc k) w = w % 2 + pop k (w / 2)

pop-eq-count : (k w : ℕ) → pop k w ≡ count_from 0 k (bit w)
unfolding pop count_from
pop-eq-count zero w = refl
pop-eq-count (suc k) w = ground (arith, pop-eq-count k (w / 2), count_from-shift 1 0 k (bit w))

bit_and-le_below : (m a b : ℕ) → a < m → bit_and a b ≤ a
bit_and-le_below zero a b h = elim h [ ]
bit_and-le_below (suc m) zero b h = omega (arith, bit_and-halves 0 b, zero_bit_and b)
  where
    zero_bit_and : (b : ℕ) → bit_and 0 b ≡ 0
    zero_bit_and b = bit_and-bitwise 0 b
bit_and-le_below (suc m) (suc a) b h =
    omega (arith, bit_and-halves (suc a) b, bit_and-le_below m (suc a / 2) (b / 2) (omega arith))

bit_and-le : (a b : ℕ) → bit_and a b ≤ a
bit_and-le a b = bit_and-le_below (suc a) a b (omega arith)

pop-zero : (k : ℕ) → pop k 0 ≡ 0
unfolding pop
pop-zero zero = refl
pop-zero (suc k) = omega (arith, pop-zero k)

-- `n & (n - 1)` of an odd number, and of an even one.
clears_odd : (n : ℕ) → n % 2 ≡ 1 → (bit_and n (n - 1) / 2 ≡ n / 2) × (bit_and n (n - 1) % 2 ≡ 0)
clears_odd n odd = omega (arith, bit_and-halves n (n - 1), same)
  where
    same : bit_and (n / 2) ((n - 1) / 2) ≡ n / 2
    same = ap (bit_and (n / 2)) (omega arith) ∙ bit_and_self (n / 2)

clears_even :
    (n : ℕ)
    → 0 < n
    → n % 2 ≡ 0
    → (bit_and n (n - 1) / 2 ≡ bit_and (n / 2) (n / 2 - 1)) × (bit_and n (n - 1) % 2 ≡ 0)
clears_even n pos even = omega (arith, bit_and-halves n (n - 1), same)
  where
    same : bit_and (n / 2) ((n - 1) / 2) ≡ bit_and (n / 2) (n / 2 - 1)
    same = ap (bit_and (n / 2)) (omega arith)

-- `n & (n - 1)` clears one bit.
pop-clear : (k n : ℕ) → 0 < n → n < 2 ^ k → suc (pop k (bit_and n (n - 1))) ≡ pop k n
unfolding pop
pop-clear zero n pos lt = absurd (omega arith)
pop-clear (suc k) n pos lt = elim (dec_lt 0 (n % 2)) [
  | yes odd ↦ let (half, low) = clears_odd n (omega arith) in omega (arith, ap (pop k) half, low)
  | no even ↦
      let (half, low) = clears_even n pos (omega arith) in
      omega (
        arith,
        low,
        ap (pop k) half,
        pop-clear k (n / 2) (omega arith) (omega (arith, pow-suc 2 k)),
      )
]

positive_bits_loop-eq :
    (fuel k n c : ℕ)
    → n < 2 ^ k
    → pop k n ≤ fuel
    → c + pop k n < 2 ^ 16
    → positive_bits_loop fuel n c ≡ returns (c + pop k n)
unfolding positive_bits_loop
positive_bits_loop-eq zero k n c lt le room = ground (arith, pop-zero k, pop-clear k n)
positive_bits_loop-eq (suc fuel) k n c lt le room = ground (
  arith,
  pop-zero k,
  pop-clear k n,
  bit_and-le n (n - 1),
  positive_bits_loop-eq fuel k (bit_and n (n - 1)) (u16 (c + 1)),
)

positive_bits_loop-eq_count :
    (k w : ℕ) → w < 2 ^ k → k < 2 ^ 16 → positive_bits_loop k w 0 ≡ returns (count_from 0 k (bit w))
positive_bits_loop-eq_count k w lt small =
    positive_bits_loop-eq k k w 0 lt (omega (arith, bounds)) (omega (arith, bounds))
    ∙ ap returns (omega (arith, pop-eq-count k w))
  where
    bounds : pop k w ≤ k
    bounds = omega (arith, pop-eq-count k w, count_from-le 0 k (bit w))

-- `positiveBits` of a word is the number of its bits that are set.
pub positive_bits-eq_count :
    (w : ℕ) → w < 2 ^ 64 → positive_bits w ≡ returns (count_from 0 64 (bit w))
unfolding positive_bits
positive_bits-eq_count w lt = positive_bits_loop-eq_count 64 w lt (omega arith)
