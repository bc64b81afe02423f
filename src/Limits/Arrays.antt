-- ===== src/Limits/Arrays.antt =====
-- The two bit arrays that `selectLimits` builds for a limit that it takes.
use scalemate.Prelude.{
  ℕ, suc, ◌+◌, ◌-◌, ◌^◌, ◌≤◌, ◌<◌, ◌≡◌, Bool, true, ◌||◌, List, ◌∷◌, ◌==◌, length, arith,
  Bool-cases, ap, sym, ◌∙◌, returns,
}
use scalemate.Proto.{Limit}
use scalemate.BitArray.{BitArray, new_bit_array, set_bit, or}
use scalemate.BitArray.Count.{count_from, count_from-add, count_from-none, count_from-le}
use scalemate.BitArray.Model.{
  has, capacity, has-new_bit_array, length-new_bit_array, new_bit_array-AreWords, set_bit-returns,
  IsSetAt,
}
use scalemate.BitArray.Union.{or-returns, IsUnion}
use scalemate.Limits.Spec.{size, size-eq-count}
use scalemate.Limits.Memo.{IsSelection}

-- Counting a set that lies within a range is counting in that range.
count_from-within :
    (i k rest : ℕ) (f : ℕ → Bool)
    → ((j : ℕ) → f j ≡ true → (i ≤ j) × (j < i + k))
    → count_from 0 (i + k + rest) f ≡ count_from i k f
count_from-within i k rest f inside = omega (
  arith,
  count_from-add 0 (i + k) rest f,
  count_from-add 0 i k f,
  count_from-none 0 i f (λ j p q. ground (arith, inside j, Bool-cases (f j))),
  count_from-none (0 + (i + k)) rest f (λ j p q. ground (arith, inside j, Bool-cases (f j))),
  ap (λ (n : ℕ). count_from n k f) {x = 0 + i} {y = i} (omega arith),
)

single-has : (n i : ℕ) (b : BitArray) → IsSetAt i (new_bit_array n) b → (j : ℕ) → has b j ≡ (i == j)
single-has n i b at j = ground (arith, at.adds j, has-new_bit_array n j)

single-IsSelection :
    (n i : ℕ) (l : Limit) (ls : List Limit) (b : BitArray)
    → i + suc (length ls) ≡ n
    → IsSetAt i (new_bit_array n) b
    → IsSelection n i (l ∷ ls) b
unfolding new_bit_array size
single-IsSelection n i l ls b e at = record {
  blocks = at.same_length ∙ length-new_bit_array n;
  words = at.words (new_bit_array-AreWords n);
  inside = λ j h. ground (arith, single-has n i b at j);
  counted = ground (
    arith,
    at.counts,
    single-has n i b at i,
    size-eq-count ls (suc i) (has b),
    count_from-none (suc i) (length ls) (has b) (λ j p q. ground (arith, single-has n i b at j)),
  );
}

-- The new array with bit `i` set.
pub single-returns :
    (n i : ℕ) (l : Limit) (ls : List Limit)
    → i + suc (length ls) ≡ n
    → (b : BitArray) × (set_bit i (new_bit_array n) ≡ returns b)
      × IsSelection n i (l ∷ ls) b
      × ((j : ℕ) → has b j ≡ (i == j))
unfolding new_bit_array
single-returns n i l ls e =
    let room : i < capacity (new_bit_array n) = omega (arith, length-new_bit_array n) in
    let (b, ret, at) = set_bit-returns i (new_bit_array n) room in
    (b, ret, single-IsSelection n i l ls b e at, λ j. single-has n i b at j)

joined-IsSelection :
    (n i : ℕ) (l : Limit) (ls : List Limit) (single bits b : BitArray)
    → i + suc (length ls) ≡ n
    → n < 2 ^ 16
    → IsSelection n i (l ∷ ls) single
    → IsSelection n (suc i) ls bits
    → IsUnion single bits b
    → ((j : ℕ) → has b j ≡ ((i == j) || has bits j))
    → IsSelection n i (l ∷ ls) b
joined-IsSelection n i l ls single bits b e small p q un bit_of = record {
  blocks = un.same_length ∙ p.blocks;
  words = un.words;
  inside = inside;
  counted = omega (
    arith,
    un.counts,
    whole,
    size-eq-count (l ∷ ls) i (has b),
    count_from-le i (length (l ∷ ls)) (has b),
  );
}
  where
    inside : (j : ℕ) → has b j ≡ true → (i ≤ j) × (j < n)
    inside j h = ground (arith, bit_of j, q.inside j)

    rest : ℕ
    rest = capacity b - n

    whole : count_from 0 (capacity b) (has b) ≡ count_from i (length (l ∷ ls)) (has b)
    whole =
        ap (λ (k : ℕ). count_from 0 k (has b)) (omega (arith, un.same_length, p.blocks))
        ∙ count_from-within i (length (l ∷ ls)) rest (has b) (λ j h. omega (arith, inside j h))

-- It joined with a selection among the limits behind it.
pub joined-returns :
    (n i : ℕ) (l : Limit) (ls : List Limit) (single bits : BitArray)
    → i + suc (length ls) ≡ n
    → n < 2 ^ 16
    → IsSelection n i (l ∷ ls) single
    → ((j : ℕ) → has single j ≡ (i == j))
    → IsSelection n (suc i) ls bits
    → (b : BitArray) × (or single bits ≡ returns b)
      × IsSelection n i (l ∷ ls) b
      × ((j : ℕ) → has b j ≡ ((i == j) || has bits j))
joined-returns n i l ls single bits e small p single_bit q =
    let (b, ret, un) = or-returns single bits (p.blocks ∙ sym q.blocks) p.words q.words in
    let bit_of : (j : ℕ) → has b j ≡ ((i == j) || has bits j) =
      λ j. ground (arith, un.joins j, single_bit j) in
    (b, ret, joined-IsSelection n i l ls single bits b e small p q un bit_of, bit_of)
