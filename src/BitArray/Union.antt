-- ===== src/BitArray/Union.antt =====
-- `Or`: the union of two arrays, and its count.
use mathlib.Core.List.{append-nil, append_assoc}
use scalemate.Prelude.{
  ℕ, zero, suc, ◌+◌, ◌*◌, ◌/◌, ◌%◌, ◌^◌, ◌<◌, bit_or, ◌≡◌, refl, ap, ◌∙◌, ◌||◌, List, [], ◌∷◌, ◌++◌,
  length, get_or, returns, u16, arith,
}
use scalemate.BitArray.{BitArray, or_loop, or}
use scalemate.BitArray.Bits.{bit, bit_or-lt, bit-bit_or}
use scalemate.BitArray.Count.{
  count_from, count_from-ext, count_from-shift, count_from-add, positive_bits-eq_count,
}
use scalemate.BitArray.Model.{has_in, has_in_first, has_in_rest, has, capacity, AreWords}

-- The number of set bits of all blocks together.
count_blocks : List ℕ → ℕ
count_blocks [] = 0
count_blocks (w ∷ ws) = count_from 0 64 (bit w) + count_blocks ws

count_blocks-eq : (ws : List ℕ) → count_blocks ws ≡ count_from 0 (64 * length ws) (has_in ws)
unfolding count_blocks
count_blocks-eq [] = unfold count_from in refl
count_blocks-eq (w ∷ ws) = omega (arith, count_blocks-eq ws, whole, first, rest)
  where
    whole :
        count_from 0 (64 * length (w ∷ ws)) (has_in (w ∷ ws))
        ≡ count_from 0 64 (has_in (w ∷ ws)) + count_from 64 (64 * length ws) (has_in (w ∷ ws))
    whole =
        ap (λ (n : ℕ). count_from 0 n (has_in (w ∷ ws))) (omega arith)
        ∙ count_from-add 0 64 (64 * length ws) (has_in (w ∷ ws))

    first : count_from 0 64 (has_in (w ∷ ws)) ≡ count_from 0 64 (bit w)
    first =
        count_from-ext (has_in (w ∷ ws)) (bit w) 0 64 (λ j p q. has_in_first w ws j (omega arith))

    rest :
        count_from 64 (64 * length ws) (has_in (w ∷ ws)) ≡ count_from 0 (64 * length ws) (has_in ws)
    rest =
        count_from-shift 64 0 (64 * length ws) (has_in (w ∷ ws))
        ∙ count_from-ext (λ j. has_in (w ∷ ws) (64 + j)) (has_in ws) 0 (64 * length ws)
            (λ j p q. has_in_rest w ws j)

-- The blocks of `Or`.
or_blocks : List ℕ → List ℕ → List ℕ
or_blocks [] ys = []
or_blocks (x ∷ xs) [] = []
or_blocks (x ∷ xs) (y ∷ ys) = bit_or x y ∷ or_blocks xs ys

length-or_blocks : (xs ys : List ℕ) → length xs ≡ length ys → length (or_blocks xs ys) ≡ length xs
unfolding or_blocks
length-or_blocks [] ys e = refl
length-or_blocks (x ∷ xs) [] e = absurd (omega arith)
length-or_blocks (x ∷ xs) (y ∷ ys) e = ap suc (length-or_blocks xs ys (omega arith))

get_or-or_blocks :
    (xs ys : List ℕ) (i : ℕ)
    → length xs ≡ length ys
    → get_or (or_blocks xs ys) i 0 ≡ bit_or (get_or xs i 0) (get_or ys i 0)
unfolding or_blocks
get_or-or_blocks [] [] i e = refl
get_or-or_blocks [] (y ∷ ys) i e = absurd (omega arith)
get_or-or_blocks (x ∷ xs) [] i e = absurd (omega arith)
get_or-or_blocks (x ∷ xs) (y ∷ ys) zero e = refl
get_or-or_blocks (x ∷ xs) (y ∷ ys) (suc i) e = get_or-or_blocks xs ys i (omega arith)

or_blocks-AreWords : (xs ys : List ℕ) → AreWords xs → AreWords ys → AreWords (or_blocks xs ys)
unfolding or_blocks
or_blocks-AreWords [] ys p q = tt
or_blocks-AreWords (x ∷ xs) [] p q = tt
or_blocks-AreWords (x ∷ xs) (y ∷ ys) p q =
    (bit_or-lt 64 x y p.0 q.0, or_blocks-AreWords xs ys p.1 q.1)

or_loop-eq :
    (xs ys : List ℕ) (bits : ℕ) (out : List ℕ)
    → length xs ≡ length ys
    → AreWords xs
    → AreWords ys
    → bits < 2 ^ 16
    → or_loop xs ys bits out
      ≡ returns (record {
        bits_set = u16 (bits + count_blocks (or_blocks xs ys));
        blocks = out ++ or_blocks xs ys;
      })
unfolding or_loop or_blocks count_blocks
or_loop-eq [] ys bits out e p q small =
    ap returns (rw (append-nil out) (ap (λ (n : ℕ). record' n out) (omega arith)))
  where
    record' : ℕ → List ℕ → BitArray
    record' n out = record { bits_set = n; blocks = out }
or_loop-eq (x ∷ xs) [] bits out e p q small = absurd (omega arith)
or_loop-eq (x ∷ xs) (y ∷ ys) bits out e p q small =
    rw (positive_bits-eq_count (bit_or x y) (bit_or-lt 64 x y p.0 q.0)) (
      rw
        (
          or_loop-eq xs ys (u16 (bits + count_from 0 64 (bit (bit_or x y))))
              (out ++ bit_or x y ∷ []) (omega arith) p.1 q.1 (omega arith),
          append_assoc out,
        )
        (ap returns
          (ap (λ (n : ℕ). record' n (out ++ bit_or x y ∷ or_blocks xs ys)) (omega arith))))
  where
    record' : ℕ → List ℕ → BitArray
    record' n out = record { bits_set = n; blocks = out }

-- `c` is the union of two arrays of the same length, with `BitsSet` counted anew.
pub record IsUnion (b b2 c : BitArray) : Type 0 where
  pub joins : (j : ℕ) → has c j ≡ (has b j || has b2 j)
  pub counts : c.bits_set ≡ u16 (count_from 0 (capacity c) (has c))
  pub same_length : length c.blocks ≡ length b.blocks
  pub words : AreWords c.blocks

-- `Or` of two arrays of words with the same number of blocks returns an array that has the indexes
-- of either, and whose `BitsSet` is their number, as a uint16.
pub or-returns :
    (b b2 : BitArray)
    → length b.blocks ≡ length b2.blocks
    → AreWords b.blocks
    → AreWords b2.blocks
    → (c : BitArray) × (or b b2 ≡ returns c) × IsUnion b b2 c
unfolding or
or-returns b b2 e p q =
    let blocks = or_blocks b.blocks b2.blocks in
    (
      record { bits_set = u16 (count_blocks blocks); blocks = blocks },
      ground (arith, or_loop-eq b.blocks b2.blocks 0 [] e p q (omega arith)),
      record {
        joins = λ j. rw (get_or-or_blocks b.blocks b2.blocks (j / 64) e) (bit-bit_or (j % 64) _ _);
        counts = ap u16 (count_blocks-eq blocks);
        same_length = length-or_blocks b.blocks b2.blocks e;
        words = or_blocks-AreWords b.blocks b2.blocks p q;
      },
    )
