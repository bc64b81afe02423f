-- ===== src/BitArray/Model.antt =====
-- A bit array seen as the set of its indexes: what each method does to that set and to `BitsSet`.

use scalemate.Prelude.{
  ℕ, zero, suc, ◌+◌, ◌*◌, ◌/◌, ◌%◌, ◌^◌, ◌<◌, bit_or, ◌≡◌, refl, sym, ap, ap₂, ◌∙◌, ℕ_discrete,
  Bool, false, ◌||◌, List, [], ◌∷◌, ◌==◌, length, get_or, set, replicate, get_elem?-eq-get_or,
  get_or-set_self, get_or-set_ne, length-set, get_or-replicate, length-replicate, returns, u16,
  arith,
}
use scalemate.BitArray.{BitArray, new_bit_array, set_bit, get_bit}
use scalemate.BitArray.Bits.{bit, bit_or-lt, pow-lt_pow, bit_and-pow, bit-bit_or, bit-zero, bit-pow}

-- Whether the index is set, in blocks of 64 bits.
abbrev pub has_in : List ℕ → ℕ → Bool
has_in blocks j = bit (get_or blocks (j / 64) 0) (j % 64)

pub has_in_first : (w : ℕ) (ws : List ℕ) (j : ℕ) → j < 64 → has_in (w ∷ ws) j ≡ bit w j
has_in_first w ws j lt =
    let block : j / 64 ≡ 0 = omega arith in
    let offset : j % 64 ≡ j = omega arith in
    ap₂ (λ (n k : ℕ). bit (get_or (w ∷ ws) n 0) k) block offset

pub has_in_rest : (w : ℕ) (ws : List ℕ) (j : ℕ) → has_in (w ∷ ws) (64 + j) ≡ has_in ws j
has_in_rest w ws j =
    let block : (64 + j) / 64 ≡ suc (j / 64) = omega arith in
    let offset : (64 + j) % 64 ≡ j % 64 = omega arith in
    ap₂ (λ (n k : ℕ). bit (get_or (w ∷ ws) n 0) k) block offset

abbrev pub has : BitArray → ℕ → Bool
has b = has_in b.blocks

abbrev pub capacity : BitArray → ℕ
capacity b = 64 * length b.blocks

-- Every block is a uint64.
abbrev pub AreWords : List ℕ → Type 0
AreWords [] = Unit {0}
AreWords (w ∷ ws) = (w < 2 ^ 64) × AreWords ws

get_or-lt : (ws : List ℕ) (i : ℕ) → AreWords ws → get_or ws i 0 < 2 ^ 64
get_or-lt [] i p = omega arith
get_or-lt (w ∷ ws) zero p = p.0
get_or-lt (w ∷ ws) (suc i) p = get_or-lt ws i p.1

set-AreWords : (ws : List ℕ) (i v : ℕ) → AreWords ws → v < 2 ^ 64 → AreWords (set ws i v)
set-AreWords [] i v p lt = tt
set-AreWords (w ∷ ws) zero v p lt = (lt, p.1)
set-AreWords (w ∷ ws) (suc i) v p lt = (p.0, set-AreWords ws i v p.1 lt)

replicate-AreWords : (n : ℕ) → AreWords (replicate n 0)
replicate-AreWords zero = tt
replicate-AreWords (suc n) = (omega arith, replicate-AreWords n)

pub new_bit_array-AreWords : (size : ℕ) → AreWords (new_bit_array size).blocks
unfolding new_bit_array
new_bit_array-AreWords size = replicate-AreWords ((size + 63) / 64)

pub has-new_bit_array : (size j : ℕ) → has (new_bit_array size) j ≡ false
unfolding new_bit_array
has-new_bit_array size j =
    rw (get_or-replicate {A = ℕ} ((size + 63) / 64) (j / 64) 0) (bit-zero (j % 64))

pub length-new_bit_array : (size : ℕ) → length (new_bit_array size).blocks ≡ (size + 63) / 64
unfolding new_bit_array
length-new_bit_array size = length-replicate {A = ℕ} ((size + 63) / 64) 0

-- `GetBit` reads the set.
get_bit-eq-has : (i : ℕ) (b : BitArray) → i < capacity b → get_bit i b ≡ returns (has b i)
unfolding get_bit
get_bit-eq-has i b lt = ground (
  arith,
  get_elem?-eq-get_or b.blocks (i / 64) 0,
  bit_and-pow (i % 64) (get_or b.blocks (i / 64) 0),
)

has_in-set :
    (blocks : List ℕ) (i j : ℕ)
    → i / 64 < length blocks
    → has_in (set blocks (i / 64) (bit_or (get_or blocks (i / 64) 0) (2 ^ (i % 64)))) j
      ≡ (has_in blocks j || i == j)
has_in-set blocks i j lt = elim (ℕ_discrete (i / 64) (j / 64)) [
  | yes e ↦ ground (
    arith,
    ap (get_or' written) (sym e) ∙ get_or-set_self blocks (i / 64) block 0 lt,
    ap (get_or' blocks) e,
    bit-bit_or (j % 64) (get_or blocks (i / 64) 0) (2 ^ (i % 64)),
    bit-pow (i % 64) (j % 64),
  )
  | no ne ↦ ground (arith, get_or-set_ne blocks (i / 64) (j / 64) block 0 ne)
]
  where
    get_or' : List ℕ → ℕ → ℕ
    get_or' ws k = get_or ws k 0

    block : ℕ
    block = bit_or (get_or blocks (i / 64) 0) (2 ^ (i % 64))

    written : List ℕ
    written = set blocks (i / 64) block

-- `SetBit` adds the index to the set and one to `BitsSet`, and keeps the number of blocks.
pub record IsSetAt (i : ℕ) (b c : BitArray) : Type 0 where
  pub adds : (j : ℕ) → has c j ≡ (has b j || i == j)
  pub counts : c.bits_set ≡ u16 (b.bits_set + 1)
  pub same_length : length c.blocks ≡ length b.blocks
  pub words : AreWords b.blocks → AreWords c.blocks

-- `SetBit` of an index in range returns an array that has this index besides those it had, and whose
-- `BitsSet` is one more, as a uint16, even where the index was set before.
pub set_bit-returns :
    (i : ℕ) (b : BitArray)
    → i < capacity b
    → (c : BitArray) × (set_bit i b ≡ returns c) × IsSetAt i b c
unfolding set_bit
set_bit-returns i b lt =
    let fits : i / 64 < length b.blocks = omega arith in
    let block = bit_or (get_or b.blocks (i / 64) 0) (2 ^ (i % 64)) in
    (
      record { bits_set = u16 (b.bits_set + 1); blocks = set b.blocks (i / 64) block },
      ground (arith, get_elem?-eq-get_or b.blocks (i / 64) 0 fits),
      record {
        adds = λ j. has_in-set b.blocks i j fits;
        counts = refl;
        same_length = length-set b.blocks (i / 64) block;
        words = λ p. set-AreWords b.blocks (i / 64) _ p (
            bit_or-lt 64 _ _ (get_or-lt b.blocks (i / 64) p)
              (pow-lt_pow (i % 64) 64 (omega arith)));
      },
    )
