-- ===== src/BitArray.antt =====
-- shared/utils/bitarray/bitarray.go: arrays of bits of a fixed length, in blocks of 64.
-- A block is a number below 2 ^ 64 and `BitsSet` is a uint16. Methods that mutate the receiver
-- return it.
pub mod Bits
pub mod Count
pub mod Model
pub mod Union
pub mod Listing
use scalemate.Prelude.{
  ℕ, zero, suc, ◌+◌, ◌-◌, ◌*◌, ◌/◌, ◌%◌, ◌^◌, bit_and, bit_or, Bool, true, false, not, List, [],
  ◌∷◌, ◌++◌, Option, none, some, ltb, leb, ◌==◌, if◌then◌else◌, length, set, replicate, Go, returns,
  panics, runs_out, ◌>>=◌, index, u16,
}

pub record BitArray : Type 0 where
  pub bits_set : ℕ
  pub blocks : List ℕ

-- The number of blocks is the exact quotient by 64, rounded up: a uint16 and its quotient by a
-- power of two are exact as float64.
unfoldable pub new_bit_array : ℕ → BitArray
new_bit_array size = record { bits_set = 0; blocks = replicate ((size + 63) / 64) 0 }

-- `bitIndex` is below 64, so `1 << bitIndex` is not cut off.
unfoldable pub set_bit : ℕ → BitArray → Go BitArray
set_bit i b = do
  let block_index = i / 64
  let bit_index = i % 64
  block ← index b.blocks block_index
  returns (record {
    bits_set = u16 (b.bits_set + 1);
    blocks = set b.blocks block_index (bit_or block (2 ^ bit_index));
  })

unfoldable pub get_bit : ℕ → BitArray → Go Bool
get_bit i b = do
  let block_index = i / 64
  let bit_index = i % 64
  block ← index b.blocks block_index
  returns (not (bit_and block (2 ^ bit_index) == 0))

-- The loop of `positiveBits`, on fuel. `n & (n - 1)` is read only where `n` is positive.
unfoldable pub positive_bits_loop : ℕ → ℕ → ℕ → Go ℕ
positive_bits_loop zero n c = if n == 0 then returns c else runs_out
positive_bits_loop (suc fuel) n c =
    let rest = positive_bits_loop fuel (bit_and n (n - 1)) (u16 (c + 1)) in
    if n == 0 then returns c else rest

-- A round clears one bit, so a word of 64 bits takes at most 64.
unfoldable pub positive_bits : ℕ → Go ℕ
positive_bits n = positive_bits_loop 64 n 0

-- The loop of `Or` over the blocks that are left of both arrays; `bits` and `out` are the
-- `BitsSet` and the blocks of the new array so far.
unfoldable pub or_loop : List ℕ → List ℕ → ℕ → List ℕ → Go BitArray
or_loop [] ys bits out = returns (record { bits_set = bits; blocks = out })
or_loop (x ∷ xs) [] bits out = panics
or_loop (x ∷ xs) (y ∷ ys) bits out =
    positive_bits (bit_or x y) >>= λ c. or_loop xs ys (u16 (bits + c)) (out ++ bit_or x y ∷ [])

unfoldable pub or : BitArray → BitArray → Go BitArray
or b b2 =
    let ba = or_loop b.blocks b2.blocks 0 [] in
    if not (length b.blocks == length b2.blocks) then panics else ba

-- The inner loop of `SetBits`: bits `j` to 63 of the block with index `i`.
unfoldable pub set_bits_block : ℕ → ℕ → ℕ → ℕ → List ℕ
set_bits_block zero i j block = []
set_bits_block (suc left) i j block =
    let rest = set_bits_block left i (j + 1) block in
    if not (bit_and block (2 ^ j) == 0) then u16 (u16 (i * 64) + u16 j) ∷ rest else rest

unfoldable pub set_bits_loop : ℕ → List ℕ → List ℕ
set_bits_loop i [] = []
set_bits_loop i (block ∷ blocks) = set_bits_block 64 i 0 block ++ set_bits_loop (i + 1) blocks

unfoldable pub set_bits : BitArray → List ℕ
set_bits b = set_bits_loop 0 b.blocks

-- `Max` of two pointers; `none` is nil.
unfoldable pub max_set : Option BitArray → Option BitArray → Option BitArray
max_set none none = none
max_set none (some b2) = some b2
max_set (some b1) none = some b1
max_set (some b1) (some b2) = if ltb b2.bits_set b1.bits_set then some b1 else some b2
