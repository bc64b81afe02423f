-- ===== src/BitArray/Listing.antt =====
-- `SetBits`: the indexes that are set, in ascending order.
use native.Mathlib.Nat.{zero-add, add-zero, suc-add}
use scalemate.Prelude.{
  ℕ, zero, suc, ◌+◌, ◌*◌, ◌≤◌, ◌<◌, ◌≡◌, refl, sym, ap, ap₂, ◌∙◌, Bool, List, [], ◌∷◌, ◌++◌,
  if◌then◌else◌, length, arith,
}
use scalemate.BitArray.{BitArray, set_bits_block, set_bits_loop, set_bits}
use scalemate.BitArray.Bits.{bit, bit_and-pow}
use scalemate.BitArray.Model.{has_in, has, capacity, has_in_first, has_in_rest}

-- The chosen indexes among the `k` from `i` on, in ascending order.
pub members_from : ℕ → ℕ → (ℕ → Bool) → List ℕ
members_from i zero chosen = []
members_from i (suc k) chosen =
    if chosen i then i ∷ members_from (suc i) k chosen else members_from (suc i) k chosen

members_from-append :
    (i k l : ℕ) (f : ℕ → Bool)
    → members_from i (k + l) f ≡ members_from i k f ++ members_from (i + k) l f
unfolding members_from
members_from-append i zero l f = simp (zero-add, add-zero)
members_from-append i (suc k) l f = simp suc-add (
    ground (
      arith,
      members_from-append (suc i) k l f,
      ap (λ (n : ℕ). members_from n l f) {x = suc i + k} {y = i + suc k} (omega arith),
    ))

set_bits_block-eq :
    (left i j w : ℕ) (f : ℕ → Bool)
    → j + left ≤ 64
    → i < 1024
    → ((n : ℕ) → n < 64 → f (i * 64 + n) ≡ bit w n)
    → set_bits_block left i j w ≡ members_from (i * 64 + j) left f
unfolding set_bits_block members_from
set_bits_block-eq zero i j w f le small h = refl
set_bits_block-eq (suc left) i j w f le small h = ground (
  arith,
  bit_and-pow j w,
  h j,
  set_bits_block-eq left i (j + 1) w f (omega arith) small h,
  ap (λ (n : ℕ). members_from n left f) {x = i * 64 + (j + 1)} {y = suc (i * 64 + j)} (omega arith),
)

set_bits_loop-eq :
    (ws : List ℕ) (i : ℕ) (f : ℕ → Bool)
    → i + length ws ≤ 1024
    → ((n : ℕ) → f (i * 64 + n) ≡ has_in ws n)
    → set_bits_loop i ws ≡ members_from (i * 64) (64 * length ws) f
unfolding set_bits_loop
set_bits_loop-eq [] i f le h = unfold members_from in refl
set_bits_loop-eq (w ∷ ws) i f le h =
    ap₂ ◌++◌ first (set_bits_loop-eq ws (i + 1) f (omega arith) later ∙ rest)
    ∙ sym (members_from-append (i * 64) 64 (64 * length ws) f)
    ∙ ap (λ (n : ℕ). members_from (i * 64) n f) (omega arith)
  where
    first : set_bits_block 64 i 0 w ≡ members_from (i * 64) 64 f
    first =
        set_bits_block-eq 64 i 0 w f (omega arith) (omega arith)
          (λ n lt. h n ∙ has_in_first w ws n lt)
        ∙ ap (λ (n : ℕ). members_from n 64 f) (omega arith)

    later : (n : ℕ) → f ((i + 1) * 64 + n) ≡ has_in ws n
    later n = ap f (omega arith) ∙ h (64 + n) ∙ has_in_rest w ws n

    rest :
        members_from ((i + 1) * 64) (64 * length ws) f
        ≡ members_from (i * 64 + 64) (64 * length ws) f
    rest = ap (λ (n : ℕ). members_from n (64 * length ws) f) (omega arith)

-- `SetBits` of an array of at most 1024 blocks, the most that a uint16 size gives, is the list of
-- the indexes that are set, each once, in ascending order.
pub set_bits-eq_members :
    (b : BitArray) → length b.blocks ≤ 1024 → set_bits b ≡ members_from 0 (capacity b) (has b)
unfolding set_bits
set_bits-eq_members b le =
    set_bits_loop-eq b.blocks 0 (has b) (omega arith)
      (λ n. ap (has b) {x = 0 * 64 + n} {y = n} (omega arith))
