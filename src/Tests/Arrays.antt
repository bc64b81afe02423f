-- ===== src/Tests/Arrays.antt =====
-- Bit arrays and the selection of limits.
use scalemate.Prelude.{
  ℕ, ◌^◌, ◌≡◌, refl, List, [], ◌∷◌, Option, none, some, returns, length, ltb→lt, leb→le,
}
use scalemate.Proto.{Limit, requested}
use scalemate.BitArray.{
  BitArray, set_bit, positive_bits, or, set_bits, set_bits_loop, set_bits_block, new_bit_array,
  max_set, or_loop, positive_bits_loop,
}
use scalemate.BitArray.Bits.{bit}
use scalemate.BitArray.Count.{count_from, positive_bits-eq_count}
use scalemate.BitArray.Model.{has, capacity, IsSetAt, set_bit-returns}
use scalemate.BitArray.Union.{IsUnion, or-returns}
use scalemate.BitArray.Listing.{members_from, set_bits-eq_members}
use scalemate.Limits.{
  AvailableResources, select_limits, select_limits_from, lookup, limit_fits_resources, with_current,
  reduced_resources, needs_without,
}
use scalemate.Limits.Spec.{IsBest}
use scalemate.Limits.Memo.{IsAnswer, selected}
use scalemate.Limits.Select.{select_limits-IsBest}

-- Indexes 0 and 70 of 128.
abbrev some_bits : BitArray
some_bits = record { bits_set = 2; blocks = 1 ∷ 64 ∷ [] }

-- Indexes 0 and 1.
abbrev other_bits : BitArray
other_bits = record { bits_set = 2; blocks = 3 ∷ 0 ∷ [] }

positive_bits-eq_count_example : positive_bits 69 ≡ returns (count_from 0 64 (bit 69))
positive_bits-eq_count_example = positive_bits-eq_count 69 (ltb→lt 69 (2 ^ 64) refl)

set_bit-returns_example : (c : BitArray) × (set_bit 5 some_bits ≡ returns c) × IsSetAt 5 some_bits c
set_bit-returns_example = set_bit-returns 5 some_bits (ltb→lt 5 128 refl)

or-returns_example :
    (c : BitArray) × (or some_bits other_bits ≡ returns c) × IsUnion some_bits other_bits c
or-returns_example =
    or-returns some_bits other_bits refl (ltb→lt 1 (2 ^ 64) refl, (ltb→lt 64 (2 ^ 64) refl, tt))
      (ltb→lt 3 (2 ^ 64) refl, (ltb→lt 0 (2 ^ 64) refl, tt))

set_bits-eq_members_example :
    set_bits some_bits ≡ members_from 0 (capacity some_bits) (has some_bits)
set_bits-eq_members_example = set_bits-eq_members some_bits (leb→le 2 1024 refl)

set_bits_run : set_bits some_bits ≡ 0 ∷ 70 ∷ []
unfolding set_bits set_bits_loop set_bits_block
set_bits_run = refl

abbrev limit_of : ℕ → Limit
limit_of cpu = record {
  id = 1;
  container_id = 1;
  cpu = cpu;
  memory = 1;
  disk = 1;
  gpu = 0;
  status = requested;
  status_message = "";
  created_at = 0;
  updated_at = none;
  confirmed_at = none;
}

abbrev limits : List Limit
limits = limit_of 5 ∷ limit_of 2 ∷ limit_of 3 ∷ []

abbrev resources : AvailableResources
resources = record { cpu = 6; memory = 8; gpu = 0; disk = 8 }

-- The second and the third limit go together.
select_limits_run :
    select_limits limits resources ≡ returns (some (record { bits_set = 2; blocks = 6 ∷ [] }))
unfolding select_limits select_limits_from lookup limit_fits_resources with_current set_bit
    new_bit_array reduced_resources needs_without max_set or or_loop positive_bits
    positive_bits_loop
select_limits_run = refl

select_limits-IsBest_example :
    (r : Option BitArray) × (select_limits limits resources ≡ returns r)
    × IsAnswer (length limits) 0 limits r
    × IsBest limits 0 resources (selected r)
select_limits-IsBest_example =
    select_limits-IsBest limits resources (ltb→lt 3 (2 ^ 16) refl) (record {
      cpu = ltb→lt 6 (2 ^ 32) refl;
      memory = ltb→lt 8 (2 ^ 32) refl;
      gpu = ltb→lt 0 (2 ^ 32) refl;
      disk = ltb→lt 8 (2 ^ 32) refl;
    })
