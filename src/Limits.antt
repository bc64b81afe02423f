-- ===== src/Limits.antt =====
-- scheduler/models/limits_selector.go: which of the limits that wait are given a node's resources.
-- Children: `Spec` is what the best selection is, `Best` how the best selection of a list comes
-- from those of its tail, `Memo` the cache, `Select` the correctness of the whole.
pub mod Spec
pub mod Best
pub mod Memo
pub mod Arrays
pub mod With
pub mod Combine
pub mod Select
use scalemate.Prelude.{
  ℕ, zero, suc, ◌+◌, ◌-◌, ◌^◌, Bool, true, false, ◌&&◌, List, [], ◌∷◌, Option, none, some, ltb, leb,
  ◌==◌, if◌then◌else◌, length, Go, returns, runs_out, ◌>>=◌, index, u16, u32,
}
use scalemate.Proto.{Limit}
use scalemate.BitArray.{BitArray, new_bit_array, set_bit, or, max_set}

-- All four are uint32.
pub record AvailableResources : Type 0 where
  pub cpu : ℕ
  pub memory : ℕ
  pub gpu : ℕ
  pub disk : ℕ

pub record CacheKey : Type 0 where
  pub index : ℕ
  pub res : AvailableResources

abbrev pub same_resources : AvailableResources → AvailableResources → Bool
same_resources a b = a.cpu == b.cpu && a.memory == b.memory && a.gpu == b.gpu && a.disk == b.disk

-- Equality of two keys of the Go map.
abbrev pub same_key : CacheKey → CacheKey → Bool
same_key k l = k.index == l.index && same_resources k.res l.res

-- The map from keys to pointers; a nil pointer may be stored too.
abbrev pub Cache : Type 0
Cache = List (CacheKey × Option BitArray)

unfoldable pub lookup : CacheKey → Cache → Option (Option BitArray)
lookup k [] = none
lookup k ((l, v) ∷ cache) = if same_key k l then some v else lookup k cache

unfoldable pub limit_fits_resources : Limit → AvailableResources → Bool
limit_fits_resources limit res =
    leb limit.cpu res.cpu
    && leb limit.memory res.memory
    && leb limit.gpu res.gpu
    && leb limit.disk res.disk

-- `a - b` of two uint32.
abbrev pub sub32 : ℕ → ℕ → ℕ
sub32 a b = u32 (a + 2 ^ 32 - b)

unfoldable pub reduced_resources : Limit → AvailableResources → AvailableResources
reduced_resources limit res = record {
  cpu = sub32 res.cpu limit.cpu;
  memory = sub32 res.memory limit.memory;
  gpu = sub32 res.gpu limit.gpu;
  disk = sub32 res.disk limit.disk;
}

-- The combination that has limit `i`, when the limit fits: `rest` is the recursive call.
unfoldable pub with_current :
    ℕ → ℕ → Cache → (Cache → Go (Option BitArray × Cache)) → Go (Option BitArray × Cache)
with_current n i cache rest = set_bit i (new_bit_array n) >>= λ single.
    let whole = rest cache >>= λ (sub, cache'). elim sub [
      | none ↦ returns (some single, cache')
      | some bits ↦ or single bits >>= λ joined. returns (some joined, cache')
    ] in
    if ltb i (n - 1) then whole else returns (some single, cache)

-- The test for which the combination without limit `i` is worth a look.
unfoldable pub needs_without : ℕ → ℕ → Option BitArray → Bool
needs_without n i none = ltb i (n - 1)
needs_without n i (some bits) = ltb i (n - 1) && ltb bits.bits_set (n - i)

-- The recursive function, on fuel. It is called with `i` below the number of limits, so the
-- uint16 `n - 1`, `n - i` and `i+1` do not wrap.
unfoldable pub select_limits_from :
    ℕ → List Limit → AvailableResources → ℕ → Cache → Go (Option BitArray × Cache)
select_limits_from zero limits res i cache = runs_out
select_limits_from (suc fuel) limits res i cache =
    let n = u16 (length limits) in
    let computed = index limits i >>= λ limit.
    let taken =
      with_current n i cache
        (λ c. select_limits_from fuel limits (reduced_resources limit res) (suc i) c) in
    (if limit_fits_resources limit res then taken else returns (none, cache)) >>= λ (with, cache1).
    let left = select_limits_from fuel limits res (suc i) cache1 in
    (if needs_without n i with then left else returns (none, cache1)) >>= λ (without, cache2).
    let best = max_set with without in
    returns (best, (record { index = i; res = res }, best) ∷ cache2) in
    if n == 0
    then returns (none, cache)
    else (elim (lookup (record { index = i; res = res }) cache) [
      | some c ↦ returns (c, cache)
      | none ↦ computed
    ])

-- A call goes from `i` to `i + 1`, so a call for each limit is fuel enough.
unfoldable pub select_limits : List Limit → AvailableResources → Go (Option BitArray)
select_limits limits res =
    select_limits_from (suc (length limits)) limits res 0 [] >>= λ (best, cache). returns best
