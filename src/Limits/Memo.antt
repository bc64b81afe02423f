-- ===== src/Limits/Memo.antt =====
-- What an answer of `selectLimits` has to be, as a bit array and as a selection, and the cache:
-- it holds such answers only.
use scalemate.Prelude.{
  ℕ, ◌+◌, ◌/◌, ◌≤◌, ◌<◌, ◌≡◌, inl, inr, Bool, true, false, Option, none, some, List, [], ◌∷◌,
  length, drop, arith, Bool-cases, sym, subst,
}
use scalemate.Proto.{Limit}
use scalemate.BitArray.{BitArray}
use scalemate.BitArray.Model.{has, AreWords}
use scalemate.Limits.{AvailableResources, CacheKey, Cache, lookup, same_key, same_resources}
use scalemate.Limits.Spec.{size, IsBest}

-- The selection of an answer; nil selects nothing.
abbrev pub selected : Option BitArray → ℕ → Bool
selected none j = false
selected (some b) j = has b j

-- A bit array of `n` bits that selects among the limits `ls`, the first of index `i`, and counts
-- what it selects.
pub record IsSelection (n i : ℕ) (ls : List Limit) (b : BitArray) : Type 0 where
  pub blocks : length b.blocks ≡ (n + 63) / 64
  pub words : AreWords b.blocks
  pub inside : (j : ℕ) → has b j ≡ true → (i ≤ j) × (j < n)
  pub counted : b.bits_set ≡ size ls i (has b)

abbrev pub IsAnswer : ℕ → ℕ → List Limit → Option BitArray → Type 0
IsAnswer n i ls none = Unit {0}
IsAnswer n i ls (some b) = IsSelection n i ls b

-- The answer for the limits from index `i` on and the resources `res`.
pub record Solves (limits : List Limit) (i : ℕ) (res : AvailableResources) (r : Option BitArray)
    : Type 0 where
  pub answer : IsAnswer (length limits) i (drop i limits) r
  pub best : IsBest (drop i limits) i res (selected r)

abbrev pub IsCache : List Limit → Cache → Type 0
IsCache limits [] = Unit {0}
IsCache limits ((k, v) ∷ cache) = Solves limits k.index k.res v × IsCache limits cache

same_resources-eq : (a b : AvailableResources) → same_resources a b ≡ true → a ≡ b
same_resources-eq a b h = ground arith

same_key-eq : (k l : CacheKey) → same_key k l ≡ true → k ≡ l
same_key-eq k l h = ground (arith, same_resources-eq k.res l.res)

pub lookup-Solves :
    (limits : List Limit) (k : CacheKey) (cache : Cache) {v : Option BitArray}
    → IsCache limits cache
    → lookup k cache ≡ some v
    → Solves limits k.index k.res v
unfolding lookup
lookup-Solves limits k [] p h = absurd (cc)
lookup-Solves limits k ((l, w) ∷ cache) {v} p h = elim (Bool-cases (same_key k l)) [
  | inl same ↦
      subst (λ x. Solves limits x.index x.res v) (sym (same_key-eq k l same))
        (subst (λ x. Solves limits l.index l.res x) (found same) p.0)
  | inr other ↦ lookup-Solves limits k cache p.1 (passed other)
]
  where
    found : same_key k l ≡ true → w ≡ v
    found same = ground arith

    passed : same_key k l ≡ false → lookup k cache ≡ some v
    passed other = ground arith
