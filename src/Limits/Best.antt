-- ===== src/Limits/Best.antt =====
-- How the best selection of a list of limits comes from the best selections of its tail: one with
-- the first limit, from the resources that it leaves, and one without it.
use scalemate.Prelude.{
  ℕ, suc, ◌^◌, ◌≤◌, ◌<◌, ◌≡◌, inl, inr, Bool, true, false, List, [], ◌∷◌, length, arith, Bool-cases,
}
use scalemate.Proto.{Limit}
use scalemate.Limits.{AvailableResources, limit_fits_resources, reduced_resources}
use scalemate.Limits.Spec.{usage, size, Fits, IsBest, size-ext}

-- The amounts are uint32.
pub record AreUint32 (res : AvailableResources) : Type 0 where
  pub cpu : res.cpu < 2 ^ 32
  pub memory : res.memory < 2 ^ 32
  pub gpu : res.gpu < 2 ^ 32
  pub disk : res.disk < 2 ^ 32

pub reduced-AreUint32 : (l : Limit) (res : AvailableResources) → AreUint32 (reduced_resources l res)
unfolding reduced_resources
reduced-AreUint32 l res = omega arith

module _ (l : Limit) (ls : List Limit) (i : ℕ) (res : AvailableResources) (u : AreUint32 res) where
  -- A selection with the first limit fits when the limit does and the rest fits what it leaves.
  pub Fits-with :
      (f : ℕ → Bool)
      → f i ≡ true
      → limit_fits_resources l res ≡ true
      → Fits ls (suc i) f (reduced_resources l res)
      → Fits (l ∷ ls) i f res
  unfolding usage limit_fits_resources reduced_resources
  Fits-with f chosen fits p = ground arith

  pub Fits-with_head :
      (f : ℕ → Bool) → f i ≡ true → Fits (l ∷ ls) i f res → limit_fits_resources l res ≡ true
  unfolding usage limit_fits_resources
  Fits-with_head f chosen p = ground arith

  pub Fits-with_tail :
      (f : ℕ → Bool)
      → f i ≡ true
      → Fits (l ∷ ls) i f res
      → Fits ls (suc i) f (reduced_resources l res)
  unfolding usage reduced_resources
  Fits-with_tail f chosen p = ground arith

  pub Fits-without : (f : ℕ → Bool) → f i ≡ false → Fits ls (suc i) f res → Fits (l ∷ ls) i f res
  unfolding usage
  Fits-without f left p = ground arith

  pub Fits-without_tail :
      (f : ℕ → Bool) → f i ≡ false → Fits (l ∷ ls) i f res → Fits ls (suc i) f res
  unfolding usage
  Fits-without_tail f left p = ground arith

  -- A selection that takes the first limit and the best of what it leaves is the largest of those
  -- that take it.
  pub largest_with :
      (f g : ℕ → Bool)
      → f i ≡ true
      → ((j : ℕ) → suc i ≤ j → f j ≡ g j)
      → IsBest ls (suc i) (reduced_resources l res) g
      → (other : ℕ → Bool) → other i ≡ true
      → Fits (l ∷ ls) i other res
      → size (l ∷ ls) i other ≤ size (l ∷ ls) i f
  unfolding size
  largest_with f g chosen same best other taken p =
      ground
        (arith, best.largest other (Fits-with_tail other taken p), size-ext f g ls (suc i) same)

  pub largest_without :
      (f : ℕ → Bool)
      → f i ≡ false
      → IsBest ls (suc i) res f
      → (other : ℕ → Bool) → other i ≡ false
      → Fits (l ∷ ls) i other res
      → size (l ∷ ls) i other ≤ size (l ∷ ls) i f
  unfolding size
  largest_without f left best other not_taken p =
      ground (arith, best.largest other (Fits-without_tail other not_taken p))

  -- The best of all is one that is as large as every selection with the first limit and as every
  -- selection without it.
  pub IsBest-cons :
      (f : ℕ → Bool)
      → Fits (l ∷ ls) i f res
      → ((other : ℕ → Bool)
          → other i ≡ true
          → Fits (l ∷ ls) i other res
          → size (l ∷ ls) i other ≤ size (l ∷ ls) i f)
      → ((other : ℕ → Bool)
          → other i ≡ false
          → Fits (l ∷ ls) i other res
          → size (l ∷ ls) i other ≤ size (l ∷ ls) i f)
      → IsBest (l ∷ ls) i res f
  IsBest-cons f p taken left = record {
    fits = p;
    largest = λ other q. elim (Bool-cases (other i)) [
      | inl yes' ↦ taken other yes' q
      | inr no' ↦ left other no' q
    ];
  }

-- Nothing is the best selection of no limits.
pub IsBest-nil : (i : ℕ) (res : AvailableResources) (f : ℕ → Bool) → IsBest [] i res f
unfolding usage size
IsBest-nil i res f = record { fits = omega arith; largest = λ other p. omega arith }

pub IsBest-empty :
    (ls : List Limit) (i : ℕ) (res : AvailableResources) (f : ℕ → Bool)
    → length ls ≡ 0
    → IsBest ls i res f
IsBest-empty [] i res f e = IsBest-nil i res f
IsBest-empty (l ∷ ls) i res f e = absurd (omega arith)
