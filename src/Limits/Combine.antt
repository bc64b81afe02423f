-- ===== src/Limits/Combine.antt =====
-- The last step of `selectLimits`: the larger of the combination with the limit at hand and the one
-- without it is a best selection.
use scalemate.Prelude.{
  ℕ, suc, ◌≤◌, ◌≡◌, refl, Bool, true, false, Option, none, some, List, [], ◌∷◌, length, arith, ltb,
  Bool-cases, inl, inr, sym,
}
use scalemate.Proto.{Limit}
use scalemate.BitArray.{BitArray, max_set}
use scalemate.BitArray.Model.{has}
use scalemate.Limits.{AvailableResources, limit_fits_resources, reduced_resources}
use scalemate.Limits.Spec.{size, IsBest, Fits, Fits-ext, size-le-length}
use scalemate.Limits.Memo.{selected, IsSelection, IsAnswer}
use scalemate.Limits.Best.{
  AreUint32, Fits-with, Fits-with_head, Fits-without, largest_with, largest_without, IsBest-cons,
}
use scalemate.Limits.With.{IsTaken}

size-none : (ls : List Limit) (i : ℕ) → size ls i (selected none) ≡ 0
unfolding size
size-none [] i = refl
size-none (l ∷ ls) i = omega (arith, size-none ls (suc i))

module _ (n i : ℕ) (l : Limit) (ls : List Limit) (res : AvailableResources)
    (u : AreUint32 res) where
  -- A result for the limits from `i` on.
  abbrev pub IsChosen : Option BitArray → Type 0
  IsChosen r = IsAnswer n i (l ∷ ls) r × IsBest (l ∷ ls) i res (selected r)

  not_selected : (r : Option BitArray) → IsAnswer n (suc i) ls r → selected r i ≡ false
  not_selected none a = refl
  not_selected (some b) a = ground (arith, a.inside i, Bool-cases (has b i))

  IsAnswer-cons : (r : Option BitArray) → IsAnswer n (suc i) ls r → IsAnswer n i (l ∷ ls) r
  IsAnswer-cons none a = tt
  IsAnswer-cons (some b) a = record {
    blocks = a.blocks;
    words = a.words;
    inside = λ j h. omega (arith, a.inside j h);
    counted = unfold size in ground (arith, a.counted, not_selected (some b) a);
  }

  -- What is best without the limit, among all selections that leave it out.
  left_out :
      (r : Option BitArray)
      → IsAnswer n (suc i) ls r
      → IsBest ls (suc i) res (selected r)
      → Fits (l ∷ ls) i (selected r) res
        × ((other : ℕ → Bool)
            → other i ≡ false
            → Fits (l ∷ ls) i other res
            → size (l ∷ ls) i other ≤ size (l ∷ ls) i (selected r))
  left_out r a best =
      let left = not_selected r a in
      (
        Fits-without l ls i res u (selected r) left best.fits,
        largest_without l ls i res u (selected r) left best,
      )

  taken-Fits :
      (b : BitArray)
      → limit_fits_resources l res ≡ true
      → IsTaken i ls (reduced_resources l res) b
      → Fits (l ∷ ls) i (has b) res
  taken-Fits b fits t =
      Fits-with l ls i res u (has b) t.taken fits
        (Fits-ext t.behind (has b) (λ j p. sym (t.behind_same j p)) t.behind_best.fits)

  -- The combination with the limit is the best, if it is as large as the one without.
  as_large :
      (b : BitArray) (r : Option BitArray)
      → limit_fits_resources l res ≡ true
      → IsTaken i ls (reduced_resources l res) b
      → ((other : ℕ → Bool)
          → other i ≡ false
          → Fits (l ∷ ls) i other res
          → size (l ∷ ls) i other ≤ size (l ∷ ls) i (selected r))
      → size (l ∷ ls) i (selected r) ≤ size (l ∷ ls) i (has b)
      → IsBest (l ∷ ls) i res (has b)
  as_large b r fits t left le =
      IsBest-cons l ls i res u (has b) (taken-Fits b fits t)
        (largest_with l ls i res u (has b) t.behind t.taken t.behind_same t.behind_best)
        (λ other q p. omega (arith, left other q p))

  -- The limit does not fit, and the rest has been searched.
  pub skipped-IsChosen :
      (r : Option BitArray)
      → limit_fits_resources l res ≡ false
      → IsAnswer n (suc i) ls r
      → IsBest ls (suc i) res (selected r)
      → IsChosen (max_set none r)
  unfolding max_set
  skipped-IsChosen r misfit a best =
      let (fits, largest) = left_out r a best in
      rw (max_set-none r) (
        IsAnswer-cons r a,
        IsBest-cons l ls i res u (selected r) fits (λ other taken p. absurd (misfits other taken p))
            largest,
      )
    where
      max_set-none : (r : Option BitArray) → max_set none r ≡ r
      max_set-none none = refl
      max_set-none (some b) = refl

      misfits : (other : ℕ → Bool) → other i ≡ true → Fits (l ∷ ls) i other res → ⊥
      misfits other taken p = cc (Fits-with_head l ls i res u other taken p)

  -- The limit is taken, and no selection is larger.
  pub full-IsChosen :
      (b : BitArray)
      → limit_fits_resources l res ≡ true
      → IsSelection n i (l ∷ ls) b
      → IsTaken i ls (reduced_resources l res) b
      → length (l ∷ ls) ≤ size (l ∷ ls) i (has b)
      → IsChosen (max_set (some b) none)
  unfolding max_set
  full-IsChosen b fits a t full = (
    a,
    record {
      fits = taken-Fits b fits t;
      largest = λ other p. omega (arith, size-le-length (l ∷ ls) i other);
    },
  )

  -- The limit is taken, and the rest has been searched without it.
  pub both-IsChosen :
      (b : BitArray) (r : Option BitArray)
      → limit_fits_resources l res ≡ true
      → IsSelection n i (l ∷ ls) b
      → IsTaken i ls (reduced_resources l res) b
      → IsAnswer n (suc i) ls r
      → IsBest ls (suc i) res (selected r)
      → IsChosen (max_set (some b) r)
  unfolding max_set
  both-IsChosen b none fits a t a' best =
      let (fits', largest') = left_out none a' best in
      (a, as_large b none fits t (λ other q p. largest' other q p) nothing)
    where
      nothing : size (l ∷ ls) i (selected none) ≤ size (l ∷ ls) i (has b)
      nothing = omega (arith, size-none (l ∷ ls) i)
  both-IsChosen b (some c) fits a t a' best =
      let (fits', largest') = left_out (some c) a' best in
      let answer = IsAnswer-cons (some c) a' in
      elim (Bool-cases (ltb c.bits_set b.bits_set)) [
        | inl more ↦
            rw more
              (a, as_large b (some c) fits t largest' (ground (arith, a.counted, answer.counted)))
        | inr less ↦ rw less (
          answer,
          IsBest-cons l ls i res u (has c) fits'
              (λ other q p. ground (
                arith,
                a.counted,
                answer.counted,
                largest_with l ls i res u (has b) t.behind t.taken t.behind_same t.behind_best other
                    q p,
              ))
              largest',
        )
      ]
