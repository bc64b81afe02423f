-- ===== src/Limits/With.antt =====
-- The combination that takes the limit at hand: `with_current` returns one that is a best selection
-- behind that limit, and leaves the cache a cache.
use scalemate.Prelude.{
  ℕ, suc, ◌+◌, ◌^◌, ◌≤◌, ◌<◌, ◌≡◌, refl, Bool, true, false, Option, none, some, List, [], ◌∷◌,
  length, arith, Go, returns,
}
use scalemate.Proto.{Limit}
use scalemate.BitArray.{BitArray}
use scalemate.BitArray.Model.{has}
use scalemate.Limits.{AvailableResources, Cache, with_current, reduced_resources}
use scalemate.Limits.Spec.{IsBest}
use scalemate.Limits.Memo.{selected, IsSelection, IsAnswer, IsCache}
use scalemate.Limits.Best.{IsBest-nil}
use scalemate.Limits.Arrays.{single-returns, joined-returns}

-- What is known of a call's result for the limits `ls` from index `i` on.
pub record IsResult (limits : List Limit) (n i : ℕ) (ls : List Limit) (res : AvailableResources)
    (call : Go (Option BitArray × Cache)) : Type 0 where
  pub best_array : Option BitArray
  pub cache : Cache
  pub returned : call ≡ returns (best_array, cache)
  pub answer : IsAnswer n i ls best_array
  pub best : IsBest ls i res (selected best_array)
  pub is_cache : IsCache limits cache

-- `b` takes the limit of index `i` and is a best selection behind it.
pub record IsTaken (i : ℕ) (ls : List Limit) (left : AvailableResources) (b : BitArray)
    : Type 0 where
  pub taken : has b i ≡ true
  pub behind : ℕ → Bool
  pub behind_best : IsBest ls (suc i) left behind
  pub behind_same : (j : ℕ) → suc i ≤ j → has b j ≡ behind j

module _ (limits : List Limit) (n i : ℕ) (l : Limit) (res : AvailableResources) (cache : Cache)
    (rest : Cache → Go (Option BitArray × Cache)) (small : n < 2 ^ 16)
    (is_cache : IsCache limits cache) where
  pub record IsWith (ls : List Limit) (call : Go (Option BitArray × Cache)) : Type 0 where
    pub array : BitArray
    pub cache' : Cache
    pub returned : call ≡ returns (some array, cache')
    pub selection : IsSelection n i (l ∷ ls) array
    pub first : IsTaken i ls (reduced_resources l res) array
    pub is_cache' : IsCache limits cache'

  IsWith-rest :
      (k : Limit) (ls : List Limit)
      → i + suc (suc (length ls)) ≡ n
      → (sub : Option BitArray) (cache' : Cache) → rest cache ≡ returns (sub, cache')
      → IsAnswer n (suc i) (k ∷ ls) sub
      → IsBest (k ∷ ls) (suc i) (reduced_resources l res) (selected sub)
      → IsCache limits cache'
      → IsWith (k ∷ ls) (with_current n i cache rest)
  unfolding with_current
  IsWith-rest k ls e none cache' r a best c =
      let (b, ret, sel, bits) = single-returns n i l (k ∷ ls) e in
      record {
        array = b;
        cache' = cache';
        returned = ground arith;
        selection = sel;
        first = record {
          taken = ground (arith, bits i);
          behind = λ j. false;
          behind_best = best;
          behind_same = λ j p. ground (arith, bits j);
        };
        is_cache' = c;
      }
  IsWith-rest k ls e (some sub) cache' r a best c =
      let (single, ret, sel, bits) = single-returns n i l (k ∷ ls) e in
      let (b, ret', sel', bits') = joined-returns n i l (k ∷ ls) single sub e small sel bits a in
      record {
        array = b;
        cache' = cache';
        returned = ground arith;
        selection = sel';
        first = record {
          taken = ground (arith, bits' i);
          behind = has sub;
          behind_best = best;
          behind_same = λ j p. ground (arith, bits' j);
        };
        is_cache' = c;
      }

  pub with_current-IsWith :
      (ls : List Limit)
      → i + suc (length ls) ≡ n
      → (suc i < n → IsResult limits n (suc i) ls (reduced_resources l res) (rest cache))
      → IsWith ls (with_current n i cache rest)
  unfolding with_current
  with_current-IsWith [] e h =
      let (b, ret, sel, bits) = single-returns n i l [] e in
      record {
        array = b;
        cache' = cache;
        returned = ground arith;
        selection = sel;
        first = record {
          taken = ground (arith, bits i);
          behind = has b;
          behind_best = IsBest-nil (suc i) (reduced_resources l res) (has b);
          behind_same = λ j p. refl;
        };
        is_cache' = is_cache;
      }
  with_current-IsWith (k ∷ ls) e h =
      let r = h (omega arith) in
      IsWith-rest k ls e r.best_array r.cache r.returned r.answer r.best r.is_cache
