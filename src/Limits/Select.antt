-- ===== src/Limits/Select.antt =====
-- `selectLimits` returns, within the fuel of one call for each limit, and its answer is a best
-- selection.
use scalemate.Prelude.{
  ℕ, zero, suc, ◌+◌, ◌-◌, ◌^◌, ◌≤◌, ◌<◌, ◌≡◌, refl, true, false, Option, none, some, List, [], ◌∷◌,
  length, drop, get_elem?, arith, Go, returns, ltb, Bool-cases, Option-cases, inl, inr, sym, subst,
  if◌then◌else◌, get_elem?-returns, drop-eq-cons, length-drop,
}
use scalemate.Proto.{Limit}
use scalemate.BitArray.{BitArray, max_set}
use scalemate.BitArray.Model.{has}
use scalemate.Limits.{
  AvailableResources, Cache, lookup, with_current, needs_without, select_limits_from, select_limits,
  limit_fits_resources, reduced_resources,
}
use scalemate.Limits.Spec.{size, IsBest, size-pos}
use scalemate.Limits.Memo.{selected, IsSelection, IsAnswer, IsCache, lookup-Solves}
use scalemate.Limits.Best.{AreUint32, reduced-AreUint32, IsBest-empty, IsBest-nil}
use scalemate.Limits.With.{IsTaken, IsResult, with_current-IsWith}
use scalemate.Limits.Combine.{IsChosen, skipped-IsChosen, full-IsChosen, both-IsChosen}

module _ (limits : List Limit) (small : length limits < 2 ^ 16) where
  abbrev n : ℕ
  n = length limits

  -- A call for the limits from index `i` on.
  abbrev IsDone : ℕ → AvailableResources → Go (Option BitArray × Cache) → Type 0
  IsDone i res call = IsResult limits n i (drop i limits) res call

  IsDone-of_lookup :
      (fuel i : ℕ) (res : AvailableResources) (cache : Cache) (v : Option BitArray)
      → i < n
      → IsCache limits cache
      → lookup (record { index = i; res = res }) cache ≡ some v
      → IsDone i res (select_limits_from (suc fuel) limits res i cache)
  unfolding select_limits_from
  IsDone-of_lookup fuel i res cache v lt c found =
      let s = lookup-Solves limits (record { index = i; res = res }) cache c found in
      record {
        best_array = v;
        cache = cache;
        returned = ground arith;
        answer = s.answer;
        best = s.best;
        is_cache = c;
      }

  module _ (fuel i : ℕ) (l : Limit) (res : AvailableResources) (cache : Cache) (lt : i < n)
      (here : get_elem? limits i ≡ some l) (u : AreUint32 res) (c : IsCache limits cache)
      (absent : lookup (record { index = i; res = res }) cache ≡ none)
      (again : (res' : AvailableResources) (cache' : Cache)
        → suc i < n
        → AreUint32 res'
        → IsCache limits cache'
        → IsDone (suc i) res' (select_limits_from fuel limits res' (suc i) cache')) where
    abbrev ls : List Limit
    ls = drop (suc i) limits

    abbrev rest : Cache → Go (Option BitArray × Cache)
    rest c' = select_limits_from fuel limits (reduced_resources l res) (suc i) c'

    -- The call, once its two parts are known.
    step-eq :
        (w o : Option BitArray) (cache1 cache2 : Cache)
        → (if limit_fits_resources l res
            then with_current n i cache rest
            else returns (none, cache))
          ≡ returns (w, cache1)
        → (if needs_without n i w
            then select_limits_from fuel limits res (suc i) cache1
            else returns (none, cache1))
          ≡ returns (o, cache2)
        → select_limits_from (suc fuel) limits res i cache
          ≡ returns (max_set w o, (record { index = i; res = res }, max_set w o) ∷ cache2)
    unfolding select_limits_from
    step-eq w o cache1 cache2 p q = ground arith

    IsDone-of_step :
        (r : Option BitArray) (cache2 : Cache)
        → select_limits_from (suc fuel) limits res i cache
          ≡ returns (r, (record { index = i; res = res }, r) ∷ cache2)
        → IsChosen n i l ls res u r
        → IsCache limits cache2
        → IsDone i res (select_limits_from (suc fuel) limits res i cache)
    IsDone-of_step r cache2 e (answer, best) c2 =
        let split = sym (drop-eq-cons limits i l here) in
        let answer' = subst (λ xs. IsAnswer n i xs r) split answer in
        let best' = subst (λ xs. IsBest xs i res (selected r)) split best in
        record {
          best_array = r;
          cache = (record { index = i; res = res }, r) ∷ cache2;
          returned = e;
          answer = answer';
          best = best';
          is_cache = (record { answer = answer'; best = best' }, c2);
        }

    length-ls : i + suc (length ls) ≡ n
    length-ls = omega (arith, length-drop (suc i) limits)

    leaves_more : (b : BitArray) → needs_without n i (some b) ≡ true → suc i < n
    unfolding needs_without
    leaves_more b more = ground arith

    is_full :
        (b : BitArray)
        → IsSelection n i (l ∷ ls) b
        → IsTaken i ls (reduced_resources l res) b
        → needs_without n i (some b) ≡ false
        → length (l ∷ ls) ≤ size (l ∷ ls) i (has b)
    unfolding needs_without
    is_full b a t full = ground (arith, length-ls, a.counted, size-pos l ls i (has b) t.taken)

    IsDone-misfit :
        limit_fits_resources l res ≡ false
        → IsDone i res (select_limits_from (suc fuel) limits res i cache)
    IsDone-misfit misfit = elim (Bool-cases (ltb i (n - 1))) [
      | inl more ↦ searched (again res cache (ground arith) u c) more
      | inr last ↦
          IsDone-of_step _ cache
            (step-eq none none cache cache (rw misfit) (unfold needs_without in rw last))
            (skipped-IsChosen n i l ls res u none misfit tt (nothing_left last)) c
    ]
      where
        nothing_left : ltb i (n - 1) ≡ false → IsBest ls (suc i) res (selected none)
        nothing_left last = IsBest-empty ls (suc i) res (selected none) (ground (arith, length-ls))

        searched :
            IsDone (suc i) res (select_limits_from fuel limits res (suc i) cache)
            → ltb i (n - 1) ≡ true
            → IsDone i res (select_limits_from (suc fuel) limits res i cache)
        searched r more =
            IsDone-of_step _ r.cache
              (step-eq none r.best_array cache r.cache (rw misfit)
                (unfold needs_without in rw more r.returned))
              (skipped-IsChosen n i l ls res u r.best_array misfit r.answer r.best) r.is_cache

    IsDone-fit :
        limit_fits_resources l res ≡ true
        → IsDone i res (select_limits_from (suc fuel) limits res i cache)
    IsDone-fit fits =
        let w =
          with_current-IsWith limits n i l res cache rest small c ls length-ls
            (λ more. again (reduced_resources l res) cache more (reduced-AreUint32 l res) c) in
        elim (Bool-cases (needs_without n i (some w.array))) [
          | inl more ↦
              let r = again res w.cache' (leaves_more w.array more) u w.is_cache' in
              IsDone-of_step _ r.cache
                (step-eq (some w.array) r.best_array w.cache' r.cache (rw fits w.returned)
                  (rw more r.returned))
                (both-IsChosen n i l ls res u w.array r.best_array fits w.selection w.first r.answer
                  r.best)
                r.is_cache
          | inr full ↦
              IsDone-of_step _ w.cache'
                (step-eq (some w.array) none w.cache' w.cache' (rw fits w.returned) (rw full))
                (full-IsChosen n i l ls res u w.array fits w.selection w.first
                  (is_full w.array w.selection w.first full))
                w.is_cache'
        ]

  pub select_limits_from-IsDone :
      (fuel i : ℕ) (res : AvailableResources) (cache : Cache)
      → n ≤ fuel + i
      → i < n
      → AreUint32 res
      → IsCache limits cache
      → IsDone i res (select_limits_from fuel limits res i cache)
  select_limits_from-IsDone zero i res cache enough lt u c = absurd (omega arith)
  select_limits_from-IsDone (suc fuel) i res cache enough lt u c =
      let again =
        λ (res' : AvailableResources) (cache' : Cache) (more : suc i < n) (u' : AreUint32 res')
            (c' : IsCache limits cache').
          select_limits_from-IsDone fuel (suc i) res' cache' (omega arith) more u' c' in
      let (l, here) = get_elem?-returns limits i lt in
      elim (Option-cases (lookup (record { index = i; res = res }) cache)) [
        | inr (v, found) ↦ IsDone-of_lookup fuel i res cache v lt c found
        | inl absent ↦ elim (Bool-cases (limit_fits_resources l res)) [
          | inl fits ↦ IsDone-fit fuel i l res cache lt here u c absent again fits
          | inr misfit ↦ IsDone-misfit fuel i l res cache lt here u c absent again misfit
        ]
      ]

-- For fewer than 2 ^ 16 limits and uint32 resources `SelectLimits` returns an answer, the bits that
-- are set in it are indexes of limits, `BitsSet` is their number, the limits of these indexes fit
-- the resources together, and no selection of limits that fits has more.
pub select_limits-IsBest :
    (limits : List Limit) (res : AvailableResources)
    → length limits < 2 ^ 16
    → AreUint32 res
    → (r : Option BitArray) × (select_limits limits res ≡ returns r)
      × IsAnswer (length limits) 0 limits r
      × IsBest limits 0 res (selected r)
unfolding select_limits
select_limits-IsBest [] res small u =
    (none, (unfold select_limits_from in refl), tt, IsBest-nil 0 res (selected none))
select_limits-IsBest (l ∷ others) res small u =
    let done =
      select_limits_from-IsDone (l ∷ others) small (suc (length (l ∷ others))) 0 res []
        (omega arith) (omega arith) u tt in
    (done.best_array, ground (arith, done.returned), done.answer, done.best)
