-- ===== src/Limits/Spec.antt =====
-- What the best selection of limits is. A selection is a set of indexes; it is judged on the
-- limits of a list whose first element has index `i`.
use scalemate.Prelude.{ℕ, suc, ◌+◌, ◌≤◌, ◌≡◌, refl, Bool, true, false, List, [], ◌∷◌, length, arith}
use scalemate.Proto.{Limit}
use scalemate.BitArray.Count.{weight, count_from}
use scalemate.Limits.{AvailableResources}

-- The resource of a limit, where it is chosen.
abbrev pub share : Bool → ℕ → ℕ
share true amount = amount
share false amount = 0

-- What the chosen limits of the list take of one resource.
unfoldable pub usage : (Limit → ℕ) → List Limit → ℕ → (ℕ → Bool) → ℕ
usage amount [] i chosen = 0
usage amount (l ∷ ls) i chosen = share (chosen i) (amount l) + usage amount ls (suc i) chosen

-- How many limits of the list are chosen.
unfoldable pub size : List Limit → ℕ → (ℕ → Bool) → ℕ
size [] i chosen = 0
size (l ∷ ls) i chosen = weight (chosen i) + size ls (suc i) chosen

-- The chosen limits together stay within every resource.
pub record Fits (ls : List Limit) (i : ℕ) (chosen : ℕ → Bool) (res : AvailableResources)
    : Type 0 where
  pub cpu : usage (λ l. l.cpu) ls i chosen ≤ res.cpu
  pub memory : usage (λ l. l.memory) ls i chosen ≤ res.memory
  pub gpu : usage (λ l. l.gpu) ls i chosen ≤ res.gpu
  pub disk : usage (λ l. l.disk) ls i chosen ≤ res.disk

-- It fits, and no selection that fits is larger.
pub record IsBest (ls : List Limit) (i : ℕ) (res : AvailableResources) (chosen : ℕ → Bool)
    : Type 0 where
  pub fits : Fits ls i chosen res
  pub largest : (other : ℕ → Bool) → Fits ls i other res → size ls i other ≤ size ls i chosen

pub size-eq-count :
    (ls : List Limit) (i : ℕ) (f : ℕ → Bool) → size ls i f ≡ count_from i (length ls) f
unfolding size count_from
size-eq-count [] i f = refl
size-eq-count (l ∷ ls) i f = omega (arith, size-eq-count ls (suc i) f)

pub size-le-length : (ls : List Limit) (i : ℕ) (f : ℕ → Bool) → size ls i f ≤ length ls
unfolding size
size-le-length [] i f = omega arith
size-le-length (l ∷ ls) i f = ground (arith, size-le-length ls (suc i) f)

pub size-pos :
    (l : Limit) (ls : List Limit) (i : ℕ) (f : ℕ → Bool) → f i ≡ true → 1 ≤ size (l ∷ ls) i f
unfolding size
size-pos l ls i f h = ground arith

module _ (f g : ℕ → Bool) where
  pub usage-ext :
      (amount : Limit → ℕ) (ls : List Limit) (i : ℕ)
      → ((j : ℕ) → i ≤ j → f j ≡ g j)
      → usage amount ls i f ≡ usage amount ls i g
  unfolding usage
  usage-ext amount [] i h = refl
  usage-ext amount (l ∷ ls) i h =
      ground (arith, h i, usage-ext amount ls (suc i) (λ j p. h j (omega arith)))

  pub size-ext :
      (ls : List Limit) (i : ℕ) → ((j : ℕ) → i ≤ j → f j ≡ g j) → size ls i f ≡ size ls i g
  unfolding size
  size-ext [] i h = refl
  size-ext (l ∷ ls) i h = ground (arith, h i, size-ext ls (suc i) (λ j p. h j (omega arith)))

  pub Fits-ext :
      {ls : List Limit} {i : ℕ} {res : AvailableResources}
      → ((j : ℕ) → i ≤ j → f j ≡ g j)
      → Fits ls i f res
      → Fits ls i g res
  Fits-ext {ls} {i} h p = record {
    cpu = omega (arith, p, usage-ext (λ l. l.cpu) ls i h);
    memory = omega (arith, p, usage-ext (λ l. l.memory) ls i h);
    gpu = omega (arith, p, usage-ext (λ l. l.gpu) ls i h);
    disk = omega (arith, p, usage-ext (λ l. l.disk) ls i h);
  }
