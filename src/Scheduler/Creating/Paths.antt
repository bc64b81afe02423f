-- ===== src/Scheduler/Creating/Paths.antt =====
-- Which paths scheduler/server/create_job.go accepts, and which jobs.
use mathlib.Core.List.{reverse, reverse_aux, reverse-append}
use Prim.Native.String.{String, [] as empty, ◌∷◌ as ◌∷ₛ◌}
use Prim.Native.Char.{code}
use scalemate.Prelude.{
  ℕ, zero, suc, ◌≡◌, ◌≢◌, refl, Bool, true, false, ◌||◌, List, [], ◌∷◌, ◌++◌, none, arith,
  Bool-cases, inl, inr, if◌then◌else◌, same_text, ◌==◌, length,
}
use scalemate.Client.Flags.{split}
use scalemate.Scheduler.Creating.{
  is_abs, enter, clean, joined_path, relative_to_base, goes_up, validate_relative_path,
}

-- The segments never lead above the directory where they start: `depth` counts those below it.
unfoldable pub stays_inside : ℕ → List String → Bool
stays_inside depth [] = true
stays_inside zero (s ∷ rest) =
    let here = stays_inside zero rest in
    let below = stays_inside 1 rest in
    if same_text s "" || same_text s "." then here else if same_text s ".." then false else below
stays_inside (suc depth) (s ∷ rest) =
    let here = stays_inside (suc depth) rest in
    let above = stays_inside depth rest in
    let below = stays_inside (suc (suc depth)) rest in
    if same_text s "" || same_text s "." then here else if same_text s ".." then above else below

-- None of the segments is `..`.
abbrev IsPlain : List String → Type 0
IsPlain [] = Unit
IsPlain (s ∷ rest) = (same_text s ".." ≡ false) × IsPlain rest

reverse_aux-IsPlain : (xs ys : List String) → IsPlain xs → IsPlain ys → IsPlain (reverse_aux xs ys)
reverse_aux-IsPlain [] ys p q = q
reverse_aux-IsPlain (x ∷ xs) ys p q = reverse_aux-IsPlain xs (x ∷ ys) p.1 (p.0, q)

goes_up-IsPlain : (segments : List String) → IsPlain segments → goes_up segments ≡ false
unfolding goes_up
goes_up-IsPlain [] p = refl
goes_up-IsPlain (s ∷ []) p = refl
goes_up-IsPlain (s ∷ t ∷ rest) p = p.0

-- Paths that stay inside keep what is above their start.
clean-append :
    (above kept segments : List String)
    → IsPlain above
    → stays_inside (length above) segments ≡ true
    → (above' : List String) × IsPlain above' × (clean (above ++ kept) segments ≡ above' ++ kept)
unfolding clean stays_inside enter
clean-append above kept [] plain h = (above, plain, refl)
clean-append [] kept (s ∷ rest) plain h = elim (Bool-cases (same_text s "" || same_text s ".")) [
  | inl p ↦ rw p (clean-append [] kept rest plain (ground (arith, h, p)))
  | inr p ↦ elim (Bool-cases (same_text s "..")) [
    | inl q ↦ absurd (ground (arith, h, p, q))
    | inr q ↦ rw p (rw q (clean-append (s ∷ []) kept rest (q, tt) (ground (arith, h, p, q))))
  ]
]
clean-append (t ∷ above) kept (s ∷ rest) plain h =
    elim (Bool-cases (same_text s "" || same_text s ".")) [
      | inl p ↦ rw p (clean-append (t ∷ above) kept rest plain (ground (arith, h, p)))
      | inr p ↦ elim (Bool-cases (same_text s "..")) [
        | inl q ↦ rw p (rw q (clean-append above kept rest plain.1 (ground (arith, h, p, q))))
        | inr q ↦
            rw p
              (rw q (clean-append (s ∷ t ∷ above) kept rest (q, plain) (ground (arith, h, p, q))))
      ]
    ]

not-is_abs :
    (path s : String) (rest : List String) → split 47 path ≡ s ∷ rest → s ≢ "" → is_abs path ≡ false
unfolding is_abs split
not-is_abs empty s rest e h = refl
not-is_abs (c ∷ₛ path) s rest e h = elim (Bool-cases (code c == 47)) [
  | inl p ↦ absurd (h (ground (arith, e, p)))
  | inr p ↦ p
]

goes_up-base :
    (above : List String)
    → IsPlain above
    → goes_up (relative_to_base (reverse (above ++ "base" ∷ []))) ≡ false
unfolding relative_to_base
goes_up-base above plain =
    rw (reverse-append above ("base" ∷ []))
      (goes_up-IsPlain (reverse above) (reverse_aux-IsPlain above [] plain tt))

-- A relative path whose segments never lead above the directory where they start is accepted.
pub validate_relative_path-inside :
    (path : String)
    → is_abs path ≡ false
    → stays_inside 0 (split 47 path) ≡ true
    → validate_relative_path path ≡ none
unfolding validate_relative_path joined_path
validate_relative_path-inside path relative inside =
    let (above, plain, e) = clean-append [] ("base" ∷ []) (split 47 path) tt inside in
    rw (relative, e, goes_up-base above plain) refl

-- A path that leads up first and then into a directory with the name `base`, which is the name that
-- the check uses for the directory where the path starts, is accepted, though it leads elsewhere.
pub validate_relative_path-escapes :
    (path : String) (rest : List String)
    → split 47 path ≡ ".." ∷ "base" ∷ rest
    → stays_inside 0 rest ≡ true
    → (validate_relative_path path ≡ none) × (stays_inside 0 (split 47 path) ≡ false)
unfolding validate_relative_path joined_path clean enter stays_inside
validate_relative_path-escapes path rest e inside =
    let (above, plain, kept) = clean-append [] ("base" ∷ []) rest tt inside in
    let relative = not-is_abs path ".." ("base" ∷ rest) e (λ same. cc) in
    (rw (relative, e, kept, goes_up-base above plain) refl, rw e refl)
