-- ===== src/Client/Numerals.antt =====
-- What the texts of client/scheduler/flags.go are to be: decimal numbers, and two texts with a colon
-- between them.
use Prim.Native.String.{String, [] as empty, ◌∷◌ as ◌∷ₛ◌, ◌++◌ as ◌++ₛ◌}
use Prim.Native.String.append
use Prim.Native.Char.{Char, code}
use native.Mathlib.Nat.{pow-suc}
use scalemate.Prelude.{
  ℕ, ◌+◌, ◌-◌, ◌*◌, ◌^◌, ◌≤◌, ◌<◌, ◌≡◌, ◌≢◌, ◌⊎◌, ◌∙◌, refl, sym, ap, ◌&&◌, true, false, List, [],
  ◌∷◌, some, arith, inl, inr, Bool-cases, Option-cases, leb, ◌==◌, length,
}
use scalemate.Client.Flags.{digits, in_range, atoi_positive, split, prepend}

-- The text consists of these decimal digits.
abbrev pub AreDigits : String → List ℕ → Type 0
AreDigits empty [] = Unit
AreDigits (c ∷ₛ s) (d ∷ ds) = (d ≤ 9) × (code c ≡ 48 + d) × AreDigits s ds
AreDigits _ _ = ⊥

-- The number that decimal digits stand for.
abbrev pub value : List ℕ → ℕ
value [] = 0
value (d ∷ ds) = d * 10 ^ length ds + value ds

-- A positive number below 2 ^ 63 in decimal digits, perhaps with a plus sign before them.
pub record IsNumeral (s : String) (n : ℕ) : Type 0 where
  pub written : List ℕ
  pub spelled :
      AreDigits s written
      ⊎ ((c : Char) × (t : String) × (s ≡ c ∷ₛ t) × (code c ≡ 43) × AreDigits t written)
  pub worth : value written ≡ n
  pub positive : 0 < n
  pub bounded : n < 2 ^ 63

-- One more digit before a number.
next_digit : (n d p v : ℕ) → (n * 10 + d) * p + v ≡ n * (p * 10) + (d * p + v)
next_digit n d p v = omega arith

digits-value :
    (s : String) (n : ℕ) (ds : List ℕ)
    → AreDigits s ds
    → digits n s ≡ some (n * 10 ^ length ds + value ds)
unfolding digits
digits-value empty n [] all = ground arith
digits-value (c ∷ₛ s) n (d ∷ ds) (small, is, all) =
    let fits : (leb 48 (code c) && leb (code c) 57) ≡ true = ground (arith, small, is) in
    let less : n * 10 + (code c - 48) ≡ n * 10 + d = omega (arith, is) in
    rw (fits, less, pow-suc 10 (length ds))
      (digits-value s (n * 10 + d) ds all ∙ ap some (next_digit n d (10 ^ length ds) (value ds)))
digits-value empty n (d ∷ ds) all = absurd all
digits-value (c ∷ₛ s) n [] all = absurd all

digits-AreDigits : (s : String) (n m : ℕ) → digits n s ≡ some m → (ds : List ℕ) × AreDigits s ds
unfolding digits
digits-AreDigits empty n m e = ([], tt)
digits-AreDigits (c ∷ₛ s) n m e = elim (Bool-cases (leb 48 (code c) && leb (code c) 57)) [
  | inr p ↦ absurd (ground (arith, e, p))
  | inl p ↦
      let (ds, all) = digits-AreDigits s (n * 10 + (code c - 48)) m (ground (arith, e, p)) in
      ((code c - 48) ∷ ds, (ground (arith, p), ground (arith, p), all))
]

pub atoi_positive-IsNumeral : (s : String) (n : ℕ) → atoi_positive s ≡ some n → IsNumeral s n
unfolding atoi_positive
atoi_positive-IsNumeral empty n e = absurd cc
atoi_positive-IsNumeral (c ∷ₛ s) n e = elim (Bool-cases (code c == 43)) [
  | inl p ↦ elim (Option-cases (digits 0 s)) [
    | inl q ↦ absurd (ground (arith, e, p, q))
    | inr (m, q) ↦
        let (ds, all) = digits-AreDigits s 0 m q in
        record {
          written = ds;
          spelled = inr (c, s, refl, ground (arith, p), all);
          worth = ground (arith, digits-value s 0 ds all, e, p, q);
          positive = ground (arith, e, p, q);
          bounded = ground (arith, e, p, q);
        }
  ]
  | inr p ↦ elim (Option-cases (digits 0 (c ∷ₛ s))) [
    | inl q ↦ absurd (ground (arith, e, p, q))
    | inr (m, q) ↦
        let (ds, all) = digits-AreDigits (c ∷ₛ s) 0 m q in
        record {
          written = ds;
          spelled = inl all;
          worth = ground (arith, digits-value (c ∷ₛ s) 0 ds all, e, p, q);
          positive = ground (arith, e, p, q);
          bounded = ground (arith, e, p, q);
        }
  ]
]

in_range-some : (n : ℕ) → 0 < n → n < 2 ^ 63 → in_range (some n) ≡ some n
in_range-some n positive bounded = ground (arith, positive, bounded)

no_digits : {n : ℕ} (ds : List ℕ) → AreDigits empty ds → value ds ≡ n → 0 < n → ⊥
no_digits [] all e positive = omega (arith, e, positive)
no_digits (d ∷ ds) all e positive = all

no_sign : (c : Char) (t : String) (ds : List ℕ) → AreDigits (c ∷ₛ t) ds → (code c == 43) ≡ false
no_sign c t [] all = absurd all
no_sign c t (d ∷ ds) (small, is, all) = ground (arith, small, is)

pub IsNumeral-atoi_positive : (s : String) (n : ℕ) → IsNumeral s n → atoi_positive s ≡ some n
unfolding atoi_positive
IsNumeral-atoi_positive s n is = spelled s is.spelled
  where
    in_digits : (t : String) → AreDigits t is.written → in_range (digits 0 t) ≡ some n
    in_digits t all =
        let read : digits 0 t ≡ some n =
          ground (arith, digits-value t 0 is.written all, is.worth) in
        rw read (in_range-some n is.positive is.bounded)

    spelled :
        (t : String)
        → AreDigits t is.written
          ⊎ ((c : Char) × (u : String) × (t ≡ c ∷ₛ u) × (code c ≡ 43) × AreDigits u is.written)
        → atoi_positive t ≡ some n
    spelled t (inr (c, u, e, sign, all)) = rw (e, sign) (in_digits u all)
    spelled empty (inl all) = absurd (no_digits is.written all is.worth is.positive)
    spelled (c ∷ₛ t) (inl all) =
        let unsigned : (code c == 43) ≡ false = no_sign c t is.written all in
        rw unsigned (in_digits (c ∷ₛ t) all)

-- The text has no colon.
abbrev pub HasNoColon : String → Type 0
HasNoColon empty = Unit
HasNoColon (c ∷ₛ s) = (code c ≢ 58) × HasNoColon s

-- Two texts with a colon between them, and no other colon.
abbrev pub IsPair : String → String → String → Type 0
IsPair s a b =
    (colon : Char) × (code colon ≡ 58) × (s ≡ a ++ₛ (colon ∷ₛ b)) × HasNoColon a × HasNoColon b

nil-append : (t : String) → empty ++ₛ t ≡ t
nil-append t = λ i. append.nil t i

cons-append : (c : Char) (s t : String) → (c ∷ₛ s) ++ₛ t ≡ c ∷ₛ (s ++ₛ t)
cons-append c s t = λ i. append.cons c s t i

prepend-ends :
    (c : Char) (s p : String) (parts : List String)
    → parts ≢ []
    → prepend c parts ≡ p ∷ []
    → (q : String) × (parts ≡ q ∷ []) × (p ≡ c ∷ₛ q)
prepend-ends c s p [] some_part e = absurd (some_part refl)
prepend-ends c s p (q ∷ []) some_part e = (q, refl, ground (arith, e))
prepend-ends c s p (q ∷ r ∷ parts) some_part e = absurd (ground (arith, e))

prepend-pair :
    (c : Char) (a b : String) (parts : List String)
    → prepend c parts ≡ a ∷ b ∷ []
    → (q : String) × (parts ≡ q ∷ b ∷ []) × (a ≡ c ∷ₛ q)
prepend-pair c a b [] e = absurd (ground (arith, e))
prepend-pair c a b (q ∷ []) e = absurd (ground (arith, e))
prepend-pair c a b (q ∷ r ∷ []) e = (q, ground (arith, e), ground (arith, e))
prepend-pair c a b (q ∷ r ∷ t ∷ parts) e = absurd (ground (arith, e))

prepend-nonempty : (c : Char) (parts : List String) → prepend c parts ≢ []
prepend-nonempty c [] = λ e. cc
prepend-nonempty c (p ∷ parts) = λ e. cc

split-nonempty : (s : String) → split 58 s ≢ []
unfolding split
split-nonempty empty e = absurd cc
split-nonempty (c ∷ₛ s) e = elim (Bool-cases (code c == 58)) [
  | inl p ↦ absurd (ground (arith, e, p))
  | inr p ↦ prepend-nonempty c (split 58 s) (ground (arith, e, p))
]

split-HasNoColon : (s p : String) → split 58 s ≡ p ∷ [] → (p ≡ s) × HasNoColon s
unfolding split
split-HasNoColon empty p e = (ground (arith, e), tt)
split-HasNoColon (c ∷ₛ s) p e = elim (Bool-cases (code c == 58)) [
  | inl k ↦ absurd (split-nonempty s (ground (arith, e, k)))
  | inr k ↦
      let (q, f, g) = prepend-ends c s p (split 58 s) (split-nonempty s) (ground (arith, e, k)) in
      let (same, none_there) = split-HasNoColon s q f in
      (rw (g, same) refl, (ground (arith, k), none_there))
]

pub split-IsPair : (s a b : String) → split 58 s ≡ a ∷ b ∷ [] → IsPair s a b
unfolding split
split-IsPair empty a b e = absurd (ground (arith, e))
split-IsPair (c ∷ₛ s) a b e = elim (Bool-cases (code c == 58)) [
  | inl k ↦
      let first : a ≡ empty = ground (arith, e, k) in
      let (same, none_there) = split-HasNoColon s b (ground (arith, e, k)) in
      (
        c,
        ground (arith, k),
        rw (first, same) (sym (nil-append (c ∷ₛ s))),
        rw first tt,
        rw same none_there,
      )
  | inr k ↦
      let (q, f, g) = prepend-pair c a b (split 58 s) (ground (arith, e, k)) in
      let (colon, is, joined, none_before, none_after) = split-IsPair s q b f in
      (
        colon,
        is,
        rw (g, joined) (sym (cons-append c q (colon ∷ₛ b))),
        rw g (ground (arith, k), none_before),
        none_after,
      )
]

HasNoColon-split : (s : String) → HasNoColon s → split 58 s ≡ s ∷ []
unfolding split
HasNoColon-split empty none_there = refl
HasNoColon-split (c ∷ₛ s) (k, none_there) = ground (arith, k, HasNoColon-split s none_there)

pub IsPair-split :
    (colon : Char) (a b : String)
    → code colon ≡ 58
    → HasNoColon a
    → HasNoColon b
    → split 58 (a ++ₛ (colon ∷ₛ b)) ≡ a ∷ b ∷ []
unfolding split
IsPair-split colon empty b is none_before none_after =
    rw (nil-append (colon ∷ₛ b)) (ground (arith, is, HasNoColon-split b none_after))
IsPair-split colon (c ∷ₛ a) b is (k, none_before) none_after =
    let rest = IsPair-split colon a b is none_before none_after in
    rw (cons-append c a (colon ∷ₛ b)) (ground (arith, k, rest))
