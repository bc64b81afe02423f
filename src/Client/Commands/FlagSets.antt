-- ===== src/Client/Commands/FlagSets.antt =====
-- What the flags of a command line do to the values that they set, for the commands of client/cmd.
use scalemate.Prelude.{◌≡◌, ◌∙◌, sym, ap, List, [], ◌∷◌, ◌++◌, map}
use mathlib.Core.List.{append-nil, append_assoc}

-- The flags in their order, each by the function that sets its value.
unfoldable pub apply_flags {ℓ} : {F S : Type ℓ} → (F → S → S) → List F → S → S
apply_flags set [] s = s
apply_flags set (flag ∷ flags) s = apply_flags set flags (set flag s)

-- A flag that adds to the array of one field.
abbrev pub IsArrayFlag {ℓ} : {F S A : Type ℓ} → (F → S → S) → (A → F) → (S → List A → S) → Type ℓ
IsArrayFlag {F} {S} {A} set flag put =
    (s : S) (values : List A) (a : A) → set (flag a) (put s values) ≡ put s (values ++ a ∷ [])

module _ {ℓ} {F S A : Type ℓ} (set : F → S → S) (flag : A → F) (put : S → List A → S)
    (is : IsArrayFlag set flag put) where
  add_values :
      (values : List A) (rest : List F) (s : S) (start : List A)
      → apply_flags set (map flag values ++ rest) (put s start)
        ≡ apply_flags set rest (put s (start ++ values))
  unfolding apply_flags
  add_values [] rest s start = ap (λ xs. apply_flags set rest (put s xs)) (sym (append-nil start))
  add_values (a ∷ values) rest s start =
      ap (λ x. apply_flags set (map flag values ++ rest) x) (is s start a)
      ∙ add_values values rest s (start ++ a ∷ [])
      ∙ ap (λ xs. apply_flags set rest (put s xs)) (append_assoc start (a ∷ []) values)

  -- Such flags, one for each value, set an empty array to the values.
  pub apply_flags-map :
      (values : List A) (rest : List F) (s : S)
      → s ≡ put s []
      → apply_flags set (map flag values ++ rest) s ≡ apply_flags set rest (put s values)
  apply_flags-map values rest s e =
      ap (λ x. apply_flags set (map flag values ++ rest) x) e ∙ add_values values rest s []
