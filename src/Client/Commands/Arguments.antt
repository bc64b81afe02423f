-- ===== src/Client/Commands/Arguments.antt =====
-- The arguments of the commands of client/cmd: one identifier, a class, identifiers of jobs, an image
-- with a command.
use Prim.Native.String.{String}
use scalemate.Prelude.{
  ℕ, ◌≡◌, ◌≢◌, ◌↔◌, ◌⊎◌, refl, true, false, List, [], ◌∷◌, some, length, arith, inl, inr,
  Bool-cases, Option-cases,
}
use scalemate.Client.Flags.{atoi_positive}
use scalemate.Client.Jobs.{CreateJobCmdFlags}
use scalemate.Client.Lists.{ListTasksCmdFlags}
use scalemate.Client.Requests.Own.{SchedulerCommand, creates_job, lists_tasks}
use scalemate.Client.Commands.{
  accepts, exact_args, range_args, maximum_n_args, ClassKind, Cobra, runs, with_id, is_class,
  with_class, JobIds, valid_ids, invalid_id, parse_ids, create_job_cmd, list_of_ids, minimum_n_args,
}

-- The argument is the identifier of the command.
abbrev pub NamesId : (ℕ → SchedulerCommand) → List String → SchedulerCommand → Type 0
NamesId to args c =
    (a : String) × (id : ℕ) × (args ≡ a ∷ []) × (atoi_positive a ≡ some id) × (c ≡ to id)

-- There is no argument, or one that is a class; the class of the command is 0 in both cases.
abbrev pub NamesClass : ClassKind → (ℕ → SchedulerCommand) → List String → SchedulerCommand → Type 0
NamesClass kind to args c =
    ((args ≡ []) ⊎ ((a : String) × (args ≡ a ∷ []) × (is_class kind (atoi_positive a) ≡ true)))
    × (c ≡ to 0)

-- The arguments are these numbers.
abbrev pub AreIds : List String → List ℕ → Type 0
AreIds [] [] = Unit
AreIds (a ∷ args) (id ∷ ids) = (atoi_positive a ≡ some id) × AreIds args ids
AreIds _ _ = ⊥

-- The arguments are an image and a command, which may be left out.
abbrev pub NamesImage : CreateJobCmdFlags → List String → SchedulerCommand → Type 0
NamesImage flags args c =
    ((image : String) × (args ≡ image ∷ []) × (c ≡ creates_job image "" flags))
    ⊎ ((image : String) × (command : String) × (args ≡ image ∷ command ∷ [])
        × (c ≡ creates_job image command flags))

module _ (what : String) (to : ℕ → SchedulerCommand) (c : SchedulerCommand) where
  pub with_id-NamesId :
      (args : List String)
      → ((accepts (exact_args 1) (length args) ≡ true) × (with_id what to args ≡ runs c))
        ↔ NamesId to args c
  unfolding with_id
  with_id-NamesId [] = ((λ (n, e). absurd (ground (arith, n))), λ (a, id, e, p, q). absurd cc)
  with_id-NamesId (a ∷ b ∷ args) =
      ((λ (n, e). absurd (ground (arith, n))), λ (x, id, e, p, q). absurd (ground (arith, e)))
  with_id-NamesId (a ∷ []) = elim (Option-cases (atoi_positive a)) [
    | inl p ↦ (
      (λ (n, e). absurd (ground (arith, e, p))),
      λ (x, id, e, q, r). absurd (ground (arith, e, p, q)),
    )
    | inr (id, p) ↦ (
      (λ (n, e). (a, id, refl, p, ground (arith, e, p))),
      λ (x, i, e, q, r). (ground arith, ground (arith, e, p, q, r)),
    )
  ]

module _ (cobra : Cobra) (kind : ClassKind) (to : ℕ → SchedulerCommand) (c : SchedulerCommand) where
  pub with_class-NamesClass :
      (args : List String)
      → ((accepts (maximum_n_args 1) (length args) ≡ true)
          × (with_class cobra kind to args ≡ runs c))
        ↔ NamesClass kind to args c
  unfolding with_class
  with_class-NamesClass [] =
      ((λ (n, e). (inl refl, ground (arith, e))), λ (o, e). (ground arith, ground (arith, e)))
  with_class-NamesClass (a ∷ b ∷ args) = ((λ (n, e). absurd (ground (arith, n))), too_many)
    where
      too_many :
          NamesClass kind to (a ∷ b ∷ args) c
          → (accepts (maximum_n_args 1) (length (a ∷ b ∷ args)) ≡ true)
            × (with_class cobra kind to (a ∷ b ∷ args) ≡ runs c)
      too_many (inl e, q) = absurd cc
      too_many (inr (x, e, p), q) = absurd (ground (arith, e))
  with_class-NamesClass (a ∷ []) = elim (Bool-cases (is_class kind (atoi_positive a))) [
    | inr p ↦ ((λ (n, e). absurd (ground (arith, e, p))), unknown p)
    | inl p ↦ (
      (λ (n, e). (inr (a, refl, p), ground (arith, e, p))),
      λ (o, e). (ground arith, ground (arith, e, p)),
    )
  ]
    where
      unknown :
          is_class kind (atoi_positive a) ≡ false
          → NamesClass kind to (a ∷ []) c
          → (accepts (maximum_n_args 1) (length (a ∷ [])) ≡ true)
            × (with_class cobra kind to (a ∷ []) ≡ runs c)
      unknown p (inl e, q) = absurd cc
      unknown p (inr (x, e, r), q) = absurd (ground (arith, e, p, r))

JobIds-cases :
    (r : JobIds) → ((a : String) × (r ≡ invalid_id a)) ⊎ ((ids : List ℕ) × (r ≡ valid_ids ids))
JobIds-cases (invalid_id a) = inl (a, refl)
JobIds-cases (valid_ids ids) = inr (ids, refl)

parse_ids-AreIds :
    (args : List String) (ids : List ℕ) → parse_ids args ≡ valid_ids ids → AreIds args ids
unfolding parse_ids
parse_ids-AreIds [] [] e = tt
parse_ids-AreIds [] (id ∷ ids) e = absurd (ground (arith, e))
parse_ids-AreIds (a ∷ args) ids e = elim (Option-cases (atoi_positive a)) [
  | inl p ↦ absurd (ground (arith, e, p))
  | inr (i, p) ↦ elim (JobIds-cases (parse_ids args)) [
    | inl (b, q) ↦ absurd (ground (arith, e, p, q))
    | inr (xs, q) ↦
        let eq : ids ≡ i ∷ xs = ground (arith, e, p, q) in rw eq (p, parse_ids-AreIds args xs q)
  ]
]

AreIds-parse_ids :
    (args : List String) (ids : List ℕ) → AreIds args ids → parse_ids args ≡ valid_ids ids
unfolding parse_ids
AreIds-parse_ids [] [] all = refl
AreIds-parse_ids [] (id ∷ ids) all = absurd all
AreIds-parse_ids (a ∷ args) [] all = absurd all
AreIds-parse_ids (a ∷ args) (id ∷ ids) (p, all) = rw (p, AreIds-parse_ids args ids all) refl

list_of_ids-runs :
    (flags : ListTasksCmdFlags) (c : SchedulerCommand) (r : JobIds)
    → list_of_ids flags r ≡ runs c
    → (ids : List ℕ) × (r ≡ valid_ids ids) × (c ≡ lists_tasks ids flags)
list_of_ids-runs flags c (invalid_id a) e = absurd (ground (arith, e))
list_of_ids-runs flags c (valid_ids ids) e = (ids, refl, ground (arith, e))

pub list_of_ids-AreIds :
    (flags : ListTasksCmdFlags) (args : List String) (c : SchedulerCommand)
    → ((accepts (minimum_n_args 1) (length args) ≡ true)
        × (list_of_ids flags (parse_ids args) ≡ runs c))
      ↔ ((ids : List ℕ) × AreIds args ids × (args ≢ []) × (c ≡ lists_tasks ids flags))
list_of_ids-AreIds flags [] c =
    ((λ (n, e). absurd (ground (arith, n))), λ (ids, all, some_args, e). absurd (some_args refl))
list_of_ids-AreIds flags (a ∷ args) c = (
  (λ (n, e).
      let (ids, p, q) = list_of_ids-runs flags c (parse_ids (a ∷ args)) e in
      (ids, parse_ids-AreIds (a ∷ args) ids p, (λ none_left. cc), q)),
  λ (ids, all, some_args, e). (ground arith, rw (AreIds-parse_ids (a ∷ args) ids all, e) refl),
)

pub create_job_cmd-NamesImage :
    (flags : CreateJobCmdFlags) (args : List String) (c : SchedulerCommand)
    → ((accepts (range_args 1 2) (length args) ≡ true) × (create_job_cmd flags args ≡ runs c))
      ↔ NamesImage flags args c
unfolding create_job_cmd
create_job_cmd-NamesImage flags [] c = ((λ (n, e). absurd (ground (arith, n))), none_given)
  where
    none_given :
        NamesImage flags [] c
        → (accepts (range_args 1 2) (length {A = String} []) ≡ true)
          × (create_job_cmd flags [] ≡ runs c)
    none_given (inl (x, e, q)) = absurd cc
    none_given (inr (x, y, e, q)) = absurd cc
create_job_cmd-NamesImage flags (a ∷ []) c =
    ((λ (n, e). inl (a, refl, ground (arith, e))), one_given)
  where
    one_given :
        NamesImage flags (a ∷ []) c
        → (accepts (range_args 1 2) (length (a ∷ [])) ≡ true)
          × (create_job_cmd flags (a ∷ []) ≡ runs c)
    one_given (inl (x, e, q)) = (ground arith, ground (arith, e, q))
    one_given (inr (x, y, e, q)) = absurd (ground (arith, e))
create_job_cmd-NamesImage flags (a ∷ b ∷ []) c =
    ((λ (n, e). inr (a, b, refl, ground (arith, e))), two_given)
  where
    two_given :
        NamesImage flags (a ∷ b ∷ []) c
        → (accepts (range_args 1 2) (length (a ∷ b ∷ [])) ≡ true)
          × (create_job_cmd flags (a ∷ b ∷ []) ≡ runs c)
    two_given (inl (x, e, q)) = absurd (ground (arith, e))
    two_given (inr (x, y, e, q)) = (ground arith, ground (arith, e, q))
create_job_cmd-NamesImage flags (a ∷ b ∷ d ∷ args) c =
    ((λ (n, e). absurd (ground (arith, n))), too_many)
  where
    too_many :
        NamesImage flags (a ∷ b ∷ d ∷ args) c
        → (accepts (range_args 1 2) (length (a ∷ b ∷ d ∷ args)) ≡ true)
          × (create_job_cmd flags (a ∷ b ∷ d ∷ args) ≡ runs c)
    too_many (inl (x, e, q)) = absurd (ground (arith, e))
    too_many (inr (x, y, e, q)) = absurd (ground (arith, e))
