-- ===== src/Client/Commands/ListFlags/Given.antt =====
-- client/cmd/nodes.go: which values the flags of `scalemate nodes list` can have.
use Prim.Native.String.{String}
use scalemate.Prelude.{
  ℕ, ◌^◌, ◌*◌, ◌%◌, ◌≡◌, ◌∙◌, ap, refl, Bool, true, List, [], ◌∷◌, ◌++◌, ◌&&◌, ltb, leb, map, arith,
}
use scalemate.Client.Lists.{ListNodesCmdFlags}
use scalemate.Client.Commands.FlagSets.{apply_flags, apply_flags-map}
use scalemate.Client.Commands.ListFlags.{
  status_flag, order_flag, limit_flag, offset_flag, NodesListFlag, nodes_page_flag, cpu_flag,
  cpu_class_flag, memory_flag, gpu_flag, gpu_class_flag, disk_flag, disk_class_flag,
  tasks_finished_flag, tasks_failed_flag, cpu_label_flag, gpu_label_flag, disk_label_flag,
  memory_label_flag, username_label_flag, name_label_flag, other_label_flag, default_list_nodes,
  set_nodes_flag,
}

-- The numbers of the types of the flags, from 0 on.
abbrev fits : ℕ → ℕ → Bool
fits bits n = ltb n (2 ^ bits)

abbrev all_fit : ℕ → List ℕ → Bool
all_fit bits [] = true
all_fit bits (n ∷ ns) = fits bits n && all_fit bits ns

-- The bits of a float32 that is a number or infinite.
abbrev is_float : ℕ → Bool
is_float n = fits 32 n && leb (n % 2 ^ 31) (255 * 2 ^ 23)

-- The values that there is a text for, as the library for flags documents it: the numbers of the type,
-- the floats but for NaN, and every text.
abbrev pub is_accepted : NodesListFlag → Bool
is_accepted (nodes_page_flag (status_flag v vs)) = all_fit 63 (v ∷ vs)
is_accepted (nodes_page_flag (order_flag n)) = fits 31 n
is_accepted (nodes_page_flag (limit_flag n)) = fits 32 n
is_accepted (nodes_page_flag (offset_flag n)) = fits 32 n
is_accepted (cpu_flag n) = is_float n
is_accepted (cpu_class_flag n) = fits 31 n
is_accepted (memory_flag n) = fits 32 n
is_accepted (gpu_flag n) = fits 32 n
is_accepted (gpu_class_flag n) = fits 31 n
is_accepted (disk_flag n) = fits 32 n
is_accepted (disk_class_flag n) = fits 31 n
is_accepted (tasks_finished_flag n) = fits 64 n
is_accepted (tasks_failed_flag n) = fits 64 n
is_accepted _ = true

abbrev pub are_accepted : List NodesListFlag → Bool
are_accepted [] = true
are_accepted (flag ∷ flags) = is_accepted flag && are_accepted flags

-- The values that the fields can hold, but for negative numbers and NaN.
pub record HasTypes (f : ListNodesCmdFlags) : Type 0 where
  pub statuses : all_fit 63 f.status ≡ true
  pub orders : fits 31 f.ordering ≡ true
  pub page : (fits 32 f.limit && fits 32 f.offset) ≡ true
  pub cpus : (is_float f.cpu_available && fits 31 f.cpu_class) ≡ true
  pub memories : fits 32 f.memory_available ≡ true
  pub gpus : (fits 32 f.gpu_available && fits 31 f.gpu_class) ≡ true
  pub disks : (fits 32 f.disk_available && fits 31 f.disk_class) ≡ true
  pub tasks : (fits 64 f.tasks_finished && fits 64 f.tasks_failed) ≡ true

-- No flag where there is no status.
abbrev pub status_flags : List ℕ → List NodesListFlag
status_flags [] = []
status_flags (v ∷ vs) = nodes_page_flag (status_flag v vs) ∷ []

-- The flags with one value.
abbrev number_flags : ListNodesCmdFlags → List NodesListFlag
number_flags f =
    nodes_page_flag (order_flag f.ordering)
    ∷ nodes_page_flag (limit_flag f.limit)
    ∷ nodes_page_flag (offset_flag f.offset)
    ∷ cpu_flag f.cpu_available
    ∷ cpu_class_flag f.cpu_class
    ∷ memory_flag f.memory_available
    ∷ gpu_flag f.gpu_available
    ∷ gpu_class_flag f.gpu_class
    ∷ disk_flag f.disk_available
    ∷ disk_class_flag f.disk_class
    ∷ tasks_finished_flag f.tasks_finished
    ∷ tasks_failed_flag f.tasks_failed
    ∷ []

-- Flags for all the values of a list of nodes.
unfoldable pub nodes_flags_of : ListNodesCmdFlags → List NodesListFlag
nodes_flags_of f =
    map cpu_label_flag f.cpu_labels
    ++ (map gpu_label_flag f.gpu_labels
        ++ (map disk_label_flag f.disk_labels
            ++ (map memory_label_flag f.memory_labels
                ++ (map username_label_flag f.username_labels
                    ++ (map name_label_flag f.name_labels
                        ++ (map other_label_flag f.other_labels
                            ++ (status_flags f.status ++ number_flags f)))))))

texts-are_accepted :
    (flag : String → NodesListFlag) (values : List String) (rest : List NodesListFlag)
    → ((v : String) → is_accepted (flag v) ≡ true)
    → are_accepted rest ≡ true
    → are_accepted (map flag values ++ rest) ≡ true
texts-are_accepted flag [] rest each all = all
texts-are_accepted flag (v ∷ values) rest each all =
    ground (arith, each v, texts-are_accepted flag values rest each all)

status_flags-are_accepted :
    (vs : List ℕ) (rest : List NodesListFlag)
    → all_fit 63 vs ≡ true
    → are_accepted rest ≡ true
    → are_accepted (status_flags vs ++ rest) ≡ true
status_flags-are_accepted [] rest fit all = all
status_flags-are_accepted (v ∷ vs) rest fit all = ground (arith, fit, all)

number_flags-are_accepted :
    (f : ListNodesCmdFlags) → HasTypes f → are_accepted (number_flags f) ≡ true
number_flags-are_accepted f t =
    ground (arith, t.orders, t.page, t.cpus, t.memories, t.gpus, t.disks, t.tasks)

nodes_flags_of-are_accepted :
    (f : ListNodesCmdFlags) → HasTypes f → are_accepted (nodes_flags_of f) ≡ true
unfolding nodes_flags_of
nodes_flags_of-are_accepted f t =
    texts-are_accepted cpu_label_flag f.cpu_labels _ (λ v. refl)
      (texts-are_accepted gpu_label_flag f.gpu_labels _ (λ v. refl)
        (texts-are_accepted disk_label_flag f.disk_labels _ (λ v. refl)
          (texts-are_accepted memory_label_flag f.memory_labels _ (λ v. refl)
            (texts-are_accepted username_label_flag f.username_labels _ (λ v. refl)
              (texts-are_accepted name_label_flag f.name_labels _ (λ v. refl)
                (texts-are_accepted other_label_flag f.other_labels _ (λ v. refl)
                  (status_flags-are_accepted f.status _ t.statuses
                    (number_flags-are_accepted f t))))))))

module _ (add_text : List String → String → List String) (add_numbers : List ℕ → List ℕ → List ℕ)
    (text_adds : (xs : List String) (x : String) → add_text xs x ≡ xs ++ x ∷ [])
    (numbers_add : (xs : List ℕ) (y : ℕ) (ys : List ℕ)
      → add_numbers xs (y ∷ ys) ≡ xs ++ y ∷ ys) where
  array_flag :
      (flag : String → NodesListFlag) (put : ListNodesCmdFlags → List String → ListNodesCmdFlags)
      → ((g : ListNodesCmdFlags) (xs : List String) (v : String)
          → set_nodes_flag add_text add_numbers (flag v) (put g xs) ≡ put g (add_text xs v))
      → (values : List String) (rest : List NodesListFlag) (g : ListNodesCmdFlags) → g ≡ put g []
      → apply_flags (set_nodes_flag add_text add_numbers) (map flag values ++ rest) g
        ≡ apply_flags (set_nodes_flag add_text add_numbers) rest (put g values)
  array_flag flag put sets =
      apply_flags-map (set_nodes_flag add_text add_numbers) flag put
        λ g xs v. sets g xs v ∙ ap (put g) (text_adds xs v)

  set_statuses :
      (vs : List ℕ) (rest : List NodesListFlag) (g : ListNodesCmdFlags)
      → g ≡ record g { status = [] }
      → apply_flags (set_nodes_flag add_text add_numbers) (status_flags vs ++ rest) g
        ≡ apply_flags (set_nodes_flag add_text add_numbers) rest (record g { status = vs })
  unfolding apply_flags set_nodes_flag
  set_statuses [] rest g e = ap (apply_flags (set_nodes_flag add_text add_numbers) rest) e
  set_statuses (v ∷ vs) rest g e = ap (apply_flags (set_nodes_flag add_text add_numbers) rest) (
      ap (λ (x : ListNodesCmdFlags). record g { status = add_numbers x.status (v ∷ vs) }) e
      ∙ ap (λ xs. record g { status = xs }) (numbers_add [] v vs))

  -- Every list of nodes can be asked for, if its numbers are not negative and of the types of the fields,
  -- and the float is not NaN: there are flags that are all accepted and that set its values; if one
  -- more text is added to the end of an array, and more numbers, one at least, to the end of a slice.
  pub apply_flags-nodes_flags_of :
      (f : ListNodesCmdFlags)
      → HasTypes f
      → (are_accepted (nodes_flags_of f) ≡ true)
        × (apply_flags (set_nodes_flag add_text add_numbers) (nodes_flags_of f) default_list_nodes
            ≡ f)
  unfolding set_nodes_flag nodes_flags_of apply_flags
  apply_flags-nodes_flags_of f t = (
    nodes_flags_of-are_accepted f t,
    array_flag cpu_label_flag (λ g v. record g { cpu_labels = v }) (λ g xs v. refl) f.cpu_labels _ _
          refl
        ∙ array_flag gpu_label_flag (λ g v. record g { gpu_labels = v }) (λ g xs v. refl)
            f.gpu_labels _ _ refl
        ∙ array_flag disk_label_flag (λ g v. record g { disk_labels = v }) (λ g xs v. refl)
            f.disk_labels _ _ refl
        ∙ array_flag memory_label_flag (λ g v. record g { memory_labels = v }) (λ g xs v. refl)
            f.memory_labels _ _ refl
        ∙ array_flag username_label_flag (λ g v. record g { username_labels = v }) (λ g xs v. refl)
            f.username_labels _ _ refl
        ∙ array_flag name_label_flag (λ g v. record g { name_labels = v }) (λ g xs v. refl)
            f.name_labels _ _ refl
        ∙ array_flag other_label_flag (λ g v. record g { other_labels = v }) (λ g xs v. refl)
            f.other_labels _ _ refl
        ∙ set_statuses f.status _ _ refl,
  )
