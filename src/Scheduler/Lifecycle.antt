-- ===== src/Scheduler/Lifecycle.antt =====
-- The life of a container: which changes of status `Container.UpdateStatus` makes.
use Prim.Native.String.{String, ◌++◌}
use scalemate.Prelude.{
  ℕ, ℕ_discrete, Bool-cases, ◌||◌, suc, ◌+◌, ◌≤◌, ◌<◌, ◌≡◌, refl, sym, subst, ◌∙◌, ◌↔◌, ◌⊎◌, inl,
  inr, ◌≢◌, Bool, true, false, [], ◌∷◌, arith,
}
use scalemate.Proto.{
  Container, ContainerStatus, new, declined, pending, cancelled, scheduled, running, stopped,
  failed, Event,
}
use scalemate.World.{
  status, failed_precondition, Result-cases, ok, err, number, Env, History, update_container,
}
use scalemate.Scheduler.Container.{
  Masks, status_number, status_transitions, status_name, same_status, one_of, update, update_status,
  is_terminated,
}

-- The transition diagram that the comments on `Container.Status` describe.
pub data Edge : ContainerStatus → ContainerStatus → Type 0 where
  decline : Edge new declined
  submit : Edge new pending
  withdraw : Edge new cancelled
  cancel : Edge pending cancelled
  schedule : Edge pending scheduled
  start : Edge scheduled running
  fail_start : Edge scheduled failed
  stop : Edge running stopped

ruleset edges = (decline, submit, withdraw, cancel, schedule, start, fail_start, stop)

one_of-Edge : (s t : ContainerStatus) → one_of t (status_transitions s) ≡ true → Edge s t
unfolding status_transitions
one_of-Edge s t h = grind (arith, edges)

Edge-one_of : {s t : ContainerStatus} → Edge s t → one_of t (status_transitions s) ≡ true
unfolding status_transitions
Edge-one_of decline = refl
Edge-one_of submit = refl
Edge-one_of withdraw = refl
Edge-one_of cancel = refl
Edge-one_of schedule = refl
Edge-one_of start = refl
Edge-one_of fail_start = refl
Edge-one_of stop = refl

stuck-or-not :
    (s : ContainerStatus)
    → ((same_status s stopped
          || same_status s failed
          || same_status s cancelled
          || same_status s declined)
        ≡ true)
      ↔ ((t : ContainerStatus) → ¬ Edge s t)
stuck-or-not new = ((λ h. cc), λ none_left. absurd (none_left declined decline))
stuck-or-not pending = ((λ h. cc), λ none_left. absurd (none_left cancelled cancel))
stuck-or-not scheduled = ((λ h. cc), λ none_left. absurd (none_left running start))
stuck-or-not running = ((λ h. cc), λ none_left. absurd (none_left stopped stop))
stuck-or-not declined = ((λ _ t e. grind arith), λ _. refl)
stuck-or-not cancelled = ((λ _ t e. elim e [ ]), λ _. refl)
stuck-or-not stopped = ((λ _ t e. elim e [ ]), λ _. refl)
stuck-or-not failed = ((λ _ t e. elim e [ ]), λ _. refl)

-- No change leads out of a status in which the container is terminated, and of no other.
is_terminated_iff :
    (c : Container) → (is_terminated c ≡ true) ↔ ((t : ContainerStatus) → ¬ Edge c.status t)
unfolding is_terminated
is_terminated_iff c = stuck-or-not c.status

not-false : {b : Bool} → b ≡ true → b ≡ false → ⊥
not-false t f = cc

-- How far a status lies from `new`.
abbrev pub stage : ContainerStatus → ℕ
stage new = 0
stage pending = 1
stage scheduled = 2
stage running = 3
stage _ = 4

stage-le : (s : ContainerStatus) → stage s ≤ 4
stage-le s = ground arith

stage-lt : {s t : ContainerStatus} → Edge s t → stage s < stage t
stage-lt decline = omega arith
stage-lt submit = omega arith
stage-lt withdraw = omega arith
stage-lt cancel = omega arith
stage-lt schedule = omega arith
stage-lt start = omega arith
stage-lt fail_start = omega arith
stage-lt stop = omega arith

module _ (env : Env) (masks : Masks) where
  -- `UpdateStatus` of a saved container stores the status along an edge of the diagram. Any other
  -- request, and any on an unsaved container, fails with FailedPrecondition, and makes no call.
  pub update_status-Edge :
      (c : Container) (t : ContainerStatus) (h : History)
      → ((c.id ≢ 0)
          × Edge c.status t
          × (update_status env masks c t h
              ≡ update env masks c (("status", number (status_number t)) ∷ []) h))
        ⊎ (((c.id ≡ 0) ⊎ ¬ Edge c.status t)
            × ((message : String) × (update_status env masks c t h
                  ≡ (err (status failed_precondition message), h))))
  unfolding update_status
  update_status-Edge c t h = elim (ℕ_discrete c.id 0) [
    | yes unsaved ↦
        inr (inl unsaved, ("can't update status for an unsaved Container", ground (arith, unsaved)))
    | no saved ↦ elim (Bool-cases (one_of t (status_transitions c.status))) [
      | inl allowed ↦ inl (saved, one_of-Edge _ _ allowed, ground (arith, saved, allowed))
      | inr refused ↦ inr (
        inr (λ e. not-false (Edge-one_of e) refused),
        (
          "container with status "
              ++ status_name c.status
              ++ " can't be updated to "
              ++ status_name t,
          ground (arith, saved, refused),
        ),
      )
    ]
  ]

-- What PostgreSQL does with the UPDATE of a status: the row that it returns has the id and the
-- status of the statement.
abbrev pub Stores : Env → Type 0
Stores env =
    (t : ContainerStatus) (id : ℕ) (h : History) (row : Container)
    → env.get_container (update_container (("status", number (status_number t)) ∷ []) id) h ≡ ok row
    → (row.id ≡ id) × (row.status ≡ t)

module _ (env : Env) (masks : Masks) where
  -- Calls of `UpdateStatus` that succeed one after the other, with anything between them.
  pub data Run : Container → Container → ℕ → Type 0 where
    done : {c : Container} → Run c c 0
    step :
        {c saved last : Container} {n : ℕ} (t : ContainerStatus) (h h' : History) (e : Event)
        → update_status env masks c t h ≡ (ok (saved, e), h')
        → Run saved last n
        → Run c last (suc n)

  update-Stores :
      Stores env
      → (c : Container) (t : ContainerStatus) (h h' : History) (saved : Container) (e : Event)
      → update env masks c (("status", number (status_number t)) ∷ []) h ≡ (ok (saved, e), h')
      → saved.status ≡ t
  unfolding update
  update-Stores stores c t h h' saved e eq =
      elim (Result-cases
        (env.get_container (update_container (("status", number (status_number t)) ∷ []) c.id) h)) [
          | inl (x, failed_get) ↦ absurd (ground (arith, eq, failed_get))
          | inr (row, got) ↦ ground (arith, eq, got, stores t c.id h row got)
        ]

  step-Edge :
      Stores env
      → (c : Container) (t : ContainerStatus) (h h' : History) (saved : Container) (e : Event)
      → update_status env masks c t h ≡ (ok (saved, e), h')
      → Edge c.status saved.status
  step-Edge stores c t h h' saved e eq = elim (update_status-Edge env masks c t h) [
    | inl (has_id, edge, same) ↦
        subst (λ s. Edge c.status s) (sym (update-Stores stores c t h h' saved e (sym same ∙ eq)))
          edge
    | inr (why, (message, refused)) ↦ absurd (ground (arith, sym refused ∙ eq))
  ]

  -- If the UPDATE stores what it says, n successful calls of `UpdateStatus` in a row lead at least
  -- n stages on: there are at most four of them, and none if the container is terminated.
  pub Run-stage :
      Stores env
      → {c last : Container} {n : ℕ} → Run c last n
      → (n + stage c.status ≤ stage last.status) × (n ≤ 4) × ((is_terminated c ≡ false) ⊎ (n ≡ 0))
  Run-stage stores {c = c} done = (omega arith, omega arith, inr refl)
  Run-stage stores {c = c} {last = last} (step {saved = saved} t h h' e eq run) =
      let edge : Edge c.status saved.status = step-Edge stores c t h h' saved e eq in
      let further : stage c.status < stage saved.status = stage-lt edge in
      let rest = Run-stage stores run in
      let on = rest.0 in
      let top : stage last.status ≤ 4 = stage-le last.status in
      (
        omega arith,
        omega arith,
        live (Bool-cases (is_terminated c))
            (λ final. (is_terminated_iff c).0 final saved.status edge),
      )
    where
      live :
          {m : ℕ} {final : Bool}
          → (final ≡ true) ⊎ (final ≡ false)
          → (final ≡ true → ⊥)
          → (final ≡ false) ⊎ (m ≡ 0)
      live (inl yes_final) not_final = absurd (not_final yes_final)
      live (inr not_yet) not_final = inl not_yet
