-- ===== src/Scheduler/Saved.antt =====
-- What the scheduler's models write when they are created, and what they read.
use Prim.Native.String.{String}
use scalemate.Prelude.{ℕ, ◌≡◌, inl, inr, List, [], ◌∷◌, Option-cases, arith}
use scalemate.Proto.{Node, Container, Event, scheduler_node, scheduler_container}
use scalemate.World.{
  Env, History, query, new_uuid, now, Result-cases, ok, insert_node, insert_node_label,
  insert_container, insert_container_label, run-cases,
}
use scalemate.Shared.Events.{new_event}
use scalemate.Scheduler.Container.{Masks, insert_columns, create_label, create_labels, create}
use scalemate.Scheduler.Nodes.{
  NodeMasks, node_to_proto, create_node_label, create_node_labels, insert_node_columns, create_node,
}

-- The insertions of labels, the last one first, after the history.
abbrev pub node_label_calls : ℕ → List String → History → History
node_label_calls id [] h = h
node_label_calls id (label ∷ labels) h =
    node_label_calls id labels (query (insert_node_label id label) ∷ h)

abbrev pub container_label_calls : ℕ → List String → History → History
container_label_calls id [] h = h
container_label_calls id (label ∷ labels) h =
    container_label_calls id labels (query (insert_container_label id label) ∷ h)

module _ (env : Env) where
  create_node_labels-ok :
      (id : ℕ) (labels : List String) (h : History) {h' : History}
      → create_node_labels env id labels h ≡ (ok tt, h')
      → h' ≡ node_label_calls id labels h
  unfolding create_node_labels create_node_label
  create_node_labels-ok id [] h eq = ground (arith, eq)
  create_node_labels-ok id (label ∷ labels) h eq =
      elim (Option-cases (env.exec (insert_node_label id label) h)) [
        | inr (x, failed) ↦ absurd (ground (arith, eq, failed))
        | inl done ↦ create_node_labels-ok id labels _ (ground (arith, eq, done))
      ]

  create_labels-ok :
      (id : ℕ) (labels : List String) (h : History) {h' : History}
      → create_labels env id labels h ≡ (ok tt, h')
      → h' ≡ container_label_calls id labels h
  unfolding create_labels create_label
  create_labels-ok id [] h eq = ground (arith, eq)
  create_labels-ok id (label ∷ labels) h eq =
      elim (Option-cases (env.exec (insert_container_label id label) h)) [
        | inr (x, failed) ↦ absurd (ground (arith, eq, failed))
        | inl done ↦ create_labels-ok id labels _ (ground (arith, eq, done))
      ]

  -- If `Node.Create` succeeds then, in this order, it inserted the node and each of its labels under
  -- the id that the database gave, and the event carries the node as it was saved.
  create_node-order :
      (masks : NodeMasks) (n saved : Node) (e : Event) (h h' : History)
      → create_node env masks n h ≡ (ok (saved, e), h')
      → (saved.labels ≡ n.labels)
        × (e.payload ≡ scheduler_node saved)
        × (h'
            ≡ now
              ∷ new_uuid
              ∷ node_label_calls saved.id n.labels
                  (query (insert_node (insert_node_columns n)) ∷ h))
  unfolding create_node node_to_proto new_event
  create_node-order masks n saved e h h' eq =
      elim (Result-cases (env.get_node (insert_node (insert_node_columns n)) h)) [
        | inl (x, failed) ↦ absurd (ground (arith, eq, failed))
        | inr (row, stored) ↦
            elim (run-cases (
              create_node_labels env row.id n.labels
                (query (insert_node (insert_node_columns n)) ∷ h))) [
                  | inl (x, h₁, failed) ↦ absurd (ground (arith, eq, stored, failed))
                  | inr (done, h₁, labelled) ↦
                      let calls = create_node_labels-ok row.id n.labels _ labelled in
                      (
                        ground (arith, eq, stored, labelled),
                        ground (arith, eq, stored, labelled),
                        ground (arith, eq, stored, labelled, calls),
                      )
                ]
      ]

  -- If `Container.Create` succeeds then, in this order, it inserted the container and each of its
  -- labels under the id that the database gave, and the event carries the container as it was saved.
  create-order :
      (masks : Masks) (c saved : Container) (e : Event) (h h' : History)
      → create env masks c h ≡ (ok (saved, e), h')
      → (saved.labels ≡ c.labels)
        × (e.payload ≡ scheduler_container saved)
        × (h'
            ≡ now
              ∷ new_uuid
              ∷ container_label_calls saved.id c.labels
                  (query (insert_container (insert_columns c)) ∷ h))
  unfolding create
  create-order masks c saved e h h' eq =
      elim (Result-cases (env.get_container (insert_container (insert_columns c)) h)) [
        | inl (x, failed) ↦ absurd (ground (arith, eq, failed))
        | inr (row, stored) ↦
            elim (run-cases (
              create_labels env row.id c.labels
                (query (insert_container (insert_columns c)) ∷ h))) [
                  | inl (x, h₁, failed) ↦ absurd (ground (arith, eq, stored, failed))
                  | inr (done, h₁, labelled) ↦
                      let calls = create_labels-ok row.id c.labels _ labelled in
                      (
                        ground (arith, eq, stored, labelled),
                        ground (arith, eq, stored, labelled),
                        ground (arith, eq, stored, labelled, calls),
                      )
                ]
      ]
