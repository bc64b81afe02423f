-- ===== src/Scheduler/Streams/Stuck.antt =====
-- How a node loses its place in scheduler/server/iterate_tasks_for_node.go for good.

use scalemate.Prelude.{
  ℕ, ◌≡◌, refl, [], ◌∷◌, none, some, arith, inl, inr, Option-cases, ◌≢◌, Bool-cases, true, false,
  same_text, same_text→eq,
}
use scalemate.Shared.Auth.{Claims, has_claims}
use scalemate.Proto.{Event}
use scalemate.World.{
  Env, Err, Result, run-cases, ok, err, History, begin, now, status, failed_precondition,
}
use scalemate.Scheduler.Models.{Models}
use scalemate.Scheduler.Streams.{
  NodeStreams, no_streams, Phase, reading, closing, register_node, leave, node_already_connected,
  after_update, connect_node, after_offline, disconnect_node, delete_entry, connecting,
  disconnecting, Connected, connect_known, iterate_tasks_for_node, node_claims,
}
use scalemate.Scheduler.Streams.Steps.{
  Step, connects, disconnects, deletes, Reach, here, next, IsValid, Reach-IsValid,
}

-- The node has an entry, and no stream that would delete it.
pub record IsStuck (node : ℕ) (s : NodeStreams) : Type 0 where
  pub channel : ℕ
  pub entry : s.channel_of node ≡ some channel
  pub ownerless : (c : ℕ) (p : Phase) → s.stream_of c ≢ some (node, p)

module _ (env : Env) (models : Models) (node : ℕ) where
  after_update-IsStuck :
      (n : ℕ) (s : NodeStreams) (r : Result Event × History)
      → IsStuck node s
      → s.channel_of n ≡ none
      → IsStuck node (after_update models n s r).1
  after_update-IsStuck n s (err x, h) stuck free = stuck
  after_update-IsStuck n s (ok e, h) stuck free =
      elim (run-cases (models.publish_changes (e ∷ []) h)) [
        | inl (x, h₁, p) ↦ rw p (record {
          channel = stuck.channel;
          entry = ground (arith, stuck.entry, free);
          ownerless = stuck.ownerless;
        })
        | inr (u, h₁, p) ↦ rw p (record {
          channel = stuck.channel;
          entry = ground (arith, stuck.entry, free);
          ownerless = λ c q is. ground (arith, stuck.ownerless c q, stuck.entry, free, is);
        })
      ]

  connect_node-IsStuck :
      (n : ℕ) (s : NodeStreams) (h : History)
      → IsStuck node s
      → IsStuck node (connect_node env models n s h).1
  unfolding connect_node
  connect_node-IsStuck n s h stuck = elim (Option-cases (s.channel_of n)) [
    | inl free ↦ rw free (
        after_update-IsStuck n s
          (models.update_node n (connecting (env.time (begin ∷ h))) (now ∷ begin ∷ h)) stuck free)
    | inr (c, taken) ↦ rw taken stuck
  ]

  after_offline-IsStuck :
      (n c : ℕ) (s : NodeStreams) (r : Result Event × History)
      → IsStuck node s
      → s.stream_of c ≡ some (n, reading)
      → IsStuck node (after_offline env n c s r).1
  after_offline-IsStuck n c s (ok e, h) stuck is₀ = record {
    channel = stuck.channel;
    entry = stuck.entry;
    ownerless = λ d q is. ground (arith, stuck.ownerless d q, stuck.ownerless c reading, is₀, is);
  }
  after_offline-IsStuck n c s (err x, h) stuck is₀ = record {
    channel = stuck.channel;
    entry = stuck.entry;
    ownerless = λ d q is. ground (arith, stuck.ownerless d q, is);
  }

  delete_entry-IsStuck :
      (n c : ℕ) (s : NodeStreams)
      → IsStuck node s
      → s.stream_of c ≡ some (n, closing)
      → IsStuck node (delete_entry n c s)
  unfolding delete_entry
  delete_entry-IsStuck n c s stuck is₀ = record {
    channel = stuck.channel;
    entry = ground (arith, stuck.entry, stuck.ownerless c closing, is₀);
    ownerless = λ d q is. ground (arith, stuck.ownerless d q, is);
  }

  Step-IsStuck : (s s' : NodeStreams) → Step env models s s' → IsStuck node s → IsStuck node s'
  Step-IsStuck s s' (connects n h e) stuck = rw e (connect_node-IsStuck n s h stuck)
  Step-IsStuck s s' (disconnects n c h is e) stuck =
      rw e (unfold disconnect_node in (after_offline-IsStuck n c s _ stuck is))
  Step-IsStuck s s' (deletes n c is e) stuck = rw e (delete_entry-IsStuck n c s stuck is)

  Reach-IsStuck : {s s' : NodeStreams} → Reach env models s s' → IsStuck node s → IsStuck node s'
  Reach-IsStuck here stuck = stuck
  Reach-IsStuck (next r step) stuck = Step-IsStuck _ _ step (Reach-IsStuck r stuck)

  register_node-IsStuck :
      (s : NodeStreams) → IsValid s → s.channel_of node ≡ none → IsStuck node (register_node node s)
  register_node-IsStuck s v free = record {
    channel = s.next;
    entry = ground arith;
    ownerless = λ c p is. ground (arith, v.registered c node p is, free);
  }

  leave-IsStuck :
      (s : NodeStreams) (c : ℕ)
      → IsValid s
      → s.stream_of c ≡ some (node, reading)
      → IsStuck node (leave c s)
  leave-IsStuck s c v is₀ = record {
    channel = c;
    entry = v.registered c node reading is₀;
    ownerless =
        λ d p is. ground (arith, v.registered d node p, v.registered c node reading is₀, is);
  }

  -- A state in which the node has just failed: its entry was made and the commit failed, or its stream
  -- ended and could not mark the node as offline.
  pub data HasFailed (s : NodeStreams) : NodeStreams → Type 0 where
    not_published :
        (h h₁ h₂ : History) (event : Event) (x : Err) {s' : NodeStreams}
        → s.channel_of node ≡ none
        → models.update_node node (connecting (env.time (begin ∷ h))) (now ∷ begin ∷ h)
          ≡ (ok event, h₁)
        → models.publish_changes (event ∷ []) h₁ ≡ (err x, h₂)
        → s' ≡ (connect_node env models node s h).1
        → HasFailed s s'
    not_offline :
        (c : ℕ) (h h₁ : History) (x : Err) {s' : NodeStreams}
        → s.stream_of c ≡ some (node, reading)
        → models.update_node node (disconnecting (env.time (begin ∷ h))) (now ∷ begin ∷ h)
          ≡ (err x, h₁)
        → s' ≡ (disconnect_node env models node c s h).1
        → HasFailed s s'

  HasFailed-IsStuck : {s s' : NodeStreams} → IsValid s → HasFailed s s' → IsStuck node s'
  unfolding connect_node disconnect_node
  HasFailed-IsStuck {s} v (not_published h h₁ h₂ event x free p q e) =
      rw e (rw (free, p, q) (register_node-IsStuck s v free))
  HasFailed-IsStuck {s} v (not_offline c h h₁ x is p e) = rw e (rw p (leave-IsStuck s c v is))

  -- How a request of a node is refused: by the status that was read or by its entry.
  pub data IsRefused (s : NodeStreams) (n : models.NodeModel) (r : Connected) : Type 0 where
    is_online :
        models.node_is_online n ≡ true
        → r.0 ≡ err (status failed_precondition "this Node is already online (receiving Tasks)")
        → r.1 ≡ s
        → IsRefused s n r
    is_connected :
        models.node_is_online n ≡ false
        → r.0 ≡ err node_already_connected
        → r.1 ≡ s
        → IsRefused s n r

  connect_known-IsRefused :
      (s : NodeStreams) (n : models.NodeModel) (h : History)
      → IsStuck (models.node_id n) s
      → IsRefused s n (connect_known env models s (ok n, h))
  unfolding connect_node
  connect_known-IsRefused s n h stuck = elim (Bool-cases (models.node_is_online n)) [
    | inl p ↦ is_online p (rw p refl) (rw p refl)
    | inr p ↦ is_connected p (rw (p, stuck.entry) refl) (rw (p, stuck.entry) refl)
  ]

  -- A node that failed once while it connected, because its event was not published, or while it
  -- disconnected, because its status was not stored, is refused for ever: in each state that the server
  -- reaches afterwards, a request of the node to iterate over its tasks, with the claims of a node and
  -- where the node is found, is answered by the error that the node is online already, if its row says
  -- so, or else by `ErrNodeAlreadyConnected`, and changes no channel.
  pub iterate_tasks_for_node-IsRefused :
      {s s' t : NodeStreams} (c : Claims) (n : models.NodeModel) (h h' : History)
      → Reach env models no_streams s
      → HasFailed s s'
      → Reach env models s' t
      → c.node_name ≢ ""
      → models.get_node c.username c.node_name h ≡ (ok n, h')
      → models.node_id n ≡ node
      → IsRefused t n (iterate_tasks_for_node env models (has_claims c) t h)
  unfolding iterate_tasks_for_node node_claims
  iterate_tasks_for_node-IsRefused {s} {s'} {t} c n h h' before failed after named found same =
      let stuck : IsStuck (models.node_id n) t =
        rw same
          (Reach-IsStuck after (HasFailed-IsStuck (Reach-IsValid env models before) failed)) in
      let unnamed : same_text c.node_name "" ≡ false =
        elim (Bool-cases (same_text c.node_name "")) [
          | inl p ↦ absurd (named (same_text→eq c.node_name "" p))
          | inr p ↦ p
        ] in
      rw (unnamed, found) (connect_known-IsRefused t n h' stuck)
