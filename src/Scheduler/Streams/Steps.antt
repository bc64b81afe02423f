-- ===== src/Scheduler/Streams/Steps.antt =====
-- The steps of the streams of scheduler/server/iterate_tasks_for_node.go, and what every state that
-- they reach keeps.

use scalemate.Prelude.{
  ℕ, ◌<◌, ◌≡◌, refl, true, false, [], ◌∷◌, none, some, arith, inl, inr, Option-cases,
}
use scalemate.Proto.{Event}
use scalemate.World.{Env, Result, ok, err, History, begin, now}
use scalemate.Scheduler.Models.{Models}
use scalemate.Scheduler.Streams.{
  NodeStreams, no_streams, Phase, reading, closing, register_node, with_stream, close_channel,
  leave, after_publish, after_update, connect_node, after_offline, disconnect_node, delete_entry,
  connecting,
}

module _ (env : Env) (models : Models) where
  -- A step: a node connects, or fails to; the stream of a node ends, or fails to mark the node as
  -- offline; the stream deletes the entry of its node.
  pub data Step (s s' : NodeStreams) : Type 0 where
    connects : (node : ℕ) (h : History) → s' ≡ (connect_node env models node s h).1 → Step s s'
    disconnects :
        (node c : ℕ) (h : History)
        → s.stream_of c ≡ some (node, reading)
        → s' ≡ (disconnect_node env models node c s h).1
        → Step s s'
    deletes :
        (node c : ℕ) → s.stream_of c ≡ some (node, closing) → s' ≡ delete_entry node c s → Step s s'

  pub data Reach (s : NodeStreams) : NodeStreams → Type 0 where
    here : Reach s s
    next : {t u : NodeStreams} → Reach s t → Step t u → Reach s u

pub record IsValid (s : NodeStreams) : Type 0 where
  pub registered :
      (c node : ℕ) (p : Phase) → s.stream_of c ≡ some (node, p) → s.channel_of node ≡ some c
  pub made : (node c : ℕ) → s.channel_of node ≡ some c → c < s.next
  pub closed_made : (c : ℕ) → s.is_closed c ≡ true → c < s.next
  pub reads_open : (c node : ℕ) → s.stream_of c ≡ some (node, reading) → s.is_closed c ≡ false

no_streams-IsValid : IsValid no_streams
no_streams-IsValid = record {
  registered = λ c node p e. cc;
  made = λ node c e. cc;
  closed_made = λ c e. cc;
  reads_open = λ c node e. refl;
}

register_node-IsValid :
    (node : ℕ) (s : NodeStreams)
    → IsValid s
    → s.channel_of node ≡ none
    → IsValid (register_node node s)
register_node-IsValid node s v free = record {
  registered = λ c n p e. ground (arith, v.registered c n p e, free);
  made = λ n c e. ground (arith, v.made n c);
  closed_made = λ c e. ground (arith, v.closed_made c e);
  reads_open = v.reads_open;
}

with_stream-IsValid :
    (node : ℕ) (s : NodeStreams)
    → IsValid s
    → s.channel_of node ≡ none
    → IsValid (with_stream node s)
with_stream-IsValid node s v free = record {
  registered = λ c n p e. ground (arith, v.registered c n p, free);
  made = λ n c e. ground (arith, v.made n c);
  closed_made = λ c e. ground (arith, v.closed_made c e);
  reads_open = λ c n e. ground (arith, v.reads_open c n, v.closed_made c, e);
}

leave-IsValid : (c : ℕ) (s : NodeStreams) → IsValid s → IsValid (leave c s)
leave-IsValid c s v = record {
  registered = λ d n p e. ground (arith, v.registered d n p);
  made = v.made;
  closed_made = v.closed_made;
  reads_open = λ d n e. ground (arith, v.reads_open d n);
}

close_channel-IsValid :
    (node c : ℕ) (s : NodeStreams)
    → IsValid s
    → s.stream_of c ≡ some (node, reading)
    → IsValid (close_channel node c s)
close_channel-IsValid node c s v e₀ = record {
  registered = λ d n p e. ground (arith, v.registered d n p, v.registered c node reading e₀, e);
  made = v.made;
  closed_made =
      λ d e. ground (arith, v.closed_made d, v.made node c, v.registered c node reading e₀, e);
  reads_open = λ d n e. ground (arith, v.reads_open d n, e);
}

delete_entry-IsValid :
    (node c : ℕ) (s : NodeStreams)
    → IsValid s
    → s.stream_of c ≡ some (node, closing)
    → IsValid (delete_entry node c s)
unfolding delete_entry
delete_entry-IsValid node c s v e₀ = record {
  registered = λ d n p e. ground (arith, v.registered d n p, v.registered c node closing e₀, e);
  made = λ n d e. ground (arith, v.made n d, e);
  closed_made = v.closed_made;
  reads_open = λ d n e. ground (arith, v.reads_open d n, e);
}

module _ (env : Env) (models : Models) where
  after_publish-IsValid :
      (node : ℕ) (s : NodeStreams) (r : Result (Unit {0}) × History)
      → IsValid s
      → s.channel_of node ≡ none
      → IsValid (after_publish node s r).1
  after_publish-IsValid node s (ok u, h) v free = with_stream-IsValid node s v free
  after_publish-IsValid node s (err e, h) v free = register_node-IsValid node s v free

  after_update-IsValid :
      (node : ℕ) (s : NodeStreams) (r : Result Event × History)
      → IsValid s
      → s.channel_of node ≡ none
      → IsValid (after_update models node s r).1
  after_update-IsValid node s (ok e, h) v free =
      after_publish-IsValid node s (models.publish_changes (e ∷ []) h) v free
  after_update-IsValid node s (err x, h) v free = v

  connect_node-IsValid :
      (node : ℕ) (s : NodeStreams) (h : History)
      → IsValid s
      → IsValid (connect_node env models node s h).1
  unfolding connect_node
  connect_node-IsValid node s h v = elim (Option-cases (s.channel_of node)) [
    | inl free ↦ rw free (
        after_update-IsValid node s
          (models.update_node node (connecting (env.time (begin ∷ h))) (now ∷ begin ∷ h)) v free)
    | inr (c, taken) ↦ rw taken v
  ]

  after_offline-IsValid :
      (node c : ℕ) (s : NodeStreams) (r : Result Event × History)
      → IsValid s
      → s.stream_of c ≡ some (node, reading)
      → IsValid (after_offline env node c s r).1
  after_offline-IsValid node c s (ok e, h) v is = close_channel-IsValid node c s v is
  after_offline-IsValid node c s (err x, h) v is = leave-IsValid c s v

  Step-IsValid : (s s' : NodeStreams) → Step env models s s' → IsValid s → IsValid s'
  Step-IsValid s s' (connects node h e) v = rw e (connect_node-IsValid node s h v)
  Step-IsValid s s' (disconnects node c h is e) v =
      rw e (unfold disconnect_node in (after_offline-IsValid node c s _ v is))
  Step-IsValid s s' (deletes node c is e) v = rw e (delete_entry-IsValid node c s v is)

  pub Reach-IsValid : {s : NodeStreams} → Reach env models no_streams s → IsValid s
  Reach-IsValid here = no_streams-IsValid
  Reach-IsValid (next r step) = Step-IsValid _ _ step (Reach-IsValid r)

  -- In every state that the server reaches, while the stream of a node reads its channel: the channel
  -- is the one of the entry of the node, it is open, and no other stream has the node. So the stream
  -- finds its channel, is never told that it is closed, and a node has one stream at most.
  pub Reach-owns :
      (s : NodeStreams) (node c d : ℕ) (p : Phase)
      → Reach env models no_streams s
      → s.stream_of c ≡ some (node, reading)
      → s.stream_of d ≡ some (node, p)
      → (s.channel_of node ≡ some c) × (s.is_closed c ≡ false) × (d ≡ c)
  Reach-owns s node c d p r is other =
      let v = Reach-IsValid r in
      let mine = v.registered c node reading is in
      (mine, v.reads_open c node is, ground (arith, mine, v.registered d node p other))
