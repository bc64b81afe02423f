-- ===== src/Scheduler/Iterating/Lost.antt =====
-- Streams of scheduler/server/iterate_tasks.go that no task reaches any more, and handlers of created
-- tasks that wait for ever.
use scalemate.Prelude.{ℕ, ◌<◌, ◌==◌, ◌≡◌, ◌≢◌, refl, Bool, some, arith, inl, inr, Bool-cases}
use scalemate.Scheduler.Models.{Models}
use scalemate.Scheduler.Streams.{reading, closing}
use scalemate.Scheduler.Iterating.Steps.{
  ClientSystem, ClientStep, watches, stops, unwatches, finds, closes_found, sends, delivers,
  Reaches, starts, goes_on, close_found-closed, IsWatched, Reaches-IsWatched, watch, unwatch,
  no_clients,
}

-- A channel that is made, is no entry, is closed or not, and that no handler is about to close.
record IsLost (c : ℕ) (b : Bool) (s : ClientSystem) : Type 0 where
  made : c < s.streams.next
  unlisted : (id : ℕ) → s.streams.channel_of id ≢ some c
  same : s.streams.is_closed c ≡ b
  spared : (k : ℕ) → s.closer_of k ≢ some c

-- A handler waits on a channel that no stream reads.
record Hangs (c k : ℕ) (s : ClientSystem) : Type 0 where
  unread : (id : ℕ) → s.reader_of c ≢ some (id, reading)
  waits : s.sender_of k ≡ some c

module _ (models : Models) (id_of : models.Job → ℕ) where
  ClientStep-IsLost :
      (c : ℕ) (b : Bool) {s t : ClientSystem}
      → ClientStep models id_of s t
      → IsLost c b s
      → IsLost c b t
  ClientStep-IsLost c b (watches id e) l = rw e (record {
    made = ground (arith, l.made);
    unlisted = λ i p. ground (arith, l.unlisted i, l.made, p);
    same = l.same;
    spared = l.spared;
  })
  ClientStep-IsLost c b (stops id d is e) l =
      rw e (record { made = l.made; unlisted = l.unlisted; same = l.same; spared = l.spared })
  ClientStep-IsLost c b (unwatches id d is e) l = rw e (record {
    made = l.made;
    unlisted = λ i p. ground (arith, l.unlisted i, p);
    same = l.same;
    spared = l.spared;
  })
  ClientStep-IsLost c b (finds k d p j free parsed over entry e) l = rw e (record {
    made = l.made;
    unlisted = l.unlisted;
    same = l.same;
    spared = λ i q. ground (arith, l.spared i, l.unlisted (id_of j), entry, q);
  })
  ClientStep-IsLost c b {s} (closes_found k d u is q e) l =
      rw (e, close_found-closed models s.streams u d q)
        (record {
          made = l.made;
          unlisted = l.unlisted;
          same = ground (arith, l.same, l.spared k, is);
          spared = λ i p. ground (arith, l.spared i, p);
        })
  ClientStep-IsLost c b (sends k job d free w e) l =
      rw e (record { made = l.made; unlisted = l.unlisted; same = l.same; spared = l.spared })
  ClientStep-IsLost c b (delivers k d id w is o e) l =
      rw e (record { made = l.made; unlisted = l.unlisted; same = l.same; spared = l.spared })

  Reaches-IsLost :
      (c : ℕ) (b : Bool) {s t : ClientSystem}
      → Reaches models id_of s t
      → IsLost c b s
      → IsLost c b t
  Reaches-IsLost c b starts l = l
  Reaches-IsLost c b (goes_on r step) l = ClientStep-IsLost c b step (Reaches-IsLost c b r l)

  watch-IsLost :
      (id c : ℕ) (s : ClientSystem)
      → IsWatched s
      → s.streams.channel_of id ≡ some c
      → ((k : ℕ) → s.closer_of k ≢ some c)
      → IsLost c (s.streams.is_closed c) (watch id s)
  watch-IsLost id c s v entry spared =
      let (p, r) = v.read id c entry in
      let old = v.made id c p r in
      record {
        made = ground (arith, old);
        unlisted = λ i e. elim (Bool-cases (i == id)) [
          | inl q ↦ ground (arith, e, q, old)
          | inr q ↦ let (o, f) = v.read i c (ground (arith, e, q)) in ground (arith, r, f, q)
        ];
        same = refl;
        spared = spared;
      }

  -- When a second stream watches a job, the channel of the first is lost, unless a handler of the end of
  -- the job has already found it: in each state that the server reaches afterwards it is no entry, so
  -- that no task is sent on it any more, and it is closed only if it was closed before, so that the first
  -- stream does not end with its job.
  pub watch-lost :
      (s t : ClientSystem) (id c : ℕ)
      → Reaches models id_of no_clients s
      → s.streams.channel_of id ≡ some c
      → ((k : ℕ) → s.closer_of k ≢ some c)
      → Reaches models id_of (watch id s) t
      → ((i : ℕ) → t.streams.channel_of i ≢ some c)
        × (t.streams.is_closed c ≡ s.streams.is_closed c)
  watch-lost s t id c before entry spared after =
      let l =
        Reaches-IsLost c (s.streams.is_closed c) after
          (watch-IsLost id c s (Reaches-IsWatched models id_of before) entry spared) in
      (l.unlisted, l.same)

  ClientStep-Hangs :
      (c k : ℕ) (b : Bool) {s t : ClientSystem}
      → ClientStep models id_of s t
      → IsLost c b s
      → Hangs c k s
      → Hangs c k t
  ClientStep-Hangs c k b (watches id e) l w =
      rw e (record { unread = λ i p. ground (arith, w.unread i, l.made, p); waits = w.waits })
  ClientStep-Hangs c k b (stops id d is e) l w =
      rw e (record { unread = λ i p. ground (arith, w.unread i, p); waits = w.waits })
  ClientStep-Hangs c k b (unwatches id d is e) l w =
      rw e (record { unread = λ i p. ground (arith, w.unread i, p); waits = w.waits })
  ClientStep-Hangs c k b (finds i d p j free parsed over entry e) l w =
      rw e (record { unread = w.unread; waits = w.waits })
  ClientStep-Hangs c k b {s} (closes_found i d u is q e) l w =
      rw (e, close_found-closed models s.streams u d q)
        (record { unread = w.unread; waits = ground (arith, w.waits, l.spared i, is) })
  ClientStep-Hangs c k b (sends j job d free p e) l w =
      rw e (record { unread = w.unread; waits = ground (arith, w.waits, free) })
  ClientStep-Hangs c k b (delivers j d id p is o e) l w =
      rw e (record { unread = w.unread; waits = ground (arith, w.waits, w.unread id, p, is) })

  Reaches-Hangs :
      (c k : ℕ) (b : Bool) {s t : ClientSystem}
      → Reaches models id_of s t
      → IsLost c b s
      → Hangs c k s
      → Hangs c k t
  Reaches-Hangs c k b starts l w = w
  Reaches-Hangs c k b (goes_on r step) l w =
      ClientStep-Hangs c k b step (Reaches-IsLost c b r l) (Reaches-Hangs c k b r l w)

  unwatch-IsLost :
      (id c : ℕ) (s : ClientSystem)
      → IsWatched s
      → s.reader_of c ≡ some (id, closing)
      → ((k : ℕ) → s.closer_of k ≢ some c)
      → IsLost c (s.streams.is_closed c) (unwatch id c s)
  unwatch-IsLost id c s v is spared = record {
    made = v.made id c closing is;
    unlisted = λ i e. elim (Bool-cases (i == id)) [
      | inl q ↦ ground (arith, e, q)
      | inr q ↦ let (o, f) = v.read i c (ground (arith, e, q)) in ground (arith, is, f, q)
    ];
    same = refl;
    spared = spared;
  }

  -- A handler of created tasks that waits on the channel of a stream when the deferred function of this
  -- stream deletes the entry of the job waits for ever, unless a handler of the end of the job has found
  -- the channel before: in each state that the server reaches afterwards it still waits on this channel.
  pub unwatch-hangs :
      (s t : ClientSystem) (id c k : ℕ)
      → Reaches models id_of no_clients s
      → s.reader_of c ≡ some (id, closing)
      → ((i : ℕ) → s.closer_of i ≢ some c)
      → s.sender_of k ≡ some c
      → Reaches models id_of (unwatch id c s) t
      → t.sender_of k ≡ some c
  unwatch-hangs s t id c k before is spared waiting after =
      let lost = unwatch-IsLost id c s (Reaches-IsWatched models id_of before) is spared in
      let start : Hangs c k (unwatch id c s) = record {
        unread = λ i p. ground (arith, is, p);
        waits = waiting;
      } in
      (Reaches-Hangs c k (s.streams.is_closed c) after lost start).waits
