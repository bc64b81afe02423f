-- ===== src/Scheduler/Iterating/Steps.antt =====
-- The steps of the streams of scheduler/server/iterate_tasks.go beside handle_task_created.go and
-- handle_job_terminated.go, and what every state that they reach keeps. The channels have no buffer: a
-- send waits until the stream of the channel receives it. A handler looks its channel up, under the
-- lock, in one step, and sends on it or closes it in a later one. A handler that panics is over here;
-- if nothing recovers it the process is over too, and there are no further states.
use scalemate.Prelude.{
  ℕ, ◌<◌, ◌==◌, ◌≡◌, true, false, Option, none, some, if◌then◌else◌, arith, inl, inr, Bool-cases,
}
use scalemate.World.{ok}
use scalemate.Scheduler.Models.{Models}
use scalemate.Scheduler.Streams.{Phase, reading, closing, with_entry, waits_for, send_on}
use scalemate.Scheduler.Iterating.{
  ClientStreams, watch_job, unwatch_job, handle_job_terminated, close_found, returns_error,
}

-- The channels; the streams, by their channels, with their jobs; the channels on which handlers of
-- created tasks wait, by a number for each handler; and the channels that handlers of terminated jobs
-- are about to close.
pub record ClientSystem : Type 0 where
  pub streams : ClientStreams
  pub reader_of : ℕ → Option (ℕ × Phase)
  pub sender_of : ℕ → Option ℕ
  pub closer_of : ℕ → Option ℕ

-- The server when it starts.
abbrev pub no_clients : ClientSystem
no_clients = record {
  streams = record { channel_of = λ id. none; is_closed = λ c. false; next = 0 };
  reader_of = λ c. none;
  sender_of = λ k. none;
  closer_of = λ k. none;
}

-- A stream that makes its channel.
abbrev pub watch : ℕ → ClientSystem → ClientSystem
watch id s = record s {
  streams = watch_job id s.streams;
  reader_of = with_entry s.reader_of s.streams.next (some (id, reading));
}

-- A stream that leaves its loop.
abbrev pub stop : ℕ → ℕ → ClientSystem → ClientSystem
stop id c s = record s { reader_of = with_entry s.reader_of c (some (id, closing)) }

-- A handler that waits on a channel which is closed panics, and waits no more.
abbrev released : ℕ → Option ℕ → Option ℕ
released c none = none
released c (some d) = if d == c then none else some d

-- The close of a channel, with what it leaves of the channels.
abbrev pub with_closed : ℕ → ClientStreams → ClientSystem → ClientSystem
with_closed c u s = record s { streams = u; sender_of = λ k. released c (s.sender_of k) }

-- The deferred function of a stream.
abbrev pub unwatch : ℕ → ℕ → ClientSystem → ClientSystem
unwatch id c s = record s {
  streams = unwatch_job id s.streams;
  reader_of = with_entry s.reader_of c none;
}

module _ (models : Models) (id_of : models.Job → ℕ) where
  -- A step of a stream of a job, of HandleJobTerminated, or of HandleTaskCreated.
  pub data ClientStep (s s' : ClientSystem) : Type 0 where
    watches : (id : ℕ) → s' ≡ watch id s → ClientStep s s'
    stops : (id c : ℕ) → s.reader_of c ≡ some (id, reading) → s' ≡ stop id c s → ClientStep s s'
    unwatches :
        (id c : ℕ) → s.reader_of c ≡ some (id, closing) → s' ≡ unwatch id c s → ClientStep s s'
    finds :
        (k c : ℕ) (p : models.JobProto) (j : models.Job)
        → s.closer_of k ≡ none
        → models.job_from_proto p ≡ ok j
        → models.job_is_terminated j ≡ true
        → s.streams.channel_of (id_of j) ≡ some c
        → s' ≡ record s { closer_of = with_entry s.closer_of k (some c) }
        → ClientStep s s'
    closes_found :
        (k c : ℕ) (u : ClientStreams)
        → s.closer_of k ≡ some c
        → close_found models s.streams (some c) ≡ returns_error none u
        → s' ≡ record (with_closed c u s) { closer_of = with_entry s.closer_of k none }
        → ClientStep s s'
    sends :
        (k job c : ℕ)
        → s.sender_of k ≡ none
        → send_on s.streams.is_closed (s.streams.channel_of job) ≡ waits_for c
        → s' ≡ record s { sender_of = with_entry s.sender_of k (some c) }
        → ClientStep s s'
    delivers :
        (k c id : ℕ)
        → s.sender_of k ≡ some c
        → s.reader_of c ≡ some (id, reading)
        → s.streams.is_closed c ≡ false
        → s' ≡ record s { sender_of = with_entry s.sender_of k none }
        → ClientStep s s'

  pub data Reaches (s : ClientSystem) : ClientSystem → Type 0 where
    starts : Reaches s s
    goes_on : {t u : ClientSystem} → Reaches s t → ClientStep t u → Reaches s u

  -- Where nothing comes between the two steps of a handler of a terminated job, they are
  -- `HandleJobTerminated`.
  pub handle_job_terminated-close_found :
      (s : ClientStreams) (c : ℕ) (p : models.JobProto) (j : models.Job)
      → models.job_from_proto p ≡ ok j
      → models.job_is_terminated j ≡ true
      → s.channel_of (id_of j) ≡ some c
      → handle_job_terminated models id_of s (some p) ≡ close_found models s (some c)
  unfolding handle_job_terminated
  handle_job_terminated-close_found s c p j parsed over entry = ground (arith, parsed, over, entry)

-- What the close of a channel leaves: the other channels, and the entries.
pub close_found-closed :
    (models : Models) (s u : ClientStreams) (c : ℕ)
    → close_found models s (some c) ≡ returns_error none u
    → u ≡ record s { is_closed = with_entry s.is_closed c true }
close_found-closed models s u c eq = elim (Bool-cases (s.is_closed c)) [
  | inl q ↦ absurd (ground (arith, eq, q))
  | inr q ↦ ground (arith, eq, q)
]

-- An entry is the channel of a stream of its job, and channels that are not made yet are not in use.
pub record IsWatched (s : ClientSystem) : Type 0 where
  pub read :
      (id c : ℕ) → s.streams.channel_of id ≡ some c → (p : Phase) × (s.reader_of c ≡ some (id, p))
  pub made : (id c : ℕ) (p : Phase) → s.reader_of c ≡ some (id, p) → c < s.streams.next

no_clients-IsWatched : IsWatched no_clients
no_clients-IsWatched = record { read = λ id c e. absurd cc; made = λ id c p e. absurd cc }

watch-IsWatched : (id : ℕ) (s : ClientSystem) → IsWatched s → IsWatched (watch id s)
watch-IsWatched id s v = record {
  read = λ i c e. elim (Bool-cases (i == id)) [
    | inl q ↦ (reading, ground (arith, e, q))
    | inr q ↦
        let (p, r) = v.read i c (ground (arith, e, q)) in (p, ground (arith, r, v.made i c p r))
  ];
  made = λ i c p e. ground (arith, v.made i c p, e);
}

stop-IsWatched :
    (id c : ℕ) (s : ClientSystem)
    → IsWatched s
    → s.reader_of c ≡ some (id, reading)
    → IsWatched (stop id c s)
stop-IsWatched id c s v is = record {
  read = λ i d e.
      let (p, r) = v.read i d e in
      elim (Bool-cases (d == c)) [
        | inl q ↦ (closing, ground (arith, r, q, is))
        | inr q ↦ (p, ground (arith, r, q))
      ];
  made = λ i d p e. ground (arith, v.made i d p, v.made id c reading is, e);
}

unwatch-IsWatched :
    (id c : ℕ) (s : ClientSystem)
    → IsWatched s
    → s.reader_of c ≡ some (id, closing)
    → IsWatched (unwatch id c s)
unwatch-IsWatched id c s v is = record {
  read = λ i d e. elim (Bool-cases (i == id)) [
    | inl q ↦ absurd (ground (arith, e, q))
    | inr q ↦ let (p, r) = v.read i d (ground (arith, e, q)) in (p, ground (arith, r, is, q))
  ];
  made = λ i d p e. ground (arith, v.made i d p, e);
}

module _ (models : Models) (id_of : models.Job → ℕ) where
  ClientStep-IsWatched :
      {s t : ClientSystem} → ClientStep models id_of s t → IsWatched s → IsWatched t
  ClientStep-IsWatched {s} (watches id e) v = rw e (watch-IsWatched id s v)
  ClientStep-IsWatched {s} (stops id c is e) v = rw e (stop-IsWatched id c s v is)
  ClientStep-IsWatched {s} (unwatches id c is e) v = rw e (unwatch-IsWatched id c s v is)
  ClientStep-IsWatched {s} (finds k c p j free parsed over entry e) v =
      rw e (record { read = v.read; made = v.made })
  ClientStep-IsWatched {s} (closes_found k c u is q e) v =
      rw (e, close_found-closed models s.streams u c q) (record { read = v.read; made = v.made })
  ClientStep-IsWatched {s} (sends k job c free w e) v =
      rw e (record { read = v.read; made = v.made })
  ClientStep-IsWatched {s} (delivers k c id w is o e) v =
      rw e (record { read = v.read; made = v.made })

  pub Reaches-IsWatched : {s : ClientSystem} → Reaches models id_of no_clients s → IsWatched s
  Reaches-IsWatched starts = no_clients-IsWatched
  Reaches-IsWatched (goes_on r step) = ClientStep-IsWatched step (Reaches-IsWatched r)

  -- In every state that the server reaches, the entry of a job is the channel of a stream of this job
  -- that has not ended, and no other job has the channel.
  pub Reaches-watched :
      (s : ClientSystem) (i j c : ℕ)
      → Reaches models id_of no_clients s
      → s.streams.channel_of i ≡ some c
      → s.streams.channel_of j ≡ some c
      → ((p : Phase) × (s.reader_of c ≡ some (i, p))) × (i ≡ j)
  Reaches-watched s i j c r mine other =
      let v = Reaches-IsWatched r in
      let (p, e) = v.read i c mine in
      let (q, f) = v.read j c other in ((p, e), ground (arith, e, f))
