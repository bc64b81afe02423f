-- ===== src/Scheduler/Iterating/Panics.antt =====
-- Channels that scheduler/server/handle_job_terminated.go closes twice.
use scalemate.Prelude.{ℕ, ◌≡◌, ◌∙◌, refl, true, some, none, arith}
use scalemate.World.{ok}
use scalemate.Scheduler.Models.{Models}
use scalemate.Scheduler.Iterating.{
  ClientStreams, close_found, handle_job_terminated, panics_on_close, returns_error,
}
use scalemate.Scheduler.Iterating.Steps.{
  ClientSystem, ClientStep, watches, stops, unwatches, finds, closes_found, sends, delivers,
  Reaches, starts, goes_on, close_found-closed, with_closed, handle_job_terminated-close_found,
}

module _ (models : Models) (id_of : models.Job → ℕ) (c : ℕ) where
  -- A closed channel stays closed.
  ClientStep-closed :
      {s t : ClientSystem}
      → ClientStep models id_of s t
      → s.streams.is_closed c ≡ true
      → t.streams.is_closed c ≡ true
  ClientStep-closed (watches id e) o = rw e o
  ClientStep-closed (stops id d is e) o = rw e o
  ClientStep-closed (unwatches id d is e) o = rw e o
  ClientStep-closed (finds k d p j free parsed over entry e) o = rw e o
  ClientStep-closed {s} (closes_found k d u is q e) o =
      rw (e, close_found-closed models s.streams u d q) (ground (arith, o))
  ClientStep-closed (sends k job d free w e) o = rw e o
  ClientStep-closed (delivers k d id w is p e) o = rw e o

  Reaches-closed :
      {s t : ClientSystem}
      → Reaches models id_of s t
      → s.streams.is_closed c ≡ true
      → t.streams.is_closed c ≡ true
  Reaches-closed starts o = o
  Reaches-closed (goes_on r step) o = ClientStep-closed step (Reaches-closed r o)

module _ (models : Models) (id_of : models.Job → ℕ) where
  -- When HandleJobTerminated has closed the channel of a job, an event of a terminated job, the same or
  -- another one, makes it panic in each state that the server reaches afterwards in which the entry of
  -- the job of this event is the channel that was closed.
  pub handle_job_terminated-panics :
      (s t : ClientSystem) (u : ClientStreams) (p q : models.JobProto) (j l : models.Job) (c : ℕ)
      → models.job_from_proto p ≡ ok j
      → models.job_is_terminated j ≡ true
      → s.streams.channel_of (id_of j) ≡ some c
      → handle_job_terminated models id_of s.streams (some p) ≡ returns_error none u
      → Reaches models id_of (with_closed c u s) t
      → models.job_from_proto q ≡ ok l
      → models.job_is_terminated l ≡ true
      → t.streams.channel_of (id_of l) ≡ some c
      → handle_job_terminated models id_of t.streams (some q) ≡ panics_on_close
  handle_job_terminated-panics s t u p q j l c parsed over entry first after parsed' over' entry' =
      let found =
        handle_job_terminated-close_found models id_of s.streams c p j parsed over entry in
      let closed : close_found models s.streams (some c) ≡ returns_error none u =
        rw found at first in
      let start : u.is_closed c ≡ true =
        rw (close_found-closed models s.streams u c closed) (ground arith) in
      let still : t.streams.is_closed c ≡ true = Reaches-closed models id_of c after start in
      handle_job_terminated-close_found models id_of t.streams c q l parsed' over' entry'
      ∙ rw still refl
