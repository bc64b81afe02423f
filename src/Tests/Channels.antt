-- ===== src/Tests/Channels.antt =====
-- The channels of the clients that watch jobs.
use scalemate.Prelude.{ℕ, ◌≡◌, ◌≢◌, ◌==◌, if◌then◌else◌, refl, true, false, none, some}
use scalemate.Scheduler.Streams.{Phase}
use scalemate.Scheduler.Iterating.Steps.{
  ClientSystem, no_clients, watch, stop, unwatch, Reaches, starts, goes_on, watches, stops,
  unwatches, sends, with_closed, Reaches-watched,
}
use scalemate.Scheduler.Iterating.Lost.{watch-lost, unwatch-hangs}
use scalemate.Scheduler.Iterating.Panics.{handle_job_terminated-panics}
use scalemate.Scheduler.Iterating.{ClientStreams, handle_job_terminated, panics_on_close}
use scalemate.Scheduler.Models.{Models}
use scalemate.Tests.World.{models}

abbrev id_of : ℕ → ℕ
id_of j = j

-- Job 5 is watched.
abbrev one_client : ClientSystem
one_client = watch 5 no_clients

one_client-Reaches : Reaches models id_of no_clients one_client
one_client-Reaches = goes_on starts (watches 5 refl)

Reaches-watched_example : ((p : Phase) × (one_client.reader_of 0 ≡ some (5, p))) × (◌≡◌ {A = ℕ} 5 5)
Reaches-watched_example = Reaches-watched models id_of one_client 5 5 0 one_client-Reaches refl refl

-- A second client watches job 5, and leaves.
abbrev second_left : ClientSystem
second_left = unwatch 5 1 (stop 5 1 (watch 5 one_client))

watch-lost_example :
    ((i : ℕ) → second_left.streams.channel_of i ≢ some 0)
    × (second_left.streams.is_closed 0 ≡ one_client.streams.is_closed 0)
watch-lost_example =
    watch-lost models id_of one_client second_left 5 0 one_client-Reaches refl (λ k e. cc)
      (goes_on (goes_on starts (stops 5 1 refl refl)) (unwatches 5 1 refl refl))

-- The handler 2 waits to send, and the client stops.
abbrev waiting : ClientSystem
waiting = record one_client { sender_of = λ k. if k == 2 then some 0 else none }

-- Its deferred function deletes the entry, and another client watches the job.
abbrev watched_again : ClientSystem
watched_again = watch 5 (unwatch 5 0 (stop 5 0 waiting))

unwatch-hangs_example : watched_again.sender_of 2 ≡ some 0
unwatch-hangs_example =
    unwatch-hangs models id_of (stop 5 0 waiting) watched_again 5 0 2
      (goes_on (goes_on one_client-Reaches (sends 2 5 0 refl refl refl)) (stops 5 0 refl refl)) refl
      (λ i e. cc) refl (goes_on starts (watches 5 refl))

abbrev over : Models
over = record models { job_is_terminated = λ j. true }

abbrev closed_once : ClientStreams
closed_once = record (one_client.streams) { is_closed = λ c. if c == 0 then true else false }

-- The client leaves its loop after the close, and there is a second event before the entry is deleted.
handle_job_terminated-panics_example :
    handle_job_terminated over id_of
      (stop 5 0 (with_closed 0 closed_once one_client)).streams
      (some 5)
    ≡ panics_on_close
unfolding handle_job_terminated
handle_job_terminated-panics_example =
    handle_job_terminated-panics over id_of one_client
      (stop 5 0 (with_closed 0 closed_once one_client)) closed_once 5 5 5 5 0 refl refl refl refl
      (goes_on starts (stops 5 0 refl refl)) refl refl refl
