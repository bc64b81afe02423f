-- ===== src/Tests/Handlers.antt =====
-- The handlers of the scheduler, on a job that is pending.

use scalemate.Prelude.{◌+◌, ◌≡◌, refl, ◌⊎◌, Bool, true, false, List, [], ◌∷◌, none, if◌then◌else◌}
use scalemate.Proto.{EventType, Event}
use scalemate.World.{
  Env, ok, History, begin, commit, rollback, query, insert_processed_event, count_processed_events,
  begun, ended,
}
use scalemate.Scheduler.Handlers.{
  job_updated, SchedulerEvent, SchedulerPayload, handle, handle_payload, handle_job_updated,
  unless_processed, schedule_job_of, schedule_on, record_and_commit,
}
use scalemate.Scheduler.Nodes.{processed_event_exists, create_processed_event}
use scalemate.Scheduler.Handlers.Balanced.{handle-IsBalanced}
use scalemate.Scheduler.Handlers.Again.{Remembers, handle-handle}
use scalemate.Tests.Fixture.{test_env}
use scalemate.Tests.Accounts.{errors}
use scalemate.Tests.World.{models, models-AreQuiet}

abbrev job_event : SchedulerEvent models
job_event = record {
  uuid = 7 ∷ [];
  event_type = EventType.updated;
  payload = SchedulerPayload.job 5;
  payload_mask = none;
}

-- The database counts an event once something was committed.
abbrev has_commit : History → Bool
has_commit [] = false
has_commit (commit ∷ h) = true
has_commit (_ ∷ h) = has_commit h

abbrev memory : Env
memory = record test_env { get_count = λ q h. ok (if has_commit h then 1 else 0) }

-- The calls of the handler at the first delivery.
abbrev first_delivery : History
first_delivery =
    commit
    ∷ query (insert_processed_event "scheduler_job_updated" (7 ∷ []))
    ∷ begin
    ∷ query (count_processed_events "scheduler_job_updated" (7 ∷ []))
    ∷ []

first_delivery_lem :
    handle memory errors models "scheduler_job_updated" job_updated job_event []
    ≡ (ok tt, first_delivery)
unfolding handle_payload handle_job_updated unless_processed processed_event_exists schedule_job_of
    schedule_on record_and_commit create_processed_event
first_delivery_lem = refl

commits :
    (events : List Event) (h h' : History)
    → models.commit_and_publish events h ≡ (ok tt, h')
    → h' ≡ commit ∷ h
commits events h h' e = cc

memory-Remembers : Remembers memory models "scheduler_job_updated" (7 ∷ [])
memory-Remembers = record {
  keeps_committed = λ events h₀ h' added done. (0, rw (commits events _ h' done) refl);
  keeps_counted = λ h n counted. counted;
}

handle-IsBalanced_example :
    begun (handle memory errors models "scheduler_job_updated" job_updated job_event []).1 + 0
    ≡ ended (handle memory errors models "scheduler_job_updated" job_updated job_event []).1 + 0
handle-IsBalanced_example =
    handle-IsBalanced memory errors models models-AreQuiet "scheduler_job_updated" job_updated
      job_event []

handle-handle_example :
    ((handle memory errors models "scheduler_job_updated" job_updated job_event first_delivery).1
      ≡ first_delivery)
    ⊎ (handle memory errors models "scheduler_job_updated" job_updated job_event first_delivery
        ≡ (ok tt, query (count_processed_events "scheduler_job_updated" (7 ∷ [])) ∷ first_delivery))
    ⊎ ((h₀ : History) × (first_delivery ≡ rollback ∷ h₀))
handle-handle_example =
    handle-handle memory errors models "scheduler_job_updated" job_updated job_event []
      first_delivery memory-Remembers first_delivery_lem
