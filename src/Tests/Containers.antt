-- ===== src/Tests/Containers.antt =====
-- Containers of the scheduler.
use Prim.Native.String.{String}
use scalemate.Prelude.{
  false, ℕ, zero, suc, ◌+◌, ◌≤◌, ◌≡◌, refl, ◌⊎◌, ◌≢◌, [], ◌∷◌, some, length, arith,
}
use scalemate.Proto.{
  Container, new, declined, pending, cancelled, scheduled, running, stopped, failed, Event, updated,
  Service, scheduler_container,
}
use scalemate.World.{
  status, failed_precondition, number, ok, err, History, query, update_container, new_uuid, now,
  count_containers, list_containers as list_query,
}
use scalemate.Scheduler.Container.{zero_container, update_status, update, to_proto, is_terminated}
use scalemate.Scheduler.Lifecycle.{Edge, Stores, done, step, update_status-Edge, Run-stage}
use scalemate.Scheduler.Listing.{
  ListContainersRequest, created_at_asc, list_containers, filter_of, HonoursLimit,
  list_containers-bounds,
}
use scalemate.Shared.Events.{new_event}
use scalemate.Tests.Fixture.{test_env, masks}

abbrev waiting : Container
waiting = record zero_container { id = 7; status = pending }

update_status-Edge_example :
    ((waiting.id ≢ 0)
      × Edge pending scheduled
      × (update_status test_env masks waiting scheduled []
          ≡ update test_env masks waiting (("status", number 4) ∷ []) []))
    ⊎ (((waiting.id ≡ 0) ⊎ ¬ Edge pending scheduled)
        × ((message : String) × (update_status test_env masks waiting scheduled []
              ≡ (err (status failed_precondition message), []))))
update_status-Edge_example = update_status-Edge test_env masks waiting scheduled []

test_env-Stores : Stores test_env
test_env-Stores new id h row eq = ground (arith, eq)
test_env-Stores declined id h row eq = ground (arith, eq)
test_env-Stores pending id h row eq = ground (arith, eq)
test_env-Stores cancelled id h row eq = ground (arith, eq)
test_env-Stores scheduled id h row eq = ground (arith, eq)
test_env-Stores running id h row eq = ground (arith, eq)
test_env-Stores stopped id h row eq = ground (arith, eq)
test_env-Stores failed id h row eq = ground (arith, eq)

abbrev placed : Container
placed = record waiting { status = scheduled }

abbrev placed_event : Event
placed_event = record {
  uuid = 9 ∷ [];
  event_type = updated;
  service = Service.scheduler;
  payload = scheduler_container (record zero_container { id = 7 });
  payload_mask = some ("status" ∷ []);
  created_at = 100;
}

abbrev placing_calls : History
placing_calls = now ∷ new_uuid ∷ query (update_container (("status", number 4) ∷ []) 7) ∷ []

placing :
    update_status test_env masks waiting scheduled [] ≡ (ok (placed, placed_event), placing_calls)
unfolding update_status update to_proto new_event
placing = refl

Run-stage_example : (1 + 1 ≤ 2) × (1 ≤ 4) × ((is_terminated waiting ≡ false) ⊎ Path ℕ 1 0)
Run-stage_example =
    Run-stage test_env masks test_env-Stores
      (step scheduled [] placing_calls placed_event placing done)

abbrev first_page : ListContainersRequest
first_page = record {
  username = "ann";
  status = pending ∷ [];
  ordering = created_at_asc;
  limit = 10;
  offset = 0;
}

test_env-HonoursLimit : HonoursLimit test_env
test_env-HonoursLimit f zero offset order h rows eq = ground (arith, eq)
test_env-HonoursLimit f (suc limit) offset order h rows eq = ground (arith, eq)

abbrev listing_calls : History
listing_calls =
    query (list_query (filter_of first_page) 10 0 "created_at")
    ∷ query (count_containers (filter_of first_page))
    ∷ []

first_page_run : list_containers test_env first_page [] ≡ (ok (waiting ∷ [], 1), listing_calls)
unfolding list_containers
first_page_run = refl

list_containers-bounds_example :
    (length (waiting ∷ []) ≤ 300)
    × (length (waiting ∷ []) ≤ 10)
    × ((first_page.limit ≢ 0) ⊎ (waiting ∷ [] ≡ []))
    × (test_env.get_count (count_containers (filter_of first_page)) [] ≡ ok 1)
    × (length listing_calls ≡ 2 + 0)
list_containers-bounds_example =
    list_containers-bounds test_env test_env-HonoursLimit first_page [] listing_calls (waiting ∷ [])
      1 first_page_run
