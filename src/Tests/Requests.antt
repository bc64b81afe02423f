-- ===== src/Tests/Requests.antt =====
-- The requests for jobs and tasks, and the channels of nodes.
use Prim.Native.String.{String}
use scalemate.Prelude.{ℕ, suc, ◌+◌, ◌≡◌, refl, inl, false, [], ◌∷◌, none, some}
use scalemate.World.{foreign, wrap, err, begin, commit, now, begun, ended}
use scalemate.Shared.Auth.{Claims, access, has_claims}
use scalemate.Client.Flags.{split}
use scalemate.Scheduler.Requests.{cancel_job, cancel_loaded_job, cancel_tasks}
use scalemate.Scheduler.Requests.Rights.{cancel_one_job, look_up, IsAllowed, look_up-IsAllowed}
use scalemate.Scheduler.Requests.Cancelling.{IsCancelled, cancel_job-IsCancelled, cancel_job-leaks}
use scalemate.Scheduler.Creating.{
  create_job, is_abs, validate_relative_path, joined_path, clean, enter, goes_up, relative_to_base,
  check_new_job, check_config, validate_paths, validate_ports, validate_port,
}
use scalemate.Scheduler.Creating.Paths.{
  stays_inside, validate_relative_path-inside, validate_relative_path-escapes,
}
use scalemate.Scheduler.Creating.Checks.{IsCreated, create_job-IsCreated}
use scalemate.Scheduler.Streams.{
  NodeStreams, no_streams, reading, connect_node, iterate_tasks_for_node,
}
use scalemate.Scheduler.Streams.Steps.{here, next, connects, Reach-owns}
use scalemate.Scheduler.Streams.Stuck.{not_published, IsRefused, iterate_tasks_for_node-IsRefused}
use scalemate.Tests.Fixture.{test_env, claims_of}
use scalemate.Tests.World.{models, models-AreQuiet, broken_models, update_event}

look_up-IsAllowed_example :
    IsAllowed test_env models cancel_one_job (has_claims (claims_of 10 access)) 1 []
unfolding look_up cancel_job cancel_loaded_job cancel_tasks
look_up-IsAllowed_example =
    look_up-IsAllowed test_env models cancel_one_job (has_claims (claims_of 10 access)) 1 []
      models-AreQuiet (inl refl)

cancel_job-IsCancelled_example : IsCancelled test_env models 1 [] (commit ∷ begin ∷ [])
unfolding cancel_job cancel_loaded_job cancel_tasks
cancel_job-IsCancelled_example =
    cancel_job-IsCancelled test_env models (has_claims (claims_of 10 access)) 1 []
      (commit ∷ begin ∷ []) (some 1) refl

cancel_job-leaks_example :
    (cancel_job test_env models (has_claims (claims_of 10 access)) 2 []
      ≡ (err (wrap (foreign "no connection") "job.LoadTasksFromDB failed"), begin ∷ []))
    × (begun (begin ∷ []) + 0 ≡ suc (ended (begin ∷ []) + 0))
cancel_job-leaks_example =
    cancel_job-leaks test_env models models-AreQuiet (claims_of 10 access) 2 [] [] (begin ∷ [])
      (begin ∷ []) 2 2 update_event (foreign "no connection") refl refl refl refl

validate_relative_path-inside_example : validate_relative_path "a/../b" ≡ none
unfolding is_abs split stays_inside
validate_relative_path-inside_example = validate_relative_path-inside "a/../b" refl refl

validate_relative_path-escapes_example :
    (validate_relative_path "../base/secret" ≡ none)
    × (stays_inside 0 (split 47 "../base/secret") ≡ false)
unfolding split stays_inside
validate_relative_path-escapes_example =
    validate_relative_path-escapes "../base/secret" ("secret" ∷ []) refl refl

abbrev digits_of : ℕ → String
digits_of n = "number"

create_job-IsCreated_example :
    IsCreated test_env models digits_of
      (has_claims (claims_of 10 access))
      5
      []
      (commit ∷ begin ∷ [])
      5
unfolding create_job check_new_job check_config validate_ports validate_port validate_paths
    validate_relative_path is_abs joined_path clean enter goes_up relative_to_base split
create_job-IsCreated_example =
    create_job-IsCreated test_env models digits_of (has_claims (claims_of 10 access)) 5 5 []
      (commit ∷ begin ∷ []) refl

abbrev one_stream : NodeStreams
one_stream = (connect_node test_env models 3 no_streams []).1

Reach-owns_example :
    (one_stream.channel_of 3 ≡ some 0) × (one_stream.is_closed 0 ≡ false) × (◌≡◌ {A = ℕ} 0 0)
unfolding connect_node
Reach-owns_example =
    Reach-owns test_env models one_stream 3 0 0 reading (next here (connects 3 [] refl)) refl refl

abbrev node_owner : Claims
node_owner = record (claims_of 10 access) { node_name = "rig" }

abbrev after_failure : NodeStreams
after_failure = (connect_node test_env broken_models 3 no_streams []).1

iterate_tasks_for_node-IsRefused_example :
    IsRefused test_env broken_models 3 after_failure 3
      (iterate_tasks_for_node test_env broken_models (has_claims node_owner) after_failure [])
iterate_tasks_for_node-IsRefused_example =
    iterate_tasks_for_node-IsRefused test_env broken_models 3 node_owner 3 [] [] here
      (not_published [] (now ∷ begin ∷ []) _ update_event (foreign "no connection") refl refl refl
        refl)
      here (λ e. cc) refl refl
