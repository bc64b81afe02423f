-- ===== src/Scheduler/Creating.antt =====
-- scheduler/server/create_job.go: the checks on a new job, and its creation. A path is text; what
-- the source uses of path/filepath, on a system with `/`, is written out on its segments.
pub mod Paths
pub mod Checks
use mathlib.Core.List.{reverse}
use Prim.Native.String.{String, [] as empty, ◌∷◌ as ◌∷ₛ◌, ◌++◌}
use Prim.Native.Char.{code}
use scalemate.Prelude.{
  ℕ, Bool, true, false, ◌||◌, List, [], ◌∷◌, Option, none, some, if◌then◌else◌, same_text, ltb,
  ◌==◌,
}
use scalemate.Proto.{Event}
use scalemate.World.{
  Env, Err, status, fundamental, Result, ok, err, Action, permission_denied, invalid_argument,
  return, lift, guard, ◌>>=◌, ◌>>◌, ◌wrapped◌, ◌catch◌, fail,
}
use scalemate.Shared.Auth.{Claims, ContextClaims}
use scalemate.Client.Flags.{split}
use scalemate.Scheduler.Models.{Models, NewJob, NewRunConfig}
use scalemate.Scheduler.Handlers.{or_rollback, begin_transaction}
use scalemate.Scheduler.Requests.{known_claims}

-- `filepath.IsAbs`
unfoldable pub is_abs : String → Bool
is_abs empty = false
is_abs (c ∷ₛ s) = code c == 47

abbrev pub parent : List String → List String
parent [] = []
parent (s ∷ above) = above

-- The first error of two.
abbrev pub first_error : Option Err → Option Err → Option Err
first_error none e = e
first_error (some x) e = some x

-- One segment of a path further, from the directory whose segments are `above`, the last one first.
-- An empty segment and `.` stand for the same directory and `..` for the one above, which of the
-- root is the root.
unfoldable pub enter : List String → String → List String
enter above s =
    if same_text s "" || same_text s "."
    then above
    else if same_text s ".."
    then parent above
    else s ∷ above

-- `filepath.Clean` of an absolute path, by its segments, the last one first in the answer.
unfoldable pub clean : List String → List String → List String
clean above [] = above
clean above (s ∷ rest) = clean (enter above s) rest

-- `filepath.Join(basePath, path)`, by its segments.
unfoldable pub joined_path : String → List String
joined_path path = reverse (clean ("base" ∷ []) (split 47 path))

-- `filepath.Rel(basePath, target)`, by its segments; none for `.`. Both paths are absolute, so there
-- is an answer.
unfoldable pub relative_to_base : List String → List String
relative_to_base [] = ".." ∷ []
relative_to_base (s ∷ rest) = if same_text s "base" then rest else ".." ∷ s ∷ rest

-- `strings.HasPrefix(relPath, "../")`
unfoldable pub goes_up : List String → Bool
goes_up (s ∷ _ ∷ _) = same_text s ".."
goes_up _ = false

unfoldable pub validate_relative_path : String → Option Err
validate_relative_path path =
    if is_abs path
    then some (status invalid_argument ("absolute path is used as relative: " ++ path))
    else if goes_up (relative_to_base (joined_path path))
    then some (fundamental ("invalid relative path: " ++ path))
    else none

-- The loop of `validatePaths` over the entries of the map, in the order in which it meets them. It
-- looks at the left or at the right path of each.
unfoldable pub validate_paths : (String → String → String) → List (String × String) → Option Err
validate_paths rel_path_getter [] = none
validate_paths rel_path_getter ((left, right) ∷ paths) =
    if same_text left ""
    then some (fundamental "left side path is empty")
    else if same_text right ""
    then some (fundamental "right side path is empty")
    else first_error (validate_relative_path (rel_path_getter left right))
        (validate_paths rel_path_getter paths)

-- `validatePort`; `text` is the number in decimal digits.
unfoldable pub validate_port : (ℕ → String) → ℕ → Option Err
validate_port text p =
    if ltb 65535 p
    then some (status invalid_argument ("network port is out of range: " ++ text p))
    else none

unfoldable pub validate_ports : (ℕ → String) → List (ℕ × ℕ) → Option Err
validate_ports text [] = none
validate_ports text ((local, remote) ∷ ports) =
    first_error (validate_port text local)
      (first_error (validate_port text remote) (validate_ports text ports))

abbrev pub is_none : Option ℕ → Bool
is_none none = true
is_none (some _) = false

abbrev pub left_path : String → String → String
left_path left right = left

abbrev pub right_path : String → String → String
right_path left right = right

abbrev pub as_invalid : Env → String → Option Err → Option Err
as_invalid env message none = none
as_invalid env message (some e) = some (status invalid_argument (message ++ env.error_text e))

-- The checks of `CreateJob` on the run configuration, which are its last.
unfoldable pub check_config : Env → (ℕ → String) → Option NewRunConfig → Option Err
check_config env text none = some (status invalid_argument "RunConfig can not be nil")
check_config env text (some config) = first_error (validate_ports text config.ports) (
    first_error (as_invalid env "invalid volume paths: " (validate_paths left_path config.volumes))
      (first_error
        (as_invalid env "invalid download paths: " (validate_paths left_path config.download_paths))
        (as_invalid env "invalid upload paths: " (validate_paths right_path config.upload_paths))))

-- The error of a field that only the service sets.
abbrev pub readonly : Bool → String → Option Err
readonly true message = none
readonly false message = some (status invalid_argument message)

-- The checks of `CreateJob`, in their order.
unfoldable pub check_new_job : Env → (ℕ → String) → Claims → NewJob → Option Err
check_new_job env text claims r =
    first_error
      (if same_text claims.username r.username
        then none
        else some (
            status permission_denied
              "Container username does not match currently authenticated user"))
      (first_error (readonly (r.id == 0) "field Id is readonly") (
        first_error (readonly (r.status == 0) "field Status is readonly") (
          first_error (readonly (is_none r.created_at) "field CreatedAt is readonly") (
            first_error (readonly (is_none r.updated_at) "field UpdatedAt is readonly")
              (check_config env text r.run_config)))))

module _ (env : Env) (models : Models) (text : ℕ → String) where
  -- `CreateJob`
  unfoldable pub create_job : ContextClaims → models.JobProto → Action models.JobProto
  create_job ctx r = do
    claims ← lift (known_claims ctx)
    guard (check_new_job env text claims (models.new_job_of r))
    job ← lift (models.job_from_proto r) wrapped "job.FromProto failed"
    begin_transaction
    created ← or_rollback env (models.create_job job) "job.Create failed"
    models.publish_changes (created.1 ∷ []) wrapped "failed to send and commit events"
    lift (models.job_to_proto created.0) wrapped "job.ToProto"
