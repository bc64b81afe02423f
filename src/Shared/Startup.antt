-- ===== src/Shared/Startup.antt =====
-- The options that `NewSchedulerServer` of scheduler/server/server.go and `NewAccountsServer` of
-- accounts/server/server.go apply, and the resources that the commands of the services open.
use Prim.Native.String.{String}
use scalemate.Prelude.{
  ◌≡◌, refl, inl, inr, Bool, true, false, List, [], ◌∷◌, ◌++◌, Option, none, some, if◌then◌else◌,
  arith, ap,
}
use scalemate.World.{Err, Result, Result-cases, ok, err}

-- An option changes the server, or fails.
abbrev pub ServerOption {ℓ} : Type ℓ → Type ℓ
ServerOption S = S → Result S

abbrev pub bind_option {ℓ} : {S : Type ℓ} → Result S → ServerOption S → Result S
bind_option (ok s) next = next s
bind_option (err e) next = err e

-- The loop over the options, up to the first that fails.
unfoldable pub apply_options {ℓ} : {S : Type ℓ} → List (ServerOption S) → ServerOption S
apply_options [] s = ok s
apply_options (option ∷ options) s = bind_option (option s) (apply_options options)

-- The options before one that fails, which all succeeded.
pub record FirstFailure {ℓ} {S : Type ℓ} (options : List (ServerOption S)) (s : S) (e : Err)
    : Type ℓ where
  pub before : List (ServerOption S)
  pub failing : ServerOption S
  pub after : List (ServerOption S)
  pub split : options ≡ before ++ failing ∷ after
  pub reached : S
  pub succeeded : apply_options before s ≡ ok reached
  pub failed : failing reached ≡ err e

module _ {ℓ} {S : Type ℓ} where
  cons_failure :
      (option : ServerOption S) (options : List (ServerOption S)) (s u : S) (e : Err)
      → option s ≡ ok u
      → FirstFailure options u e
      → FirstFailure (option ∷ options) s e
  unfolding apply_options
  cons_failure option options s u e p f = record {
    before = option ∷ f.before;
    failing = f.failing;
    after = f.after;
    split = ap (λ xs. option ∷ xs) f.split;
    reached = f.reached;
    succeeded = rw p f.succeeded;
    failed = f.failed;
  }

  -- If the options fail, it is with the error of the first one that fails on the server that those
  -- before it made.
  pub apply_options-FirstFailure :
      (options : List (ServerOption S)) (s : S) (e : Err)
      → apply_options options s ≡ err e
      → FirstFailure options s e
  unfolding apply_options
  apply_options-FirstFailure [] s e eq = absurd cc
  apply_options-FirstFailure (option ∷ options) s e eq = elim (Result-cases (option s)) [
    | inl (x, p) ↦ record {
      before = [];
      failing = option;
      after = options;
      split = refl;
      reached = s;
      succeeded = refl;
      failed = ground (arith, eq, p);
    }
    | inr (u, p) ↦
        cons_failure option options s u e p
          (apply_options-FirstFailure options u e (ground (arith, eq, p)))
  ]

-- What the commands of the services open, to close it at the end.
pub data Resource : Type 0 where
  database broker server subscription : Resource

-- What these commands do.
pub data UpCall : Type 0 where
  opens closes : Resource → UpCall
  logs : String → UpCall
  serves starts_consumers stops_streams stops_server : UpCall
  exits : UpCall  -- `os.Exit`, also by `Fatal` of the logger: nothing that is deferred is called

-- Whether two resources are the same.
abbrev same_resource : Resource → Resource → Bool
same_resource database database = true
same_resource broker broker = true
same_resource server server = true
same_resource subscription subscription = true
same_resource _ _ = false

abbrev close_top : Resource → List Resource → Option (List Resource)
close_top r [] = none
close_top r (x ∷ xs) = if same_resource r x then some xs else none

abbrev do_call : UpCall → List Resource → Option (List Resource)
do_call (opens r) open_ones = some (r ∷ open_ones)
do_call (closes r) open_ones = close_top r open_ones
do_call _ open_ones = some open_ones

-- The resources that are open after the calls, the last one first; none if one is closed that is not
-- the last one opened.
abbrev pub left_open : List UpCall → List Resource → Option (List Resource)
left_open [] open_ones = some open_ones
left_open (call ∷ calls) open_ones = elim (do_call call open_ones) [
  | none ↦ none
  | some later ↦ left_open calls later
]
