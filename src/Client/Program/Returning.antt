-- ===== src/Client/Program/Returning.antt =====
-- When a part of a run of the client, as client/cmd/root.go and shared/client/client.go make it,
-- returns, and whether it has called a controller then.
use Prim.Native.String.{String, ◌++◌}
use scalemate.Prelude.{
  ℕ, ◌≡◌, ◌≢◌, ◌⊎◌, ◌↔◌, ◌∙◌, refl, ap, Bool, true, false, List, [], ◌∷◌, ◌++◌ as ◌+++◌, none,
  arith, inl, inr, Bool-cases, Option-cases, same_text, eq→same_text, same_text→eq,
}
use scalemate.World.{Err, wrap, Result-cases, ok}
use scalemate.Client.Requests.Own.{SchedulerCommand}
use scalemate.Client.Commands.{Cobra, Outcome, runs, prints, refused, out_of_range}
use scalemate.Client.Program.{
  RootFlags, Host, config_file, config_search, Step, tells, sets_level, connects, controls, Ending,
  returns, exits_with, panics_with, Ran, and_then, one_step, with_name, init_config,
  new_grpc_connection, new_accounts_client, new_scheduler_client, call_controller, finish_line,
  in_order,
}

-- The controllers that are called.
abbrev pub controls_of : List Step → List SchedulerCommand
controls_of [] = []
controls_of (controls c ∷ steps) = c ∷ controls_of steps
controls_of (_ ∷ steps) = controls_of steps

pub controls_of-append :
    (xs ys : List Step) → controls_of (xs +++ ys) ≡ controls_of xs +++ controls_of ys
controls_of-append [] ys = refl
controls_of-append (controls c ∷ xs) ys = ap (λ cs. c ∷ cs) (controls_of-append xs ys)
controls_of-append (tells x ∷ xs) ys = controls_of-append xs ys
controls_of-append (sets_level n ∷ xs) ys = controls_of-append xs ys
controls_of-append (connects x ∷ xs) ys = controls_of-append xs ys

-- Where a part of the program stops.
pub data Stop : Type 0 where
  exit : ℕ → Stop
  panic : Err → Stop

abbrev pub ends : Stop → Ending (Unit {0})
ends (exit n) = exits_with n
ends (panic e) = panics_with e

abbrev pub is_panic : Stop → Bool
is_panic (exit n) = false
is_panic (panic e) = true

abbrev pub any_stop : Stop → Bool
any_stop s = true

-- A part of the program returns if and only if R holds, and has then called the controllers cs;
-- otherwise it has called none and stops in one of the given ways.
pub data Goes (allowed : Stop → Bool) (R : Type 0) (cs : List SchedulerCommand)
    (run : Ran (Unit {0})) : Type 0 where
  passes :
      R
      → (steps : List Step) → controls_of steps ≡ cs
      → run ≡ (steps, returns tt)
      → Goes allowed R cs run
  stops :
      ¬ R
      → (steps : List Step) → (s : Stop) → allowed s ≡ true
      → controls_of steps ≡ []
      → run ≡ (steps, ends s)
      → Goes allowed R cs run

and_then-stops :
    (steps : List Step) (s : Stop) (next : Unit {0} → Ran (Unit {0}))
    → and_then (steps, ends s) next ≡ (steps, ends s)
and_then-stops steps (exit n) next = refl
and_then-stops steps (panic e) next = refl

module _ {allowed : Stop → Bool} {R : Type 0} {cs : List SchedulerCommand} where
  any-Goes : (m : Ran (Unit {0})) → Goes allowed R cs m → Goes any_stop R cs m
  any-Goes m (passes r steps called e) = passes r steps called e
  any-Goes m (stops fails steps s a called e) = stops fails steps s refl called e

pub equivalent-Goes :
    {allowed : Stop → Bool} {R S : Type 0} {cs : List SchedulerCommand} {m : Ran (Unit {0})}
    → R ↔ S
    → Goes allowed R cs m
    → Goes allowed S cs m
equivalent-Goes (to, from) (passes r steps called e) = passes (to r) steps called e
equivalent-Goes (to, from) (stops fails steps s a called e) =
    stops (λ r. fails (from r)) steps s a called e

module _ {allowed : Stop → Bool} {R S : Type 0} {cs : List SchedulerCommand} where
  pub and_then-Goes :
      (m : Ran (Unit {0})) (next : Unit {0} → Ran (Unit {0}))
      → Goes allowed R [] m
      → Goes allowed S cs (next tt)
      → Goes allowed (R × S) cs (and_then m next)
  and_then-Goes m next (stops fails steps s a none_called e) _ =
      stops (λ (r, s). fails r) steps s a none_called (rw e (and_then-stops steps s next))
  and_then-Goes m next (passes r steps none_called e) (passes s more called d) =
      passes (r, s) (steps +++ more) (controls_of-append steps more ∙ rw (none_called, called) refl)
        (rw (e, d) refl)
  and_then-Goes m next (passes r steps none_called e) (stops fails more s a called d) =
      stops (λ (r, s). fails s) (steps +++ more) s a
        (controls_of-append steps more ∙ rw (none_called, called) refl) (rw (e, d) refl)

-- The file of the configuration is named by a flag, or the home directory is found.
abbrev pub IsConfigured : Host → String → Type 0
IsConfigured host cfg = (cfg ≢ "") ⊎ ((home : String) × (host.home_dir ≡ ok home))

-- A connection is made to the address.
abbrev pub Reaches : Host → String → Type 0
Reaches host addr =
    (host.read_certificate "cert/cert.pem" ≡ none) × (host.dial ("dns://" ++ addr) ≡ none)

-- The connections that a controller needs.
abbrev pub Connects : Host → RootFlags → (accounts : Bool) → Type 0
Connects host f true = Reaches host f.accounts_service_addr × Reaches host f.scheduler_service_addr
Connects host f false = Reaches host f.scheduler_service_addr

-- The controller that a command calls.
abbrev pub command_of : Outcome → List SchedulerCommand
command_of (runs c) = c ∷ []
command_of _ = []

module _ (host : Host) where
  read-Goes :
      (name cfg : String) (source : _)
      → IsConfigured host cfg
      → init_config host name cfg ≡ with_name (host.read_in_config source)
      → Goes any_stop (IsConfigured host cfg) [] (init_config host name cfg)
  read-Goes name cfg source is e = elim (Option-cases (host.read_in_config source)) [
    | inl p ↦ passes is [] refl (e ∙ rw p refl)
    | inr (file, p) ↦
        passes is (tells ("Using config file: " ++ file ++ "\n") ∷ []) refl (e ∙ rw p refl)
  ]

  pub init_config-Goes :
      (name cfg : String) → Goes any_stop (IsConfigured host cfg) [] (init_config host name cfg)
  unfolding init_config
  init_config-Goes name cfg = elim (Bool-cases (same_text cfg "")) [
    | inr p ↦
        read-Goes name cfg (config_file cfg) (inl (λ e. ground (arith, p, eq→same_text cfg "" e)))
          (rw p refl)
    | inl p ↦ elim (Result-cases host.home_dir) [
      | inr (home, q) ↦
          read-Goes name cfg (config_search home name) (inr (home, q)) (rw (p, q) refl)
      | inl (e, q) ↦
          stops (elim [ inl n ↦ n (same_text→eq cfg "" p) | inr (home, h) ↦ ground (arith, q, h) ])
            (tells (host.error_text e ++ "\n") ∷ []) (exit 1) refl refl (rw (p, q) refl)
    ]
  ]

  connection-Goes :
      (addr : String)
      → Goes is_panic (Reaches host addr) [] (new_grpc_connection host ("dns://" ++ addr))
  unfolding new_grpc_connection
  connection-Goes addr = elim (Option-cases (host.read_certificate "cert/cert.pem")) [
    | inr (e, p) ↦ stops (λ (n, d). ground (arith, n, p)) [] (panic e) refl refl (rw p refl)
    | inl p ↦ elim (Option-cases (host.dial ("dns://" ++ addr))) [
      | inr (e, q) ↦
          stops (λ (n, d). ground (arith, d, q)) (connects ("dns://" ++ addr) ∷ [])
            (panic (wrap e "could not connect to a gRPC service")) refl refl (rw (p, q) refl)
      | inl q ↦ passes (p, q) (connects ("dns://" ++ addr) ∷ []) refl (rw (p, q) refl)
    ]
  ]

  scheduler-Goes :
      (addr : String) (c : SchedulerCommand)
      → Goes is_panic
          (Reaches host addr)
          (c ∷ [])
          (and_then (new_scheduler_client host addr) λ _. one_step (controls c))
  scheduler-Goes addr c =
      equivalent-Goes ((λ (r, u). r), λ r. (r, tt))
        (and_then-Goes (new_scheduler_client host addr) (λ _. one_step (controls c))
          (connection-Goes addr) (passes tt (controls c ∷ []) refl refl))

  pub call_controller-Goes :
      (cobra : Cobra) (f : RootFlags) (accounts : Bool) (c : SchedulerCommand)
      → Goes is_panic (Connects host f accounts) (c ∷ []) (call_controller host cobra f accounts c)
  unfolding call_controller
  call_controller-Goes cobra f false c = scheduler-Goes f.scheduler_service_addr c
  call_controller-Goes cobra f true c =
      and_then-Goes (new_accounts_client host f.accounts_service_addr) _
        (connection-Goes f.accounts_service_addr) (scheduler-Goes f.scheduler_service_addr c)

  -- What the rest of a run depends on.
  abbrev pub Finishes : RootFlags → Bool → Outcome → Type 0
  Finishes f accounts (runs c) = Connects host f accounts
  Finishes f accounts (prints message) = Unit
  Finishes f accounts _ = ⊥

  finish_line-Goes :
      (cobra : Cobra) (f : RootFlags) (accounts : Bool) (o : Outcome)
      → Goes any_stop (Finishes f accounts o) (command_of o) (finish_line host cobra f accounts o)
  unfolding finish_line
  finish_line-Goes cobra f accounts (runs c) =
      equivalent-Goes ((λ (u, r). r), λ r. (tt, r))
        (and_then-Goes (one_step (sets_level f.log_level))
          (λ _. call_controller host cobra f accounts c)
          (passes tt (sets_level f.log_level ∷ []) refl refl)
          (any-Goes (call_controller host cobra f accounts c)
            (call_controller-Goes cobra f accounts c)))
  finish_line-Goes cobra f accounts (prints message) =
      passes tt (sets_level f.log_level ∷ tells message ∷ []) refl refl
  finish_line-Goes cobra f accounts out_of_range =
      stops (λ x. x) (sets_level f.log_level ∷ []) (panic host.index_error) refl refl refl
  finish_line-Goes cobra f accounts (refused message) =
      stops (λ x. x) (tells (message ++ "\n") ∷ []) (exit 1) refl refl refl

  pub in_order-Goes :
      (cobra : Cobra) (first : Bool) (f : RootFlags) (accounts : Bool) (o : Outcome)
      → Goes any_stop
          (IsConfigured host f.cfg_file × Finishes f accounts o)
          (command_of o)
          (in_order host cobra first f accounts o)
  in_order-Goes cobra false f accounts (refused message) =
      stops (λ (c, x). x) (tells (message ++ "\n") ∷ []) (exit 1) refl refl refl
  in_order-Goes cobra _ f accounts o =
      and_then-Goes (init_config host ".scalemate" f.cfg_file) _
        (init_config-Goes ".scalemate" f.cfg_file) (finish_line-Goes cobra f accounts o)
