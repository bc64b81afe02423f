-- ===== src/Client/Program/Calls.antt =====
-- When a run of the client, as client/main.go and client/cmd/root.go make it, gets to the controller
-- of its command, and how it ends when the services can not be reached.
use Prim.Native.String.{String, ◌++◌}
use scalemate.Prelude.{
  ◌≡◌, ◌⊎◌, ◌↔◌, ◌∙◌, sym, refl, Bool, true, false, List, [], ◌∷◌, ◌++◌ as ◌+++◌, arith, inl, inr,
}
use scalemate.World.{Err}
use scalemate.Client.Requests.Own.{SchedulerCommand}
use scalemate.Client.Commands.{
  CommandLine, Cobra, IsDocumented, Outcome, runs, prints, refused, out_of_range, execute,
}
use scalemate.Client.Commands.Accepted.{Accepts, execute-Accepts}
use scalemate.Client.Program.Returning.{
  controls_of, controls_of-append, exit, panic, Goes, passes, stops, any_stop, is_panic,
  IsConfigured, Connects, Finishes, command_of, in_order-Goes, and_then-Goes, call_controller-Goes,
  init_config-Goes,
}
use scalemate.Client.Program.{
  RootFlags, RootFlag, sets_level, panics_with, and_then, one_step, init_config, call_controller,
  finish_line, default_root_flags, set_root_flags, Host, Step, tells, Ran, needs_accounts,
  Invocation, parsed, rejected, in_order, execute_client, recovered, client_main,
}

-- The calls of a run that returns if and only if R holds.
module _ (host : Host) (cobra : Cobra) {R : Type 0} {cs : List SchedulerCommand} where
  recovered-Goes :
      (m : Ran (Unit {0}))
      → Goes any_stop R cs m
      → (R × (controls_of (recovered host cobra m).0 ≡ cs))
        ⊎ (¬ R × (controls_of (recovered host cobra m).0 ≡ []))
  recovered-Goes m (passes r steps called e) = inl (r, rw e called)
  recovered-Goes m (stops fails steps (exit n) a called e) = inr (fails, rw e called)
  recovered-Goes m (stops fails steps (panic x) a called e) =
      inr (fails, rw e (controls_of-append steps _ ∙ rw called refl))

-- What a call of a controller depends on: a command line with its arguments, the configuration and
-- the connections to the addresses of the flags.
abbrev pub IsCalledFor : Host → Invocation → SchedulerCommand → Type 0
IsCalledFor host (rejected message) c = ⊥
IsCalledFor host (parsed flags line args) c =
    let f : RootFlags = set_root_flags flags default_root_flags in
    Accepts line args c × IsConfigured host f.cfg_file × Connects host f (needs_accounts line)

command_of-runs : (o : Outcome) (c : SchedulerCommand) → command_of o ≡ c ∷ [] → o ≡ runs c
command_of-runs (runs d) c e = ground (arith, e)
command_of-runs (prints x) c e = absurd cc
command_of-runs (refused x) c e = absurd cc
command_of-runs out_of_range c e = absurd cc

command_of-one :
    (o : Outcome) → (command_of o ≡ []) ⊎ ((c : SchedulerCommand) × (command_of o ≡ c ∷ []))
command_of-one (runs c) = inr (c, refl)
command_of-one (prints x) = inl refl
command_of-one (refused x) = inl refl
command_of-one out_of_range = inl refl

-- The calls of a run with the given outcome of its arguments.
module _ (host : Host) (f : RootFlags) (accounts : Bool) (o : Outcome)
    (cs : List SchedulerCommand) where
  abbrev Ends : Type 0
  Ends =
      let R : Type 0 = IsConfigured host f.cfg_file × Finishes host f accounts o in
      (R × (cs ≡ command_of o)) ⊎ (¬ R × (cs ≡ []))

  Ends-one : Ends → (cs ≡ []) ⊎ ((c : SchedulerCommand) × (cs ≡ c ∷ []))
  Ends-one (inr (fails, e)) = inl e
  Ends-one (inl (r, e)) = rw e (command_of-one o)

  Ends-runs :
      (c : SchedulerCommand) (A : Type 0)
      → (o ≡ runs c) ↔ A
      → Ends
      → (cs ≡ c ∷ []) ↔ (A × IsConfigured host f.cfg_file × Connects host f accounts)
  Ends-runs c A (to, from) (inr (fails, e)) = (
    (λ d. ground (arith, d, e)),
    λ (a, is, reaches).
        let p : o ≡ runs c = from a in
        let finishes : Finishes host f accounts o = rw p reaches in absurd (fails (is, finishes)),
  )
  Ends-runs c A (to, from) (inl ((is, finishes), e)) = (
    (λ d. let p : o ≡ runs c = command_of-runs o c (sym e ∙ d) in (to p, is, rw p at finishes)),
    λ (a, _, reaches). e ∙ rw (from a) refl,
  )

-- A panic before any controller is called.
record Panics (m : Ran (Unit {0})) : Type 0 where
  failure : Err
  steps : List Step
  uncalled : controls_of steps ≡ []
  reached : m ≡ (steps, panics_with failure)

Goes-Panics :
    (R : Type 0) (cs : List SchedulerCommand) (m : Ran (Unit {0}))
    → Goes is_panic R cs m
    → ¬ R
    → Panics m
Goes-Panics R cs m (passes r steps called e) n = absurd (n r)
Goes-Panics R cs m (stops fails steps (exit k) a called e) n = absurd cc
Goes-Panics R cs m (stops fails steps (panic x) a called e) n = record {
  failure = x;
  steps = steps;
  uncalled = called;
  reached = e;
}

module _ (host : Host) (cobra : Cobra) (f : RootFlags) (accounts : Bool)
    (c : SchedulerCommand) where
  finish_line-Panics :
      ¬ Connects host f accounts → Panics (finish_line host cobra f accounts (runs c))
  unfolding finish_line
  finish_line-Panics n =
      Goes-Panics (Unit {0} × Connects host f accounts) (c ∷ []) _
        (and_then-Goes (one_step (sets_level f.log_level))
          (λ _. call_controller host cobra f accounts c)
          (passes tt (sets_level f.log_level ∷ []) refl refl)
          (call_controller-Goes host cobra f accounts c))
        (λ (u, r). n r)

  in_order-runs :
      (first : Bool)
      → in_order host cobra first f accounts (runs c)
        ≡ and_then
            (init_config host ".scalemate" f.cfg_file)
            λ _. finish_line host cobra f accounts (runs c)
  in_order-runs true = refl
  in_order-runs false = refl

  in_order-Panics :
      (first : Bool)
      → IsConfigured host f.cfg_file
      → ¬ Connects host f accounts
      → Panics (in_order host cobra first f accounts (runs c))
  in_order-Panics first is n = elim (init_config-Goes host ".scalemate" f.cfg_file) [
    | stops fails steps s a uncalled e ↦ absurd (fails is)
    | passes r steps uncalled e ↦
        let p = finish_line-Panics n in
        record {
          failure = p.failure;
          steps = steps +++ p.steps;
          uncalled = controls_of-append steps p.steps ∙ rw (uncalled, p.uncalled) refl;
          reached = in_order-runs first ∙ rw (e, p.reached) refl;
        }
  ]

module _ (host : Host) (cobra : Cobra) where
  execute_client-calls :
      (flags : List RootFlag) (line : CommandLine) (args : List String)
      → let f : RootFlags = set_root_flags flags default_root_flags in
        Ends host f
          (needs_accounts line)
          (execute cobra line args)
          (controls_of (client_main host cobra (parsed flags line args)).0)
  unfolding client_main execute_client
  execute_client-calls flags line args =
      let f : RootFlags = set_root_flags flags default_root_flags in
      recovered-Goes host cobra _ (
        in_order-Goes host cobra host.initializes_first f (needs_accounts line)
          (execute cobra line args))

  -- The client calls one controller at most, and it calls one exactly when the command line is parsed
  -- to a command with arguments that this controller is for, the file of the configuration is named
  -- or the home directory is found, and the services that the controller needs are connected at the
  -- addresses of the flags or their defaults; if the check of the number of arguments is as
  -- documented.
  pub client_main-IsCalledFor :
      (i : Invocation)
      → IsDocumented cobra
      → let cs : List SchedulerCommand = controls_of (client_main host cobra i).0 in
        ((cs ≡ []) ⊎ ((c : SchedulerCommand) × (cs ≡ c ∷ [])))
        × ((c : SchedulerCommand) → (cs ≡ c ∷ []) ↔ IsCalledFor host i c)
  unfolding client_main execute_client
  client_main-IsCalledFor (rejected message) doc =
      (inl refl, λ c. ((λ e. absurd cc), λ x. absurd x))
  client_main-IsCalledFor (parsed flags line args) doc =
      let f : RootFlags = set_root_flags flags default_root_flags in
      let calls = execute_client-calls flags line args in
      (
        Ends-one host f _ _ _ calls,
        λ c. Ends-runs host f _ _ _ c _ (execute-Accepts cobra line args c doc).1 calls,
      )

  -- When the arguments and the configuration of a command are accepted and a service that it needs can
  -- not be connected, the client calls no controller, prints an error as the last thing that it does,
  -- and ends with the exit status 0; if the check of the number of arguments is as documented.
  client_main-unreachable :
      (flags : List RootFlag) (line : CommandLine) (args : List String) (c : SchedulerCommand)
      → let f : RootFlags = set_root_flags flags default_root_flags in
        IsDocumented cobra
        → Accepts line args c
        → IsConfigured host f.cfg_file
        → ¬ Connects host f (needs_accounts line)
        → (e : Err) × (steps : List Step) × (controls_of steps ≡ [])
          × (client_main host cobra (parsed flags line args)
              ≡ (steps +++ (tells ("Error: " ++ host.error_text e ++ "\n") ∷ []), 0))
  unfolding client_main execute_client
  client_main-unreachable flags line args c doc accepted is cut =
      let f : RootFlags = set_root_flags flags default_root_flags in
      let run : execute cobra line args ≡ runs c =
        (execute-Accepts cobra line args c doc).1.1 accepted in
      let p = in_order-Panics host cobra f (needs_accounts line) c host.initializes_first is cut in
      (p.failure, p.steps, p.uncalled, rw (run, p.reached) refl)
