-- ===== src/Scheduler/Serving/Closing.antt =====
-- What `Close` of scheduler/server/server.go and the command of scheduler/cmd/up.go close.
use scalemate.Prelude.{
  ◌≡◌, refl, true, false, List, [], ◌∷◌, Option, none, some, arith, inl, inr, Option-cases,
  Bool-cases,
}
use scalemate.World.{Err}
use scalemate.Shared.Startup.{left_open}
use scalemate.Scheduler.Serving.{
  Parts, SchedulerServer, close_consumers, close_server, UpEnv, scheduler_up,
}

-- Whatever fails, the command `up` of the scheduler closes each resource that it has opened, the last
-- one first.
pub scheduler_up-closes : (env : UpEnv) → left_open (scheduler_up env) [] ≡ some []
unfolding scheduler_up
scheduler_up-closes env = elim (Option-cases env.on_database) [
  | inr (x, p) ↦ ground (arith, p)
  | inl p ↦ elim (Option-cases env.on_broker) [
    | inr (x, q) ↦ ground (arith, p, q)
    | inl q ↦ elim (Option-cases env.on_producer) [
      | inr (x, r) ↦ ground (arith, p, q, r)
      | inl r ↦ elim (Option-cases env.on_injector) [
        | inr (x, s) ↦ ground (arith, p, q, r, s)
        | inl s ↦ elim (Option-cases env.on_server) [
          | inr (x, t) ↦ ground (arith, p, q, r, s, t)
          | inl t ↦ elim (Bool-cases env.context_done) [
            | inl u ↦ ground (arith, p, q, r, s, t, u)
            | inr u ↦ ground (arith, p, q, r, s, t, u)
          ]
        ]
      ]
    ]
  ]
]

module _ {Consumer : Type 0} (close : Consumer → Option Err) where
  -- Each of these consumers is closed with no error.
  abbrev pub AllClose : List Consumer → Type 0
  AllClose [] = Unit
  AllClose (c ∷ cs) = (close c ≡ none) × AllClose cs

  close_consumers-AllClose :
      (cs : List Consumer)
      → (close_consumers close cs).0 ≡ none
      → AllClose cs × ((close_consumers close cs).1 ≡ cs)
  unfolding close_consumers
  close_consumers-AllClose [] e = (tt, refl)
  close_consumers-AllClose (c ∷ cs) e = elim (Option-cases (close c)) [
    | inr (x, p) ↦ absurd (ground (arith, e, p))
    | inl p ↦
        let (all, q) = close_consumers-AllClose cs (ground (arith, e, p)) in
        ((p, all), ground (arith, p, q))
  ]

module _ (parts : Parts) (close : parts.Consumer → Option Err) where
  -- The end of `Close`, which reports no error only if it has closed all the consumers and the producer,
  -- each with no error.
  pub close_server-AllClose :
      (answer : Option Err) (s : SchedulerServer parts)
      → (close_server parts close answer s).0 ≡ none
      → AllClose close s.consumers
        × (answer ≡ none)
        × ((close_server parts close answer s).1 ≡ s.consumers)
        × ((close_server parts close answer s).2 ≡ true)
  unfolding close_server
  close_server-AllClose answer s e = elim (Option-cases (close_consumers close s.consumers).0) [
    | inr (x, p) ↦ absurd (ground (arith, e, p))
    | inl p ↦
        let (all, q) = close_consumers-AllClose close s.consumers p in
        elim (Option-cases answer) [
          | inr (x, r) ↦ absurd (ground (arith, e, p, r))
          | inl r ↦ (all, r, ground (arith, p, q, r), ground (arith, p, q, r))
        ]
  ]

  -- A consumer that fails to close keeps those behind it open, and the producer.
  pub close_server-stops :
      (answer : Option Err) (s : SchedulerServer parts) (c : parts.Consumer)
      (cs : List parts.Consumer) (x : Err)
      → s.consumers ≡ c ∷ cs
      → close c ≡ some x
      → ((close_server parts close answer s).1 ≡ c ∷ [])
        × ((close_server parts close answer s).2 ≡ false)
  unfolding close_server close_consumers
  close_server-stops answer s c cs x p q = (rw p (ground (arith, q)), rw p (ground (arith, q)))
