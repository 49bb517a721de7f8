-- ===== src/Supervisor/Fatal.antt =====
-- Which errors end the loop of Supervisor.Run (supervisor.go): a payload that crashes, a launch that
-- fails for another reason and a user who is not there are tried again.
use winsvr.Base.{
  ℕ, zero, suc, ◌≡◌, refl, ap, subst, ◌∙◌, ◌⊎◌, inl, inr, true, Bool, none, some, [], arith,
  Bool-cases, Option-cases,
}
use winsvr.Base.Int.{ℤ}
use winsvr.Go.Error.{
  Error, wrap, errors_is, err_no_elevated_token, err_elevation_required, err_no_user_session,
  Result, ok, err,
}
use winsvr.Go.World.{Env, World, FilePath, closed}
use winsvr.Go.Os.{ctx_err, emit}
use winsvr.Backoff.{sleep, grow}
use winsvr.Elevation.{should_auto_elevate}
use winsvr.Supervisor.Config.{Supervisor, Process, Session, min_delay, max_delay}
use winsvr.Supervisor.Round.{
  Step, stop, again, pause, wait_failed, launch_failed, payload_ended, payload_running,
  after_launch, launch, after_wait, round,
}
use winsvr.Supervisor.Run.{returned, run_loop}
use winsvr.Supervisor.Rounds.{Step-cases}

-- No token for an elevated launch, a payload that may not be elevated, or no way to wait for a user.
abbrev pub IsFatal : Error → Type 0
IsFatal e =
    (errors_is e err_no_elevated_token ≡ true)
    ⊎ ((errors_is e err_elevation_required ≡ true)
        ⊎ ((x : Error) × (e ≡ wrap "winsvr: waiting for a user session: %w" [] x)))

-- A round ends the loop with no other error.
abbrev pub StopsFatal : Step → Type 0
StopsFatal (stop none) = Unit
StopsFatal (stop (some e)) = IsFatal e
StopsFatal (again elevate backoff) = Unit

module _ (env : Env) (session : Session) (s : Supervisor) (bin : FilePath) where
  StopsFatal-pause :
      (d : ℤ) (elevate : Bool) (b : ℤ) (w : World)
      → StopsFatal (pause env session s bin d elevate b w).0
  unfolding pause
  StopsFatal-pause d elevate b w = elim (Bool-cases (sleep env d w).0) [
    | inl fired ↦ rw fired tt
    | inr stopped ↦ rw stopped tt
  ]

  StopsFatal-wait_failed :
      (e : Error) (w : World) → StopsFatal (wait_failed env session s bin e w).0
  unfolding wait_failed ctx_err
  StopsFatal-wait_failed e w = elim (Option-cases (ctx_err env w).0) [
    | inl live ↦ rw live (inr (inr (e, refl)))
    | inr (x, done) ↦ rw done tt
  ]

  StopsFatal-launch_failed :
      (sid : ℕ) (elevate : Bool) (b : ℤ) (e : Error) (w : World)
      → StopsFatal (launch_failed env session s bin sid elevate b e w).0
  unfolding launch_failed
  StopsFatal-launch_failed sid elevate b e w =
      elim (Bool-cases (errors_is e err_no_elevated_token)) [
        | inl t ↦ rw t (inl t)
        | inr f ↦ elim (Bool-cases (should_auto_elevate e elevate s.disable_auto_elevate)) [
          | inl t ↦ rw (f, t) tt
          | inr f' ↦ elim (Bool-cases (errors_is e err_elevation_required)) [
            | inl t ↦ rw (f, f', t) (inr (inl t))
            | inr f'' ↦ elim (Bool-cases (errors_is e err_no_user_session)) [
              | inl t ↦ rw (f, f', f'', t) (StopsFatal-pause (min_delay s) elevate b _)
              | inr f3 ↦ rw (f, f', f'', f3) (StopsFatal-pause b elevate (grow b (max_delay s)) _)
            ]
          ]
        ]
      ]

  StopsFatal-payload_ended :
      (proc : Process) (started : ℕ) (elevate : Bool) (b : ℤ) (code : Result ℕ) (w : World)
      → StopsFatal (payload_ended env session s bin proc started elevate b code w).0
  unfolding payload_ended ctx_err
  StopsFatal-payload_ended proc started elevate b code w =
      elim (Option-cases (ctx_err env (session.close proc (emit (closed proc.pid) w))).0) [
        | inr (x, done) ↦ rw done tt
        | inl live ↦ rw live (StopsFatal-pause _ elevate _ _)
      ]

  StopsFatal-after_launch :
      (sid : ℕ) (elevate : Bool) (b : ℤ) (r : Result Process) (w : World)
      → StopsFatal (after_launch env session s bin sid elevate b r w).0
  unfolding after_launch payload_running
  StopsFatal-after_launch sid elevate b (err e) w = StopsFatal-launch_failed sid elevate b e w
  StopsFatal-after_launch sid elevate b (ok p) w = StopsFatal-payload_ended p _ elevate b _ _

  StopsFatal-after_wait :
      (elevate : Bool) (b : ℤ) (r : Result ℕ) (w : World)
      → StopsFatal (after_wait env session s bin elevate b r w).0
  unfolding after_wait launch
  StopsFatal-after_wait elevate b (err e) w = StopsFatal-wait_failed e w
  StopsFatal-after_wait elevate b (ok sid) w = StopsFatal-after_launch sid elevate b _ _

  StopsFatal-round :
      (elevate : Bool) (b : ℤ) (w : World) → StopsFatal (round env session s bin elevate b w).0
  unfolding round
  StopsFatal-round elevate b w = StopsFatal-after_wait elevate b _ _

  -- The supervising loop returns an error only if there is no token for an elevated launch, if the
  -- payload requires an elevation that it is not given, or if the wait for a user failed. No end of a
  -- payload and no other failure of a launch makes it return an error.
  pub run_loop_gives_up :
      (fuel : ℕ) (elevate : Bool) (b : ℤ) (w w' : World) (e : Error)
      → run_loop env session s bin fuel elevate b w ≡ (returned (some e), w')
      → IsFatal e
  unfolding run_loop
  run_loop_gives_up zero elevate b w w' e h = absurd (cc)
  run_loop_gives_up (suc fuel) elevate b w w' e h = elim (Option-cases (ctx_err env w).0) [
    | inr (x, done) ↦ absurd (ground (arith, done))
    | inl live ↦ elim (Step-cases (round env session s bin elevate b (ctx_err env w).1).0) [
      | inl (x, ended) ↦
          let this : x ≡ some e = ground (arith, live, ended) in
          subst StopsFatal (ended ∙ ap stop this) (StopsFatal-round elevate b (ctx_err env w).1)
      | inr (elevate', b', on) ↦
          run_loop_gives_up fuel elevate' b' (round env session s bin elevate b (ctx_err env w).1).1
            w' e (ground (arith, live, on))
    ]
  ]
