-- ===== src/Supervisor/Cancelled.antt =====
-- Run of supervisor.go returns no error only while its context is done.
use Prim.Native.String.{String}
use winsvr.Base.{
  ℕ, zero, suc, ◌+◌, ◌≡◌, ap, subst, ◌∙◌, inl, inr, Bool, none, some, List, arith, Bool-cases,
  Option-cases,
}
use winsvr.Base.Int.{ℤ}
use winsvr.Go.Error.{
  Error, errors_is, err_no_elevated_token, err_elevation_required, err_no_user_session, Result, ok,
  err,
}
use winsvr.Go.World.{Env, World, FilePath, Level, Value, closed, next}
use winsvr.Go.Os.{ctx_err, emit, log_record}
use winsvr.Backoff.{sleep, grow}
use winsvr.Elevation.{should_auto_elevate}
use winsvr.Supervisor.Config.{Supervisor, Process, Session, say, min_delay, max_delay}
use winsvr.Supervisor.Round.{
  Step, stop, again, pause, wait_failed, launch_failed, payload_ended, payload_running,
  after_launch, launch, after_wait, round,
}
use winsvr.Supervisor.Run.{returned, run_loop}
use winsvr.Supervisor.Updates.{IsLasting, lost_timer}
use winsvr.Supervisor.Rounds.{Step-cases}

-- The context is done in a state.
abbrev pub IsDone : Env → World → Type 0
IsDone env w = (x : Error) × (env.ctx_err w.tick ≡ some x)

-- A round that ends the loop without an error ends it when the context is done.
abbrev pub StopsDone : Env → Step × World → Type 0
StopsDone env (stop none, w) = IsDone env w
StopsDone env (stop (some e), w) = Unit
StopsDone env (again elevate backoff, w) = Unit

module _ (env : Env) (session : Session) (s : Supervisor) (lasting : IsLasting env) where
  -- A context that was done when it was asked is done after that and a record.
  pub IsDone-say :
      (level : Level) (message : String) (attrs : List (String × Value)) (w : World) (x : Error)
      → (ctx_err env w).0 ≡ some x
      → IsDone env (say s level message attrs (ctx_err env w).1)
  unfolding say log_record ctx_err next
  IsDone-say level message attrs w x over =
      let (x', still) = lasting w.tick (w.tick + 1) (omega arith) x over in
      (x', ground (arith, still))

  module _ (bin : FilePath) where
    StopsDone-pause :
        (d : ℤ) (elevate : Bool) (b : ℤ) (w : World)
        → StopsDone env (pause env session s bin d elevate b w)
    unfolding pause
    StopsDone-pause d elevate b w = elim (Bool-cases (sleep env d w).0) [
      | inl fired ↦ rw fired tt
      | inr stopped ↦ rw stopped (lost_timer env d w stopped)
    ]

    StopsDone-wait_failed :
        (e : Error) (w : World) → StopsDone env (wait_failed env session s bin e w)
    unfolding wait_failed ctx_err
    StopsDone-wait_failed e w = elim (Option-cases (ctx_err env w).0) [
      | inl live ↦ rw live tt
      | inr (x, done) ↦ rw done (IsDone-say _ _ _ w x done)
    ]

    StopsDone-launch_failed :
        (sid : ℕ) (elevate : Bool) (b : ℤ) (e : Error) (w : World)
        → StopsDone env (launch_failed env session s bin sid elevate b e w)
    unfolding launch_failed
    StopsDone-launch_failed sid elevate b e w =
        elim (Bool-cases (errors_is e err_no_elevated_token)) [
          | inl t ↦ rw t tt
          | inr f ↦ elim (Bool-cases (should_auto_elevate e elevate s.disable_auto_elevate)) [
            | inl t ↦ rw (f, t) tt
            | inr f' ↦ elim (Bool-cases (errors_is e err_elevation_required)) [
              | inl t ↦ rw (f, f', t) tt
              | inr f'' ↦ elim (Bool-cases (errors_is e err_no_user_session)) [
                | inl t ↦ rw (f, f', f'', t) (StopsDone-pause (min_delay s) elevate b _)
                | inr f3 ↦ rw (f, f', f'', f3) (StopsDone-pause b elevate (grow b (max_delay s)) _)
              ]
            ]
          ]
        ]

    StopsDone-payload_ended :
        (proc : Process) (started : ℕ) (elevate : Bool) (b : ℤ) (code : Result ℕ) (w : World)
        → StopsDone env (payload_ended env session s bin proc started elevate b code w)
    unfolding payload_ended ctx_err
    StopsDone-payload_ended proc started elevate b code w =
        let w1 = session.close proc (emit (closed proc.pid) w) in
        elim (Option-cases (ctx_err env w1).0) [
          | inr (x, done) ↦ rw done (IsDone-say _ _ _ w1 x done)
          | inl live ↦ rw live (StopsDone-pause _ elevate _ _)
        ]

    StopsDone-after_launch :
        (sid : ℕ) (elevate : Bool) (b : ℤ) (r : Result Process) (w : World)
        → StopsDone env (after_launch env session s bin sid elevate b r w)
    unfolding after_launch payload_running
    StopsDone-after_launch sid elevate b (err e) w = StopsDone-launch_failed sid elevate b e w
    StopsDone-after_launch sid elevate b (ok p) w = StopsDone-payload_ended p _ elevate b _ _

    StopsDone-after_wait :
        (elevate : Bool) (b : ℤ) (r : Result ℕ) (w : World)
        → StopsDone env (after_wait env session s bin elevate b r w)
    unfolding after_wait launch
    StopsDone-after_wait elevate b (err e) w = StopsDone-wait_failed e w
    StopsDone-after_wait elevate b (ok sid) w = StopsDone-after_launch sid elevate b _ _

    StopsDone-round :
        (elevate : Bool) (b : ℤ) (w : World) → StopsDone env (round env session s bin elevate b w)
    unfolding round
    StopsDone-round elevate b w = StopsDone-after_wait elevate b _ _

    pub run_loop-IsDone :
        (fuel : ℕ) (elevate : Bool) (b : ℤ) (w w' : World)
        → run_loop env session s bin fuel elevate b w ≡ (returned none, w')
        → IsDone env w'
    unfolding run_loop ctx_err next
    run_loop-IsDone zero elevate b w w' h = absurd (cc)
    run_loop-IsDone (suc fuel) elevate b w w' h = elim (Option-cases (ctx_err env w).0) [
      | inr (x, over) ↦
          let (x', still) = lasting w.tick (w.tick + 1) (omega arith) x over in
          (x', ground (arith, over, still))
      | inl live ↦ elim (Step-cases (round env session s bin elevate b (ctx_err env w).1).0) [
        | inl (r, ended) ↦
            let w1 = (round env session s bin elevate b (ctx_err env w).1).1 in
            let same : w1 ≡ w' = ground (arith, live, ended) in
            let nothing : r ≡ none = ground (arith, live, ended) in
            subst (λ v. IsDone env v) same
              (subst (λ st. StopsDone env (st, w1)) (ended ∙ ap stop nothing)
                (StopsDone-round elevate b (ctx_err env w).1))
        | inr (elevate', b', on) ↦
            run_loop-IsDone fuel elevate' b' (round env session s bin elevate b (ctx_err env w).1).1
              w' (ground (arith, live, on))
      ]
    ]
