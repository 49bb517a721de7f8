-- ===== src/Supervisor/Bounds.antt =====
-- The restart delay stays between its bounds, elevation is only turned on where that is allowed,
-- and the loop ends without an error only when the context was done (supervisor.go).
use winsvr.Base.{
  ℕ, ◌+◌, ◌≤◌, ◌<◌, ◌≡◌, refl, ◌⊎◌, inl, inr, Bool, true, false, none, some, arith, Bool-cases,
  Option-cases, min, leb,
}
use winsvr.Base.Int.{ℤ, pos, pos_part, max_int64}
use winsvr.Go.Error.{
  Error, errors_is, err_no_elevated_token, err_elevation_required, err_no_user_session, Result, ok,
  err,
}
use winsvr.Go.World.{Env, World, FilePath, next, closed}
use winsvr.Go.Os.{ctx_err, wait_timer, emit}
use winsvr.Backoff.{sleep, grow, healthy_after}
use winsvr.Backoff.Growth.{grow-eq-min}
use winsvr.Elevation.{should_auto_elevate}
use winsvr.Elevation.Choice.{should_auto_elevate_exact}
use winsvr.Supervisor.Config.{Supervisor, Process, Session, min_delay, max_delay}
use winsvr.Supervisor.Round.{
  Step, stop, again, pause, wait_failed, launch_failed, after_run, payload_ended, payload_running,
  after_launch, launch, after_wait, round,
}

-- The configured delays are int64 values.
pub record HasInt64Delays (s : Supervisor) : Type 0 where
  pub min_fits : pos_part s.min_backoff ≤ max_int64
  pub max_fits : pos_part s.max_backoff ≤ max_int64

-- At some moment the context is done.
abbrev pub IsCancelled : Env → Type 0
IsCancelled env = (t : ℕ) × (e : Error) × (env.ctx_err t ≡ some e)

module _ (s : Supervisor) where
  -- A delay between the two bounds.
  abbrev pub IsDelay : ℤ → Type 0
  IsDelay b =
      (n : ℕ) × (b ≡ pos n) × (0 < n) × (pos_part (min_delay s) ≤ n) × (n ≤ pos_part (max_delay s))

  pub IsDelay-min : IsDelay (min_delay s)
  unfolding min_delay max_delay
  IsDelay-min = (pos_part (min_delay s), ground arith, ground arith, ground arith, ground arith)

  module _ (fits : HasInt64Delays s) where
    max_delay_fits : (hi : ℕ) × (max_delay s ≡ pos hi) × (hi ≤ max_int64)
    unfolding min_delay max_delay
    max_delay_fits = (
      pos_part (max_delay s),
      ground (arith, fits.min_fits, fits.max_fits),
      ground (arith, fits.min_fits, fits.max_fits),
    )

    IsDelay-grow : (b : ℤ) → IsDelay b → IsDelay (grow b (max_delay s))
    IsDelay-grow b (n, e, positive, above, below) =
        let (hi, is_hi, small) = max_delay_fits in
        let grown : grow b (max_delay s) ≡ pos (min (n + n) hi) =
          rw (e, is_hi) (grow-eq-min n hi (ground (arith, below, is_hi)) small) in
        (
          min (n + n) hi,
          grown,
          ground (arith, positive, below, is_hi),
          ground (arith, above, below, is_hi),
          ground (arith, is_hi),
        )

module _ (env : Env) (session : Session) (s : Supervisor) (bin : FilePath) where
  -- What the end of a round says, from the elevation that the round had.
  abbrev pub IsFine : Bool → Step → Type 0
  IsFine elevate (stop none) = IsCancelled env
  IsFine elevate (stop (some e)) = Unit
  IsFine elevate (again elevate' backoff') =
      IsDelay s backoff'
      × ((elevate' ≡ elevate)
          ⊎ ((elevate ≡ false) × (elevate' ≡ true) × (s.disable_auto_elevate ≡ false)))

  -- A sleep that does not end by its timer ends because the context is done.
  pub sleep-false : (d : ℤ) (w : World) → (sleep env d w).0 ≡ false → IsCancelled env
  unfolding sleep wait_timer next emit
  sleep-false d w h = elim (Option-cases (env.ctx_err (w.tick + 1))) [
    | inl live ↦ absurd (ground (arith, live))
    | inr (e, done) ↦ (w.tick + 1, e, done)
  ]

  pub ctx_err_some : (w : World) (e : Error) → (ctx_err env w).0 ≡ some e → IsCancelled env
  unfolding ctx_err
  ctx_err_some w e h = (w.tick, e, h)

  module _ (fits : HasInt64Delays s) where
    IsFine-pause :
        (d : ℤ) (elevate : Bool) (b : ℤ) (w : World)
        → IsDelay s b
        → IsFine elevate (pause env session s bin d elevate b w).0
    unfolding pause
    IsFine-pause d elevate b w h = elim (Bool-cases (sleep env d w).0) [
      | inl fired ↦ rw fired (h, inl refl)
      | inr stopped ↦ rw stopped (sleep-false d w stopped)
    ]

    IsFine-wait_failed :
        (elevate : Bool) (e : Error) (w : World)
        → IsFine elevate (wait_failed env session s bin e w).0
    unfolding wait_failed ctx_err
    IsFine-wait_failed elevate e w = elim (Option-cases (ctx_err env w).0) [
      | inl live ↦ rw live tt
      | inr (x, done) ↦ rw done (ctx_err_some w x done)
    ]

    IsFine-launch_failed :
        (sid : ℕ) (elevate : Bool) (b : ℤ) (e : Error) (w : World)
        → IsDelay s b
        → IsFine elevate (launch_failed env session s bin sid elevate b e w).0
    unfolding launch_failed
    IsFine-launch_failed sid elevate b e w h =
        elim (Bool-cases (errors_is e err_no_elevated_token)) [
          | inl t ↦ rw t tt
          | inr f ↦ elim (Bool-cases (should_auto_elevate e elevate s.disable_auto_elevate)) [
            | inl t ↦
                let (low, allowed, _) =
                  (should_auto_elevate_exact e elevate s.disable_auto_elevate).0 t in
                rw (f, t) (h, inr (low, refl, allowed))
            | inr f' ↦ elim (Bool-cases (errors_is e err_elevation_required)) [
              | inl t ↦ rw (f, f', t) tt
              | inr f'' ↦ elim (Bool-cases (errors_is e err_no_user_session)) [
                | inl t ↦ rw (f, f', f'', t) (IsFine-pause (min_delay s) elevate b _ h)
                | inr f3 ↦
                    rw (f, f', f'', f3)
                      (IsFine-pause b elevate (grow b (max_delay s)) _ (IsDelay-grow s fits b h))
              ]
            ]
          ]
        ]

    IsDelay-after_run :
        (started ended : ℕ) (b : ℤ)
        → IsDelay s b
        → IsDelay s (after_run env session s bin started ended b)
    unfolding after_run
    IsDelay-after_run started ended b h = elim (Bool-cases (leb (started + healthy_after) ended)) [
      | inl healthy ↦ rw healthy (IsDelay-min s)
      | inr short ↦ rw short h
    ]

    IsFine-payload_ended :
        (proc : Process) (started : ℕ) (elevate : Bool) (b : ℤ) (code : Result ℕ) (w : World)
        → IsDelay s b
        → IsFine elevate (payload_ended env session s bin proc started elevate b code w).0
    unfolding payload_ended ctx_err
    IsFine-payload_ended proc started elevate b code w h =
        let w1 = session.close proc (emit (closed proc.pid) w) in
        elim (Option-cases (ctx_err env w1).0) [
          | inr (x, done) ↦ rw done (ctx_err_some w1 x done)
          | inl live ↦
              rw live (
                IsFine-pause _ elevate _ _
                  (IsDelay-grow s fits _ (IsDelay-after_run started _ b h)))
        ]

    IsFine-after_launch :
        (sid : ℕ) (elevate : Bool) (b : ℤ) (r : Result Process) (w : World)
        → IsDelay s b
        → IsFine elevate (after_launch env session s bin sid elevate b r w).0
    unfolding after_launch payload_running
    IsFine-after_launch sid elevate b (err e) w h = IsFine-launch_failed sid elevate b e w h
    IsFine-after_launch sid elevate b (ok p) w h = IsFine-payload_ended p _ elevate b _ _ h

    IsFine-after_wait :
        (elevate : Bool) (b : ℤ) (r : Result ℕ) (w : World)
        → IsDelay s b
        → IsFine elevate (after_wait env session s bin elevate b r w).0
    unfolding after_wait launch
    IsFine-after_wait elevate b (err e) w h = IsFine-wait_failed elevate e w
    IsFine-after_wait elevate b (ok sid) w h = IsFine-after_launch sid elevate b _ _ h

    pub IsFine-round :
        (elevate : Bool) (b : ℤ) (w : World)
        → IsDelay s b
        → IsFine elevate (round env session s bin elevate b w).0
    unfolding round
    IsFine-round elevate b w h = IsFine-after_wait elevate b _ _ h
