-- ===== src/Supervisor/Elevates.antt =====
-- When the loop of Supervisor.Run (supervisor.go) goes over to launching the payload elevated.
use winsvr.Base.{
  ◌≡◌, refl, sym, ap, subst, ◌∙◌, ◌⊎◌, inl, inr, true, false, Bool, [], ◌∷◌, ◌++◌, List, ℕ,
  Bool-cases, Option-cases,
}
use winsvr.Base.Int.{ℤ}
use winsvr.Base.Bytes.{text}
use winsvr.Go.Error.{
  Error, errors_is, err_no_elevated_token, err_elevation_required, err_no_user_session, Result, ok,
  err,
}
use winsvr.Go.World.{Env, World, FilePath, Event, closed, launched}
use winsvr.Go.Os.{ctx_err, emit}
use winsvr.Backoff.{sleep, grow}
use winsvr.Elevation.{should_auto_elevate}
use winsvr.Elevation.Choice.{should_auto_elevate_exact}
use winsvr.Supervisor.Config.{Supervisor, Process, Session, min_delay, max_delay}
use winsvr.Supervisor.Round.{
  Step, stop, again, pause, wait_failed, launch_failed, payload_ended, payload_running,
  after_launch, launch, after_wait, round,
}
use winsvr.Supervisor.Rounds.{Rounds, begin, next}

-- A call's answer and its state.
answered : (x : Result Process × World) (r : Result Process) → x.0 ≡ r → x ≡ (r, x.1)
answered x r h = ap (λ y. (y, x.1)) h

module _ (env : Env) (session : Session) (s : Supervisor) (bin : FilePath) where
  -- A launch of the payload, elevated or not, was begun and ended with this error.
  abbrev IsRefused : Bool → Error → Type 0
  IsRefused elevate e =
      (sid : ℕ) × (v : World) × (v' : World) × ((before : List Event) × (v.events
          ≡ before ++ (launched sid elevate ∷ [])))
      × (session.launch_in_session sid
            (record { path = bin; args = []; dir = text ""; elevated = elevate; hidden = s.hidden })
            v
          ≡ (err e, v'))

  -- The payload was launched without elevation, and the launch ended with ErrElevationRequired.
  abbrev pub IsAskedFor : Type 0
  IsAskedFor = (e : Error) × IsRefused false e × (errors_is e err_elevation_required ≡ true)

  -- From one round to the next, only that and a retry that is not disabled turn elevation on.
  abbrev Elevates : Bool → Step → Type 0
  Elevates elevate (stop e) = Unit
  Elevates elevate (again elevate' backoff) =
      (elevate' ≡ elevate) ⊎ ((elevate ≡ false) × (s.disable_auto_elevate ≡ false) × IsAskedFor)

  Elevates-pause :
      (d : ℤ) (elevate : Bool) (b : ℤ) (w : World)
      → Elevates elevate (pause env session s bin d elevate b w).0
  unfolding pause
  Elevates-pause d elevate b w = elim (Bool-cases (sleep env d w).0) [
    | inl fired ↦ rw fired (inl refl)
    | inr stopped ↦ rw stopped tt
  ]

  Elevates-wait_failed :
      (elevate : Bool) (e : Error) (w : World)
      → Elevates elevate (wait_failed env session s bin e w).0
  unfolding wait_failed ctx_err
  Elevates-wait_failed elevate e w = elim (Option-cases (ctx_err env w).0) [
    | inl live ↦ rw live tt
    | inr (x, done) ↦ rw done tt
  ]

  Elevates-launch_failed :
      (sid : ℕ) (elevate : Bool) (b : ℤ) (e : Error) (w : World)
      → IsRefused elevate e
      → Elevates elevate (launch_failed env session s bin sid elevate b e w).0
  unfolding launch_failed
  Elevates-launch_failed sid elevate b e w refused =
      elim (Bool-cases (errors_is e err_no_elevated_token)) [
        | inl t ↦ rw t tt
        | inr f ↦ elim (Bool-cases (should_auto_elevate e elevate s.disable_auto_elevate)) [
          | inl t ↦
              let (low, allowed, asked) =
                (should_auto_elevate_exact e elevate s.disable_auto_elevate).0 t in
              rw (f, t) (inr (low, allowed, (e, subst (λ x. IsRefused x e) low refused, asked)))
          | inr f' ↦ elim (Bool-cases (errors_is e err_elevation_required)) [
            | inl t ↦ rw (f, f', t) tt
            | inr f'' ↦ elim (Bool-cases (errors_is e err_no_user_session)) [
              | inl t ↦ rw (f, f', f'', t) (Elevates-pause (min_delay s) elevate b _)
              | inr f3 ↦ rw (f, f', f'', f3) (Elevates-pause b elevate (grow b (max_delay s)) _)
            ]
          ]
        ]
      ]

  Elevates-payload_ended :
      (proc : Process) (started : ℕ) (elevate : Bool) (b : ℤ) (code : Result ℕ) (w : World)
      → Elevates elevate (payload_ended env session s bin proc started elevate b code w).0
  unfolding payload_ended ctx_err
  Elevates-payload_ended proc started elevate b code w =
      elim (Option-cases (ctx_err env (session.close proc (emit (closed proc.pid) w))).0) [
        | inr (x, done) ↦ rw done tt
        | inl live ↦ rw live (Elevates-pause _ elevate _ _)
      ]

  Elevates-after_launch :
      (sid : ℕ) (elevate : Bool) (b : ℤ) (r : Result Process) (w : World)
      → ((e : Error) → r ≡ err e → IsRefused elevate e)
      → Elevates elevate (after_launch env session s bin sid elevate b r w).0
  unfolding after_launch payload_running
  Elevates-after_launch sid elevate b (err e) w refused =
      Elevates-launch_failed sid elevate b e w (refused e refl)
  Elevates-after_launch sid elevate b (ok p) w refused = Elevates-payload_ended p _ elevate b _ _

  Elevates-launch :
      (sid : ℕ) (elevate : Bool) (b : ℤ) (w : World)
      → Elevates elevate (launch env session s bin sid elevate b w).0
  unfolding launch emit
  Elevates-launch sid elevate b w = Elevates-after_launch sid elevate b _ _ λ e failed.
      (sid, _, _, (_, refl), answered (session.launch_in_session sid _ _) (err e) failed)

  Elevates-after_wait :
      (elevate : Bool) (b : ℤ) (r : Result ℕ) (w : World)
      → Elevates elevate (after_wait env session s bin elevate b r w).0
  unfolding after_wait
  Elevates-after_wait elevate b (err e) w = Elevates-wait_failed elevate e w
  Elevates-after_wait elevate b (ok sid) w = Elevates-launch sid elevate b w

  Elevates-round :
      (elevate : Bool) (b : ℤ) (w : World)
      → Elevates elevate (round env session s bin elevate b w).0
  unfolding round
  Elevates-round elevate b w = Elevates-after_wait elevate b _ _

  -- A round that the loop can reach launches elevated only if LaunchElevated is set, or if
  -- DisableAutoElevate is not and the loop had reached a round that did not launch elevated and a
  -- launch without elevation ended with ErrElevationRequired.
  pub elevated_needs_permission :
      {start w : World} {elevate : Bool} {b : ℤ}
      → Rounds env session s bin start elevate b w
      → elevate ≡ true
      → (s.launch_elevated ≡ true)
        ⊎ ((s.disable_auto_elevate ≡ false)
            × ((b' : ℤ) × (w' : World) × Rounds env session s bin start false b' w')
            × IsAskedFor)
  elevated_needs_permission {start} begin h = inl h
  elevated_needs_permission {start} (next {elevate} {elevate'} {b} {b'} {w} {w'} r live e) h =
      elim (subst (λ (x : Step × World). Elevates elevate x.0) e
        (Elevates-round elevate b (ctx_err env w).1)) [
          | inl same ↦ elevated_needs_permission r (sym same ∙ h)
          | inr (low, allowed, asked) ↦
              inr (allowed, (b, w, subst (λ x. Rounds env session s bin start x b w) low r), asked)
        ]
