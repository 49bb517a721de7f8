-- ===== src/Supervisor/Rounds.antt =====
-- The states of the loop of Supervisor.Run (supervisor.go) that can be reached, and what holds of
-- them and of the loop's end.
use winsvr.Base.{
  ℕ, zero, suc, ◌≡◌, refl, ap, subst, ◌∙◌, ◌⊎◌, inl, inr, Bool, Option, none, arith, Option-cases,
}
use winsvr.Base.Int.{ℤ}
use winsvr.Go.Error.{Error}
use winsvr.Go.World.{Env, World, FilePath}
use winsvr.Go.Os.{ctx_err}
use winsvr.Supervisor.Config.{Supervisor, Session, min_delay}
use winsvr.Supervisor.Round.{Step, stop, again, round}
use winsvr.Supervisor.Run.{returned, run_loop}
use winsvr.Supervisor.Bounds.{
  HasInt64Delays, IsDelay, IsDelay-min, IsCancelled, IsFine, IsFine-round, ctx_err_some,
}

pub Step-cases :
    (st : Step)
    → ((e : Option Error) × (st ≡ stop e)) ⊎ ((elevate : Bool) × (b : ℤ) × (st ≡ again elevate b))
Step-cases (stop e) = inl (e, refl)
Step-cases (again elevate b) = inr (elevate, b, refl)

module _ (env : Env) (session : Session) (s : Supervisor) (bin : FilePath) where
  -- The elevation, the backoff and the state at the head of the loop, after some rounds.
  pub data Rounds (start : World) : Bool → ℤ → World → Type 0 where
    begin : Rounds start s.launch_elevated (min_delay s) start
    next :
        {elevate elevate' : Bool} {b b' : ℤ} {w w' : World}
        → Rounds start elevate b w
        → (ctx_err env w).0 ≡ none
        → round env session s bin elevate b (ctx_err env w).1 ≡ (again elevate' b', w')
        → Rounds start elevate' b' w'

  module _ (fits : HasInt64Delays s) where
    again-IsFine :
        (elevate elevate' : Bool) (b b' : ℤ) (w w' : World)
        → IsDelay s b
        → round env session s bin elevate b w ≡ (again elevate' b', w')
        → IsFine env session s bin elevate (again elevate' b')
    again-IsFine elevate elevate' b b' w w' h e =
        subst (λ (r : Step × World). IsFine env session s bin elevate r.0) e
          (IsFine-round env session s bin fits elevate b w h)

    -- With int64 delays, at the head of every round that the loop can reach the backoff is positive
    -- and between its two bounds, whatever the payload and the session do.
    pub backoff_bounded :
        {start w : World} {elevate : Bool} {b : ℤ} → Rounds start elevate b w → IsDelay s b
    backoff_bounded begin = IsDelay-min s
    backoff_bounded (next r live e) = (again-IsFine _ _ _ _ _ _ (backoff_bounded r) e).0

    -- The loop returns without an error only if the context was done at some moment: a failure is
    -- never reported as a clean stop.
    pub run_loop_clean :
        (fuel : ℕ) (elevate : Bool) (b : ℤ) (w w' : World)
        → IsDelay s b
        → run_loop env session s bin fuel elevate b w ≡ (returned none, w')
        → IsCancelled env
    unfolding run_loop
    run_loop_clean zero elevate b w w' h e = absurd (cc)
    run_loop_clean (suc fuel) elevate b w w' h e = elim (Option-cases (ctx_err env w).0) [
      | inr (x, done) ↦ ctx_err_some env session s bin w x done
      | inl live ↦ elim (Step-cases (round env session s bin elevate b (ctx_err env w).1).0) [
        | inl (x, ended) ↦
            let nothing : x ≡ none = ground (arith, live, ended) in
            subst (λ st. IsFine env session s bin elevate st) (ended ∙ ap stop nothing)
              (IsFine-round env session s bin fits elevate b (ctx_err env w).1 h)
        | inr (elevate', b', on) ↦
            run_loop_clean fuel elevate' b' (round env session s bin elevate b (ctx_err env w).1).1
              w'
              (subst (λ st. IsFine env session s bin elevate st) on
                (IsFine-round env session s bin fits elevate b (ctx_err env w).1 h)).0
              (ground (arith, live, on))
      ]
    ]
