-- ===== src/Supervisor/Served.antt =====
-- Supervisor.Run (supervisor.go) under Execute (service_windows.go).
use winsvr.Base.{ℕ, ◌≡◌, refl, true, Option, none, some, List, ◌∷◌, ◌++◌, All}
use winsvr.Go.Error.{Error, Result}
use winsvr.Go.World.{Env, World, FilePath}
use winsvr.Update.Config.{Codec}
use winsvr.Framework.Text.{finished, run_recovered}
use winsvr.Framework.Handler.{Handler, Input, done, Late, exited, execute}
use winsvr.Framework.Handler.Exits.{IsQuiet, execute_fails_iff}
use winsvr.Supervisor.Config.{Supervisor, Session}
use winsvr.Supervisor.Run.{returned, run}
use winsvr.Supervisor.Updates.{IsLasting}
use winsvr.Supervisor.Stops.{run-IsDone}

module _ (env : Env) (codec : Codec) (session : Session) (s : Supervisor) (h : Handler)
    (lasting : IsLasting env) where
  reported :
      (r : Option Error) (fuel : ℕ) (executable : Result FilePath) (w w' : World)
      (before after : List Input) (late : Late)
      → All IsQuiet before
      → run env codec session s fuel executable w ≡ (returned r, w')
      → env.ctx_err w'.tick ≡ none
      → (e : Error) × (r ≡ some e)
        × ((execute h (before ++ (done (finished r) ∷ after)) late).0 ≡ exited true 1)
  unfolding run_recovered
  reported none fuel executable w w' before after late quiet ended live =
      let (e, over) = run-IsDone env codec session s lasting fuel executable w w' ended in
      absurd (cc (over, live))
  reported (some e) fuel executable w w' before after late quiet ended live = (
    e,
    refl,
    (execute_fails_iff h (before ++ (done (finished (some e)) ∷ after)) late).1
        (before, finished (some e), after, e, refl, quiet, refl),
  )

  -- With a context that stays done, a supervisor whose Run returns before there was a request to stop
  -- and while its context is live returns an error, and Execute reports exit code 1: the service
  -- manager never takes it for a clean stop.
  pub unasked_end_fails :
      (fuel : ℕ) (executable : Result FilePath) (w w' : World) (r : Option Error)
      → run env codec session s fuel executable w ≡ (returned r, w')
      → env.ctx_err w'.tick ≡ none
      → (before after : List Input) (late : Late) → All IsQuiet before
      → (e : Error) × (r ≡ some e)
        × ((execute h (before ++ (done (finished r) ∷ after)) late).0 ≡ exited true 1)
  unasked_end_fails fuel executable w w' r ended live before after late quiet =
      reported r fuel executable w w' before after late quiet ended live
