-- ===== src/Session/Service.antt =====
-- The session that Supervisor.Run works with on Windows: the four calls of session_windows.go.
use winsvr.Base.{ℕ, ◌≤◌, ◌<◌, ◌≡◌, false, Option, some, [], arith, refl}
use winsvr.Base.Int.{ℤ}
use winsvr.Go.Error.{Error, errorf, Result, err}
use winsvr.Go.World.{Env, World, FilePath}
use winsvr.Supervisor.Config.{Supervisor, Process, Session}
use winsvr.Supervisor.Run.{returned, run}
use winsvr.Supervisor.Ends.{IsForward}
use winsvr.Supervisor.Whole.{run_ends}
use winsvr.Update.Config.{Codec}
use winsvr.Session.Windows.{Windows, process_of, job_of}
use winsvr.Session.Verdicts.{forward-release}
use winsvr.Session.Console.{Waited, unsettled, settled, wait_for_active_console}
use winsvr.Session.Console.Waits.{forward-wait_for_active_console, wait_for_active_console_ends}
use winsvr.Session.Process.{close, close_process_handle, close_job, wait_process}
use winsvr.Session.Process.Ends.{forward-wait_process, wait_process_ends}
use winsvr.Session.Launch.{launch_in_session}
use winsvr.Session.Launch.Outcome.{launch_in_session-Ends}

-- The fuel of a wait is used up; enough fuel excludes it.
abbrev pub out_of_fuel : Error
out_of_fuel = errorf "out of fuel" []

unfoldable pub outcome : {A : Type 0} → Waited A × World → Result A × World
outcome (unsettled, w) = (err out_of_fuel, w)
outcome (settled r, w) = (r, w)

module _ (os : Windows) (env : Env) where
  abbrev pub windows_session : ℕ → Session
  windows_session fuel = record {
    wait_for_active_console = λ poll w. outcome (wait_for_active_console os env fuel poll w);
    launch_in_session = launch_in_session os;
    wait = λ p w. outcome (wait_process os env fuel p w);
    close = λ p w. (close os p w).1;
  }

  tick-outcome : {A : Type 0} (x : Waited A × World) → (outcome x).1.tick ≡ x.1.tick
  unfolding outcome
  tick-outcome (unsettled, w) = refl
  tick-outcome (settled r, w) = refl

  forward-close_process_handle :
      (p : Process) (w : World) → w.tick ≤ (close_process_handle os p w).1.tick
  unfolding close_process_handle
  forward-close_process_handle p w = ground (arith, forward-release os (process_of p.handle) w)

  forward-close_job : (p : Process) (w : World) → w.tick ≤ (close_job os p w).1.tick
  unfolding close_job
  forward-close_job p w = ground (arith, forward-release os (job_of p.job) w)

  forward-close : (p : Process) (w : World) → w.tick ≤ (close os p w).1.tick
  unfolding close
  forward-close p w =
      let (p', w') = close_process_handle os p w in
      omega (arith, forward-close_process_handle p w, forward-close_job p' w')

  -- Time does not run backwards in any of the four calls.
  pub windows_session-IsForward : (fuel : ℕ) → IsForward (windows_session fuel)
  unfolding outcome
  windows_session-IsForward fuel = record {
    forward_console = λ d w. omega (
      arith,
      tick-outcome (wait_for_active_console os env fuel d w),
      forward-wait_for_active_console os env fuel d w,
    );
    forward_launch = λ sid o w. (launch_in_session-Ends os sid o w).0;
    forward_wait = λ p w.
        omega (
          arith,
          tick-outcome (wait_process os env fuel p w),
          forward-wait_process os env p fuel w,
        );
    forward_close = forward-close;
  }

  -- If the context is done from the tick `stopped` on, and a timer that is started after that does not
  -- fire first, then with fuel that exceeds `stopped` neither wait of a session of Windows ever runs
  -- out of it, and the whole of Run on Windows returns, with an error or none.
  pub supervision_ends :
      (stopped fuel : ℕ)
      → ((t : ℕ) → stopped ≤ t → (e : Error) × (env.ctx_err t ≡ some e))
      → ((t : ℕ) → stopped ≤ t → env.timer_wins t ≡ false)
      → stopped < fuel
      → (codec : Codec) (s : Supervisor) (executable : Result FilePath) (w : World)
      → ((v : World) (poll : ℤ)
          → (r : Result ℕ) × ((wait_for_active_console os env fuel poll v).0 ≡ settled r))
        × ((v : World) (p : Process)
            → (r : Result ℕ) × ((wait_process os env fuel p v).0 ≡ settled r))
        × ((r : Option Error) × ((run env codec (windows_session fuel) s fuel executable w).0
              ≡ returned r))
  supervision_ends stopped fuel done late enough codec s executable w = (
    λ v poll.
        wait_for_active_console_ends os env stopped done late fuel poll v (omega arith)
          (omega (arith, enough)),
    λ v p. wait_process_ends os env p stopped done fuel v (omega arith) (omega (arith, enough)),
    run_ends env codec (windows_session fuel) s stopped done (windows_session-IsForward fuel) fuel
        enough executable w,
  )
