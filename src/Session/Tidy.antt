-- ===== src/Session/Tidy.antt =====
-- The supervisor's loop with the session of Windows: what it takes out, it gives back.
use winsvr.Base.{ℕ, zero, suc, ◌≡◌, ◌≢◌, refl, true, [], arith}
use winsvr.Base.Int.{ℤ}
use winsvr.Go.Error.{Result, ok}
use winsvr.Go.World.{Env, World, FilePath, Event, next, slept}
use winsvr.Go.Os.{ctx_err, wait_timer, emit}
use winsvr.Supervisor.Config.{Supervisor, Process, LaunchOptions}
use winsvr.Supervisor.Run.{run}
use winsvr.Session.Windows.{Windows, read, named, rename}
use winsvr.Session.Handles.{Trades, Trades-trans, Trades-next, Trades-emit, is_quiet}
use winsvr.Session.Console.{
  Waited, unsettled, settled, active_console_session, stop_waiting, wait_loop, poll_interval,
  wait_for_active_console,
}
use winsvr.Session.Console.Finds.{active_console_session-Passes}
use winsvr.Session.Process.{settle, exit_code_of, after_event, wait_process}
use winsvr.Session.Launch.{launch_in_session}
use winsvr.Session.Launch.Accounts.{launch_in_session-Keeps}
use winsvr.Session.Launch.Outcome.{IsLaunched-result, IsHandle-nonzero, Trades-close}
use winsvr.Session.Leaks.{IsOpen, IsTidy, run_loop-Trades}
use winsvr.Supervisor.Keeps.{along-run}
use winsvr.Go.Steps.{IsKept, is_update_event}
use winsvr.Update.Config.{Codec}
use winsvr.Session.Service.{windows_session, outcome}

quiet_event : (e : Event) → is_update_event e ≡ true → is_quiet e ≡ true
unfolding is_update_event is_quiet
quiet_event e h = ground (arith, h)

-- An update takes out nothing.
Trades-IsKept : IsKept (Trades [] [])
Trades-IsKept = record {
  same = λ w h. refl;
  both = Trades-trans;
  ticked = Trades-next;
  logged = λ w l h. refl;
  stored = λ w fs h. refl;
  emitted = λ e w up. Trades-emit e w (quiet_event e up);
}

module _ (os : Windows) (env : Env) where
  quiet-wait_timer : (d : ℤ) (w : World) → Trades [] [] w (wait_timer env d w).1
  unfolding wait_timer is_quiet
  quiet-wait_timer d w h =
      ground (arith, Trades-next (emit (slept d) w) h, Trades-emit (slept d) w refl h)

  quiet-stop_waiting : (w : World) → Trades [] [] w (stop_waiting os (ctx_err env w)).1
  unfolding stop_waiting ctx_err
  quiet-stop_waiting w h = ground (arith, Trades-next w h)

  tidy-wait_loop :
      (fuel : ℕ) (poll : ℤ) (w : World) → Trades [] [] w (wait_loop os env fuel poll w).1
  unfolding wait_loop
  tidy-wait_loop zero poll w h = refl
  tidy-wait_loop (suc fuel) poll w h =
      let w1 = (active_console_session os w).1 in
      let w2 = (wait_timer env poll w1).1 in
      ground (
        arith,
        (active_console_session-Passes os w).1 h,
        quiet-wait_timer poll w1 h,
        quiet-stop_waiting w2 h,
        tidy-wait_loop fuel poll w2 h,
      )

  quiet-exit_code_of : (p : Process) (w : World) → Trades [] [] w (exit_code_of os p w).1
  unfolding exit_code_of settle named rename read
  quiet-exit_code_of p w h = ground (arith, Trades-next w h)

  tidy-wait_process :
      (fuel : ℕ) (p : Process) (w : World) → Trades [] [] w (wait_process os env fuel p w).1
  unfolding wait_process after_event read ctx_err
  tidy-wait_process zero p w h = refl
  tidy-wait_process (suc fuel) p w h = ground (
    arith,
    Trades-next w h,
    Trades-next (next w) h,
    quiet-exit_code_of p (next w) h,
    tidy-wait_process fuel p (next (next w)) h,
  )

  quiet-outcome :
      {A : Type 0} (v : World) (x : Waited A × World)
      → Trades [] [] v x.1
      → Trades [] [] v (outcome x).1
  unfolding outcome
  quiet-outcome v (unsettled, w) t = t
  quiet-outcome v (settled r, w) t = t

  module _ (valid : (t : ℕ) → os.handle t ≢ 0) where
    launched-IsOpen :
        (sid : ℕ) (o : LaunchOptions) (w w' : World) (p : Process)
        → launch_in_session os sid o w ≡ (ok p, w')
        → IsOpen p
    launched-IsOpen sid o w w' p h =
        let (a, b) = IsLaunched-result os sid o w w' p h in
        (IsHandle-nonzero os p.handle valid a, IsHandle-nonzero os p.job valid b)

    windows_session-IsTidy : (fuel : ℕ) → IsTidy (windows_session os env fuel)
    unfolding wait_for_active_console
    windows_session-IsTidy fuel = record {
      tidy_console = λ d w.
          quiet-outcome w (wait_for_active_console os env fuel d w)
            (tidy-wait_loop fuel (poll_interval os d) w);
      tidy_launch = launch_in_session-Keeps os;
      launch_IsOpen = launched-IsOpen;
      tidy_wait =
          λ p w. quiet-outcome w (wait_process os env fuel p w) (tidy-wait_process fuel p w);
      tidy_close = λ p w opened. Trades-close os p w opened.0 opened.1;
    }

    -- Where Windows gives out no handle of 0, the whole of Run on Windows, update included, leaks nothing:
    -- of every token, environment block, job, process, thread and list of sessions that it has taken
    -- out since it started, it has given back each one as often when it returns, or when its fuel ends
    -- between two rounds.
    pub supervision_leaks_nothing :
        (fuel : ℕ) (codec : Codec) (s : Supervisor) (executable : Result FilePath) (w : World)
        → Trades [] [] w (run env codec (windows_session os env fuel) s fuel executable w).1
    supervision_leaks_nothing fuel codec s executable w =
        let session = windows_session os env fuel in
        along-run (Trades [] []) Trades-IsKept env session s
          (λ bin. run_loop-Trades env session s bin (windows_session-IsTidy fuel)) codec fuel
          executable w
