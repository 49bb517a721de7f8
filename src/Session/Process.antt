-- ===== src/Session/Process.antt =====
-- Process.Wait and Process.Close of session_windows.go.
pub mod Ends
pub mod Closes
use winsvr.Base.{ℕ, zero, suc, Option, none, some, [], ◌∷◌, ◌==◌, if◌then◌else◌}
use winsvr.Base.Int.{pos}
use winsvr.Go.Error.{Error, errorf, wrap, number, Result, ok, err}
use winsvr.Go.World.{Env, World}
use winsvr.Go.Os.{ctx_err}
use winsvr.Supervisor.Config.{Process}
use winsvr.Session.Windows.{
  Windows, process_of, job_of, wait_for_object, get_exit_code, close_handle, read, named, release,
  failed,
}
use winsvr.Session.Console.{Waited, unsettled, settled}

abbrev pub wait_object_0 : ℕ
wait_object_0 = 0

abbrev pub wait_timeout : ℕ
wait_timeout = 258

module _ (os : Windows) where
  unfoldable pub settle : {A : Type 0} → Result A × World → Waited A × World
  settle (r, w) = (settled r, w)

  -- The process has ended: its exit code.
  unfoldable pub exit_code_of : Process → World → Waited ℕ × World
  exit_code_of p w = settle (
      named os (wrap "GetExitCodeProcess: %w" [])
        (read os (get_exit_code (process_of p.handle)) os.exit_code) w)

  module _ (env : Env) where
    -- One round of the loop, by what WaitForSingleObject said; `rest` is the next round.
    unfoldable pub after_event :
        Process → Result ℕ → (World → Waited ℕ × World) → World → Waited ℕ × World
    after_event p (err e) rest w = (settled (err e), w)
    after_event p (ok event) rest w =
        let (done, w') = ctx_err env w in
        if event == wait_object_0
        then exit_code_of p w
        else if event == wait_timeout
        then elim done [ some e ↦ (settled (err e), w') | none ↦ rest w' ]
        else (settled (err (errorf "WaitForSingleObject: %#x" (number (pos event) ∷ []))), w)

    -- The loop, on fuel.
    unfoldable pub wait_process : ℕ → Process → World → Waited ℕ × World
    wait_process zero p w = (unsettled, w)
    wait_process (suc fuel) p w =
        let (r, w1) = read os (wait_for_object (process_of p.handle)) os.wait_event w in
        after_event p r (wait_process fuel p) w1

  -- Close: its error, and the Process with its handles cleared.
  unfoldable pub close_process_handle : Process → World → Process × World
  close_process_handle p w =
      if p.handle == 0
      then (p, w)
      else (record p { handle = 0 }, release os (process_of p.handle) w)

  unfoldable pub close_error : Option ℕ → Option Error
  close_error none = none
  close_error (some n) = some (failed os n)

  unfoldable pub close_job : Process → World → (Option Error × Process) × World
  close_job p w =
      let closed = close_error (os.answer w.tick (close_handle (job_of p.job))) in
      if p.job == 0
      then ((none, p), w)
      else ((closed, record p { job = 0 }), release os (job_of p.job) w)

  unfoldable pub close : Process → World → (Option Error × Process) × World
  close p w = let (p', w') = close_process_handle p w in close_job p' w'
