-- ===== src/Manager/Elevate.antt =====
-- Elevate of manager_windows.go: the program runs itself again as administrator, and waits for it.
pub mod Waits
use winsvr.Base.{ℕ, zero, suc, Bool, Option, none, some, List, [], ◌∷◌, ◌++◌, ◌==◌, if◌then◌else◌}
use winsvr.Base.Bytes.{Bytes, text}
use winsvr.Go.Error.{
  Error, Cause, errno, sentinel, errors_is, wrap, err_elevation_cancelled, Result, ok, err,
}
use winsvr.Go.World.{Env, World, next, acquired}
use winsvr.Go.Exec.{Exec}
use winsvr.Go.Os.{ctx_err, emit}
use winsvr.Session.Windows.{
  Windows, ShellExecuteInfo, shell_execute, wait_for_object, get_exit_code, process_of, read,
  release, named, failed,
}
use winsvr.Session.Launch.{utf16}
use winsvr.Session.Console.{Waited, unsettled, settled}
use winsvr.Session.Process.{wait_object_0, settle}

-- ERROR_CANCELLED
abbrev pub error_cancelled : Cause
error_cancelled = errno 1223

-- strings.Join with one space.
unfoldable pub join_args : List Bytes → Bytes
join_args [] = []
join_args (a ∷ []) = a
join_args (a ∷ b ∷ rest) = a ++ (text " " ++ join_args (b ∷ rest))

unfoldable pub escape_all : (Bytes → Bytes) → List Bytes → List Bytes
escape_all escape_arg [] = []
escape_all escape_arg (a ∷ rest) = escape_arg a ∷ escape_all escape_arg rest

-- UTF16PtrFromString where the error is dropped: no pointer.
unfoldable pub pointer : Bytes → Option Bytes
pointer s = elim (utf16 s) [ some e ↦ none | none ↦ some s ]

-- SW_SHOWNORMAL is 1, seeMaskNoCloseProcess 0x40.
unfoldable pub shell_execute_info : Bytes → Bytes → Bytes → ShellExecuteInfo
shell_execute_info exe params wd = record {
  mask = 0x40;
  verb = pointer (text "runas");
  file = pointer exe;
  parameters = pointer params;
  directory = pointer wd;
  show = 1;
}

unfoldable pub shell_error : Error → Error
shell_error e = if errors_is e error_cancelled then sentinel err_elevation_cancelled else e

module _ (os : Windows) where
  -- A process of the handle 0 is none, and there is nothing to close.
  unfoldable pub run_elevated : ShellExecuteInfo → Exec (Option ℕ)
  run_elevated info w =
      let h = os.handle w.tick in
      elim (os.answer w.tick (shell_execute info)) [
        | some n ↦ (err (shell_error (failed os n)), next w)
        | none ↦
            if h == 0
            then (ok none, next w)
            else (ok (some h), next (emit (acquired (process_of h)) w))
      ]

  module _ (env : Env) where
    -- Anything that is not the end of the process is waited out.
    unfoldable pub after_elevated :
        ℕ → Result ℕ → (World → Waited ℕ × World) → World → Waited ℕ × World
    after_elevated h (err e) rest w = (settled (err e), w)
    after_elevated h (ok event) rest w =
        let (done, w') = ctx_err env w in
        if event == wait_object_0
        then settle os (
            named os (wrap "GetExitCodeProcess: %w" [])
              (read os (get_exit_code (process_of h)) os.exit_code) w)
        else elim done [ some e ↦ (settled (err e), w') | none ↦ rest w' ]

    -- The loop, on fuel.
    unfoldable pub wait_elevated : ℕ → ℕ → World → Waited ℕ × World
    wait_elevated zero h w = (unsettled, w)
    wait_elevated (suc fuel) h w =
        let (r, w1) = read os (wait_for_object (process_of h)) os.wait_event w in
        after_elevated h r (wait_elevated fuel h) w1

    -- The handle is closed after the wait.
    unfoldable pub await_elevated : ℕ → Result (Option ℕ) → World → Waited ℕ × World
    await_elevated fuel (err e) w = (settled (err e), w)
    await_elevated fuel (ok none) w = (settled (ok 0), w)
    await_elevated fuel (ok (some h)) w =
        let (r, w') = wait_elevated fuel h w in (r, release os (process_of h) w')

    module _ (escape_arg : Bytes → Bytes) (wd : Bytes) (executable : Result Bytes) where
      unfoldable pub run_again : ℕ → List Bytes → World → Waited ℕ × World
      run_again fuel args w = elim executable [
        | err e ↦ (settled (err e), w)
        | ok exe ↦
            let params = join_args (escape_all escape_arg args) in
            let (r, w') = run_elevated (shell_execute_info exe params wd) w in
            await_elevated fuel r w'
      ]

      unfoldable pub elevate : ℕ → List Bytes → World → Waited ℕ × World
      elevate fuel args w =
          let again = run_again fuel args (next w) in
          if os.is_elevated w.tick then (settled (ok 0), next w) else again
