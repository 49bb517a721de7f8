-- ===== src/Session/Launch.antt =====
-- LaunchInSession of session_windows.go.
pub mod Accounts
pub mod Errors
pub mod Outcome
use Prim.Native.Nat.{bit_or}
use winsvr.Base.{
  ℕ, Bool, true, false, ◌&&◌, ◌||◌, Option, none, some, List, [], ◌∷◌, ◌==◌, if◌then◌else◌,
}
use winsvr.Base.Bytes.{Bytes, text, bytes_eq}
use winsvr.Go.Error.{
  Error, Arg, errorf, wrap, wrap_both, sentinel, einval, bytes, file_path, errors_is,
  err_elevation_required,
}
use winsvr.Go.World.{World, FilePath, Resource, of_block, of_job}
use winsvr.Go.Exec.{Exec, ◌>>=◌, ◌>>◌, pure, fail}
use winsvr.Supervisor.Config.{LaunchOptions, Process}
use winsvr.Session.Windows.{
  Windows, job_of, process_of, thread_of, Creation, Created, StartupInfo, create_environment_block,
  create_job, set_kill_on_close, assign_to_job, resume_thread, ask, acquire, create_process,
  closing, or_release, or_kill, named, elevation_required,
}
use winsvr.Session.Token.{user_token}

-- UTF16PtrFromString refuses a text with a NUL.
unfoldable pub has_nul : Bytes → Bool
has_nul [] = false
has_nul (b ∷ s) = b == 0 || has_nul s

unfoldable pub utf16 : Bytes → Option Error
utf16 s = if has_nul s then some (sentinel einval) else none

unfoldable pub path_utf16 : FilePath → Option Error
path_utf16 p = if has_nul p.dir || has_nul p.base then some (sentinel einval) else none

-- The empty path has neither part.
unfoldable pub is_empty_path : FilePath → Bool
is_empty_path p = bytes_eq p.dir (text "") && bytes_eq p.base (text "")

abbrev pub path_arg : FilePath → Arg
path_arg p = file_path p.dir p.base

-- CREATE_UNICODE_ENVIRONMENT and CREATE_SUSPENDED, then CREATE_NO_WINDOW or CREATE_NEW_CONSOLE.
unfoldable pub creation_flags : Bool → ℕ
creation_flags hidden =
    let flags = bit_or 0x400 0x4 in if hidden then bit_or flags 0x0800_0000 else bit_or flags 0x10

-- SW_SHOWNORMAL is 1.
unfoldable pub startup_info : Bool → StartupInfo
startup_info hidden = record {
  desktop = text "winsta0\\default";
  show = if hidden then none else some 1;
}

unfoldable pub launch_dir : LaunchOptions → Bytes
launch_dir o = if bytes_eq o.dir (text "") then o.path.dir else o.dir

unfoldable pub create_error : FilePath → Error → Error
create_error path e =
    if errors_is e elevation_required
    then wrap_both
        "%w: CreateProcessAsUser(%s): %w; set Supervisor.LaunchElevated to launch it with the user's elevated token"
        (path_arg path ∷ []) (sentinel err_elevation_required) e
    else wrap "CreateProcessAsUser(%s): %w" (path_arg path ∷ []) e

module _ (os : Windows) where
  -- What stands in the way of the conversions, before any handle exists.
  unfoldable pub refuse_options : LaunchOptions → Option Error
  refuse_options o =
      if is_empty_path o.path
      then some (errorf "winsvr: LaunchOptions.Path is required" [])
      else elim (path_utf16 o.path) [
        | some e ↦ some (wrap "winsvr: LaunchOptions.Path %q: %w" (path_arg o.path ∷ []) e)
        | none ↦ elim (utf16 (os.command_line o.path o.args)) [
          | some e ↦ some (wrap "winsvr: LaunchOptions.Args: %w" [] e)
          | none ↦ elim (utf16 (launch_dir o)) [
            | some e ↦ some (wrap "winsvr: LaunchOptions.Dir %q: %w" (bytes (launch_dir o) ∷ []) e)
            | none ↦ none
          ]
        ]
      ]

  unfoldable pub creation : LaunchOptions → Resource → Resource → Creation
  creation o tok block = record {
    token = tok;
    path = o.path;
    command = os.command_line o.path o.args;
    flags = creation_flags o.hidden;
    block = block;
    dir = launch_dir o;
    startup = startup_info o.hidden;
  }

  abbrev pub both : ℕ → ℕ → List Resource
  both job process = process_of process ∷ job_of job ∷ []

  -- The suspended process goes into its job, and then runs. A failure of either kills it.
  unfoldable pub put_in_job : ℕ → Created → Exec (Unit {0})
  put_in_job job p = or_kill os (process_of p.process) (both job p.process) (
      named os (wrap "AssignProcessToJobObject: %w" [])
        (ask os (assign_to_job (job_of job) (process_of p.process))))

  unfoldable pub let_run : ℕ → Created → Exec (Unit {0})
  let_run job p =
      or_kill os (process_of p.process) (both job p.process)
        (named os (wrap "ResumeThread: %w" []) (ask os (resume_thread (thread_of p.thread))))

  unfoldable pub start : ℕ → Created → Exec Process
  start job p = do
    put_in_job job p
    let_run job p
    pure (record { pid = p.process_id; handle = p.process; job = job })

  unfoldable pub limit_job : ℕ → Exec (Unit {0})
  limit_job job =
      or_release os (job_of job ∷ [])
        (named os (wrap "SetInformationJobObject: %w" []) (ask os (set_kill_on_close (job_of job))))

  unfoldable pub create_in : LaunchOptions → Resource → Resource → ℕ → Exec Created
  create_in o tok block job =
      or_release os (job_of job ∷ [])
        (named os (create_error o.path) (create_process os (creation o tok block)))

  -- Everything after the job was created.
  unfoldable pub launch_in_job : LaunchOptions → Resource → Resource → ℕ → Exec Process
  launch_in_job o tok block job = do
    limit_job job
    p ← create_in o tok block job
    closing os (thread_of p.thread) (start job p)

  unfoldable pub launch_with_block : LaunchOptions → Resource → Resource → Exec Process
  launch_with_block o tok block = do
    job ← named os (wrap "CreateJobObject: %w" []) (acquire os of_job create_job)
    launch_in_job o tok block job.value

  unfoldable pub launch_with_token : LaunchOptions → Resource → Exec Process
  launch_with_token o tok = do
    block ←
        named os (wrap "CreateEnvironmentBlock: %w" [])
          (acquire os of_block (create_environment_block tok))
    closing os block (launch_with_block o tok block)

  unfoldable pub launch_checked : ℕ → LaunchOptions → Exec Process
  launch_checked sid o = do
    tok ← user_token os sid o.elevated
    closing os tok (launch_with_token o tok)

  unfoldable pub launch_in_session : ℕ → LaunchOptions → Exec Process
  launch_in_session sid o = elim (refuse_options o) [
    | some e ↦ fail e
    | none ↦ launch_checked sid o
  ]
