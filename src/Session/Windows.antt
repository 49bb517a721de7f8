-- ===== src/Session/Windows.antt =====
-- The Windows calls that session_windows.go and Elevate of manager_windows.go make, which golang.org/x/sys/windows wraps. What they
-- answer is a parameter; what they hand out and get back is kept as events.
use winsvr.Base.{ℕ, Bool, Option, none, some, List, [], ◌∷◌}
use winsvr.Base.Bytes.{Bytes}
use winsvr.Go.Error.{Error, Cause, errno, sentinel, Result, ok, err}
use winsvr.Go.World.{
  World, next, FilePath, Kind, of_job, of_process, of_thread, Resource, acquired, released,
  terminated,
}
use winsvr.Go.Exec.{Exec}
use winsvr.Go.Os.{emit}

-- StartupInfo, as far as it is filled in; `show` is none without STARTF_USESHOWWINDOW.
pub record StartupInfo : Type 0 where
  pub desktop : Bytes
  pub show : Option ℕ

pub record Creation : Type 0 where
  pub token : Resource
  pub path : FilePath
  pub command : Bytes
  pub flags : ℕ
  pub block : Resource
  pub dir : Bytes
  pub startup : StartupInfo

-- shellExecuteInfo, as far as it is filled in. A text with a NUL has no pointer.
pub record ShellExecuteInfo : Type 0 where
  pub mask : ℕ
  pub verb : Option Bytes
  pub file : Option Bytes
  pub parameters : Option Bytes
  pub directory : Option Bytes
  pub show : ℕ

pub data Call : Type 0 where
  query_user_token : ℕ → Call
  enumerate_sessions : Call
  get_elevation_type get_linked_token duplicate_token : Resource → Call
  create_environment_block : Resource → Call
  create_job : Call
  set_kill_on_close : Resource → Call
  create_process_as_user : Creation → Call
  assign_to_job : Resource → Resource → Call
  resume_thread : Resource → Call
  wait_for_object get_exit_code close_handle : Resource → Call
  shell_execute : ShellExecuteInfo → Call

-- WTS_SESSION_INFO.
pub record SessionInfo : Type 0 where
  pub session_id : ℕ
  pub is_active : Bool

-- The answers, by the tick: the number of a call's error, and what a call that succeeds says. The
-- command line is what ComposeCommandLine makes of the path and the arguments.
pub record Windows : Type 0 where
  pub answer : ℕ → Call → Option ℕ
  pub handle : ℕ → ℕ
  pub console : ℕ → ℕ
  pub sessions : ℕ → List SessionInfo
  pub elevation_type : ℕ → ℕ
  pub is_elevated : ℕ → Bool
  pub process_id : ℕ → ℕ
  pub wait_event : ℕ → ℕ
  pub exit_code : ℕ → ℕ
  pub command_line : FilePath → List Bytes → Bytes

abbrev pub privilege_not_held : Cause
privilege_not_held = errno 1314

abbrev pub elevation_required : Cause
elevation_required = errno 740

-- The handle of a job, a process and a thread as the resource that it stands for.
abbrev pub job_of : ℕ → Resource
job_of v = record { kind = of_job; value = v }

abbrev pub process_of : ℕ → Resource
process_of v = record { kind = of_process; value = v }

abbrev pub thread_of : ℕ → Resource
thread_of v = record { kind = of_thread; value = v }

-- What CreateProcessAsUser hands out: two handles, and the number of the process.
pub record Created : Type 0 where
  pub process : ℕ
  pub thread : ℕ
  pub process_id : ℕ

module _ (os : Windows) where
  abbrev pub failed : ℕ → Error
  failed n = sentinel (errno n)

  unfoldable pub ask : Call → Exec (Unit {0})
  ask c w = elim (os.answer w.tick c) [ none ↦ (ok tt, next w) | some n ↦ (err (failed n), next w) ]

  -- A call that says a number, or true or false, when it succeeds.
  unfoldable pub read : {A : Type 0} → Call → (ℕ → A) → Exec A
  read c says w = elim (os.answer w.tick c) [
    | none ↦ (ok (says w.tick), next w)
    | some n ↦ (err (failed n), next w)
  ]

  -- A call that hands out a resource.
  unfoldable pub acquire : Kind → Call → Exec Resource
  acquire kind c w = elim (os.answer w.tick c) [
    | none ↦
        let r : Resource = record { kind = kind; value = os.handle w.tick } in
        (ok r, next (emit (acquired r) w))
    | some n ↦ (err (failed n), next w)
  ]

  unfoldable pub create_process : Creation → Exec Created
  create_process c w = elim (os.answer w.tick (create_process_as_user c)) [
    | none ↦
        let p = os.handle w.tick in
        let w1 = next (emit (acquired (process_of p)) w) in
        let t = os.handle w1.tick in
        (
          ok (record { process = p; thread = t; process_id = os.process_id w.tick }),
          next (emit (acquired (thread_of t)) w1),
        )
    | some n ↦ (err (failed n), next w)
  ]

  -- CloseHandle and its like, where the caller drops the error.
  unfoldable pub release : Resource → World → World
  release r w = next (emit (released r) w)

  unfoldable pub release_all : List Resource → World → World
  release_all [] w = w
  release_all (r ∷ rs) w = release_all rs (release r w)

  unfoldable pub terminate : Resource → World → World
  terminate r w = next (emit (terminated r) w)

  module _ {A : Type 0} where
    -- `defer r.Close()` around the rest of the function.
    unfoldable pub closing : Resource → Exec A → Exec A
    closing r m w = let (x, w') = m w in (x, release r w')

    unfoldable pub clean_up : List Resource → Result A × World → Result A × World
    clean_up rs (ok a, w) = (ok a, w)
    clean_up rs (err e, w) = (err e, release_all rs w)

    -- A step that gives resources back when it fails, before the function returns.
    unfoldable pub or_release : List Resource → Exec A → Exec A
    or_release rs m w = clean_up rs (m w)

    unfoldable pub kill : Resource → List Resource → Result A × World → Result A × World
    kill p rs (ok a, w) = (ok a, w)
    kill p rs (err e, w) = (err e, release_all rs (terminate p w))

    -- The same, with TerminateProcess first.
    unfoldable pub or_kill : Resource → List Resource → Exec A → Exec A
    or_kill p rs m w = kill p rs (m w)

    unfoldable pub rename : (Error → Error) → Result A × World → Result A × World
    rename f (ok a, w) = (ok a, w)
    rename f (err e, w) = (err (f e), w)

    -- A step whose error is reported as another one.
    unfoldable pub named : (Error → Error) → Exec A → Exec A
    named f m w = rename f (m w)
