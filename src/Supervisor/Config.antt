-- ===== src/Supervisor/Config.antt =====
-- The Supervisor and its configuration (supervisor.go), and what it calls of the session.
use Prim.Native.String.{String}
use winsvr.Base.{ℕ, ◌*◌, Bool, List, if◌then◌else◌}
use winsvr.Base.Int.{ℤ, pos, ltb_ℤ, leb_ℤ}
use winsvr.Base.Bytes.{Bytes, text, bytes_eq}
use winsvr.Go.Error.{Result, ok, err}
use winsvr.Go.World.{World, FilePath, Level, Value}
use winsvr.Go.Exec.{Exec}
use winsvr.Go.Os.{log_record}
use winsvr.Backoff.{second}

-- `dir` is empty until bin_path has set it. Without a logger the records are discarded.
pub record Supervisor : Type 0 where
  pub bin : Bytes
  pub update_url : Bytes
  pub launch_elevated : Bool
  pub disable_auto_elevate : Bool
  pub hidden : Bool
  pub min_backoff : ℤ
  pub max_backoff : ℤ
  pub has_logger : Bool
  pub dir : Bytes

-- LaunchOptions of session_windows.go. An empty `dir` stands for the path's own directory.
pub record LaunchOptions : Type 0 where
  pub path : FilePath
  pub args : List Bytes
  pub dir : Bytes
  pub elevated : Bool
  pub hidden : Bool

pub record Process : Type 0 where
  pub pid : ℕ
  pub handle : ℕ
  pub job : ℕ

-- WaitForActiveConsole, LaunchInSession, and Process.Wait and Process.Close.
pub record Session : Type 0 where
  pub wait_for_active_console : ℤ → Exec ℕ
  pub launch_in_session : ℕ → LaunchOptions → Exec Process
  pub wait : Process → Exec ℕ
  pub close : Process → World → World

module _ (s : Supervisor) where
  -- `s.log()` at a level.
  unfoldable pub say : Level → String → List (String × Value) → World → World
  say level message attrs w = if s.has_logger then log_record level message attrs w else w

  -- The payload's path, with the directory that it is resolved in; `executable` is os.Executable.
  unfoldable pub bin_dir : Result FilePath → Result Bytes
  bin_dir executable =
      if bytes_eq s.dir (text "")
      then elim executable [ ok exe ↦ ok exe.dir | err e ↦ err e ]
      else ok s.dir

  unfoldable pub bin_path : Result FilePath → Result FilePath
  bin_path executable = elim (bin_dir executable) [
    | ok dir ↦ ok (record { dir = dir; base = s.bin })
    | err e ↦ err e
  ]

  -- The bounds of the restart delay, with their defaults.
  unfoldable pub min_delay : ℤ
  min_delay = if leb_ℤ s.min_backoff (pos 0) then pos (2 * second) else s.min_backoff

  unfoldable pub max_delay : ℤ
  max_delay =
      let max = if leb_ℤ s.max_backoff (pos 0) then pos (30 * second) else s.max_backoff in
      if ltb_ℤ max min_delay then min_delay else max
