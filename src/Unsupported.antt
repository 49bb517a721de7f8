-- ===== src/Unsupported.antt =====
-- The stubs of session_other.go, manager_other.go, service_other.go, eventlog_other.go and
-- interact_other.go, which a build for another platform has in place of the Windows calls.
pub mod Runs
use winsvr.Base.{ℕ, ◌^◌, ◌-◌, Bool, false, Option, none, some, List}
use winsvr.Base.Int.{ℤ}
use winsvr.Base.Bytes.{Bytes}
use winsvr.Go.Error.{Error, sentinel, err_unsupported, Result, ok, err}
use winsvr.Go.World.{World}
use winsvr.Framework.Config.{Config, Service, Logger}
use winsvr.Framework.Service.{discard_logger}
use winsvr.Supervisor.Config.{LaunchOptions, Process, Session}

abbrev pub unsupported : Error
unsupported = sentinel err_unsupported

-- ActiveConsoleSession
unfoldable pub active_console_session : ℕ × Bool
active_console_session = (2 ^ 32 - 1, false)

-- The four calls of the supervisor. The context that two of them are given is not read.
unfoldable pub wait_for_active_console : ℤ → World → Result ℕ × World
wait_for_active_console poll w = (err unsupported, w)

unfoldable pub launch_in_session : ℕ → LaunchOptions → World → Result Process × World
launch_in_session sid o w = (err unsupported, w)

unfoldable pub wait : Process → World → Result ℕ × World
wait p w = (err unsupported, w)

unfoldable pub close : Process → World → World
close p w = w

abbrev pub unsupported_session : Session
unsupported_session = record {
  wait_for_active_console = wait_for_active_console;
  launch_in_session = launch_in_session;
  wait = wait;
  close = close;
}

unfoldable pub install : Config → Option Error
install c = some unsupported

unfoldable pub uninstall : Bytes → Option Error
uninstall name = some unsupported

unfoldable pub status : Bytes → Result ℕ
status name = err unsupported

unfoldable pub start : Bytes → List Bytes → Option Error
start name args = some unsupported

unfoldable pub stop : Bytes → Option Error
stop name = some unsupported

unfoldable pub is_elevated : Bool
is_elevated = false

unfoldable pub elevate : List Bytes → Result ℕ
elevate args = err unsupported

unfoldable pub run_service : Bytes → Service → ℤ → Option Error
run_service name service stop_timeout = some unsupported

unfoldable pub is_windows_service : Bool × Option Error
is_windows_service = (false, none)

-- NewEventLogger: a logger that records nothing, and no error.
unfoldable pub new_event_logger : Bytes → Result Logger
new_event_logger source = ok discard_logger

unfoldable pub launched_by_double_click : Bool
launched_by_double_click = false

unfoldable pub message_box : Bytes → Bytes → Option Error
message_box title content = some unsupported
