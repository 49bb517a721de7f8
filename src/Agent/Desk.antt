-- ===== src/Agent/Desk.antt =====
-- What example/agent/main.go runs in, and what it is configured with.
use Prim.Native.String.{String}
use winsvr.Base.{ℕ, ◌*◌, true, false, Option, some, List, [], ◌∷◌}
use winsvr.Base.Int.{pos, leb_ℤ}
use winsvr.Base.Bytes.{Bytes, text}
use winsvr.Go.Error.{Error, Result}
use winsvr.Go.World.{Env, World, FilePath}
use winsvr.Backoff.{second}
use winsvr.Framework.Config.{Config, Service, Logger, start_automatic}
use winsvr.Framework.EventLog.{level_debug, level_info, level_error, is_enabled}
use winsvr.Framework.Service.{Svc, supervisor_service}
use winsvr.Manager.Calls.{Scm, Transcript}
use winsvr.Session.Windows.{Windows}
use winsvr.Supervisor.Config.{Supervisor}

abbrev pub service_name : Bytes
service_name = text "winsvr-agent"

abbrev pub display_name : Bytes
display_name = text "winsvr Self-Updating Agent"

abbrev pub agent_config : Config
agent_config = record {
  name = service_name;
  display_name = display_name;
  description = text "Keeps helper.bin up to date and runs it in the active user session.";
  arguments = text "run" ∷ [];
  start_type = start_automatic;
  account = text "NT AUTHORITY\\LocalSystem";
  password = text "";
  dependencies = [];
  restart_delay = pos (5 * second);
  stop_timeout = pos 0;
}

-- `supervisor()`, with the logger that the run command sets.
abbrev pub agent_supervisor : Supervisor
agent_supervisor = record {
  bin = text "helper.bin";
  update_url = text "";
  launch_elevated = false;
  disable_auto_elevate = false;
  hidden = true;
  min_backoff = pos 0;
  max_backoff = pos 0;
  has_logger = true;
  dir = text "";
}

-- What is told: a text with a name after it, the service with its state, or an error's text.
pub data Message : Type 0 where
  notice : String → Bytes → Message
  state_line : Bytes → Bytes → Message
  error_line : Error → Message

pub data Shown : Type 0 where
  in_a_box : Bytes → Message → Shown
  printed : Message → Shown

-- The state: of the files and Windows, the calls to the service control manager, and what was shown.
pub record Desk : Type 0 where
  pub world : World
  pub manager : Transcript
  pub shown : List Shown

-- The run command's logger: the event log, a file, or standard error.
pub data LogTarget : Type 0 where
  event_log : Bytes → LogTarget
  log_file : Bytes → Bytes → LogTarget
  standard_error : LogTarget

-- What the loggers record: the event log as its Enabled says, the other two from the level that their
-- slog.HandlerOptions name, LevelInfo and LevelDebug.
unfoldable pub logger_of : LogTarget → Logger
logger_of (event_log source) = record { id = 1; enabled_error = is_enabled level_error }
logger_of (log_file dir base) = record { id = 2; enabled_error = leb_ℤ level_info level_error }
logger_of standard_error = record { id = 3; enabled_error = leb_ℤ level_debug level_error }

-- `sup.Logger = logger`
abbrev pub agent_service : LogTarget → Service
agent_service target = supervisor_service (some (logger_of target))

-- Everything that the program does not decide. `env` answers for the context that Elevate waits with,
-- context.Background. `svc` is golang.org/x/sys/windows/svc; `opens_log` and `opens_file` are the errors of eventlog.Open and os.OpenFile, and
-- `render` makes the text of a message.
pub record Host : Type 0 where
  pub os : Windows
  pub env : Env
  pub scm : Scm
  pub escape_arg : Bytes → Bytes
  pub working_dir : Bytes
  pub executable : Result FilePath
  pub svc : Svc
  pub console_processes : ℕ
  pub to_lower : Bytes → Bytes
  pub opens_log : Bytes → Option Error
  pub opens_file : Bytes → Bytes → Option Error
  pub render : Message → Bytes
  pub box_error : Bytes → Bytes → Option Error
