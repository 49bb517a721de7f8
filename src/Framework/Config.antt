-- ===== src/Framework/Config.antt =====
-- winsvr.go: the names of a service and of its states, and where framework events are logged.
use winsvr.Base.{ℕ, Bool, Option, none, some, List, ◌++◌, ◌==◌, if◌then◌else◌}
use winsvr.Base.Int.{ℤ}
use winsvr.Base.Bytes.{Bytes, text, bytes_eq}
use winsvr.Base.Decimal.{format_uint}

-- StartType, in the order of the constants.
pub data StartType : Type 0 where
  start_automatic start_manual start_disabled : StartType

-- Config. The agent hands StopTimeout to Run.
pub record Config : Type 0 where
  pub name : Bytes
  pub display_name : Bytes
  pub description : Bytes
  pub arguments : List Bytes
  pub start_type : StartType
  pub account : Bytes
  pub password : Bytes
  pub dependencies : List Bytes
  pub restart_delay : ℤ
  pub stop_timeout : ℤ

unfoldable pub shown_name : Config → Bytes
shown_name c = if bytes_eq c.display_name (text "") then c.name else c.display_name

-- ServiceState is a uint32.
abbrev pub stopped : ℕ
stopped = 1

abbrev pub start_pending : ℕ
start_pending = 2

abbrev pub stop_pending : ℕ
stop_pending = 3

abbrev pub service_running : ℕ
service_running = 4

abbrev pub continue_pending : ℕ
continue_pending = 5

abbrev pub pause_pending : ℕ
pause_pending = 6

abbrev pub paused : ℕ
paused = 7

-- ServiceState.String
unfoldable pub state_name : ℕ → Bytes
state_name s =
    if s == stopped
    then text "stopped"
    else if s == start_pending
    then text "start-pending"
    else if s == stop_pending
    then text "stop-pending"
    else if s == service_running
    then text "running"
    else if s == continue_pending
    then text "continue-pending"
    else if s == pause_pending
    then text "pause-pending"
    else if s == paused
    then text "paused"
    else text "unknown(" ++ format_uint s ++ text ")"

-- A logger, as far as its choice depends on it: whether it records errors.
pub record Logger : Type 0 where
  pub id : ℕ
  pub enabled_error : Bool

-- A Service: whether it implements Logged, and then what ServiceLogger returns, nil or a logger.
pub record Service : Type 0 where
  pub logged : Option (Option Logger)

pub data Sink : Type 0 where
  own_logger : Logger → Sink
  standard_error : Sink

unfoldable pub choose_logger : Option Logger → Sink
choose_logger none = standard_error
choose_logger (some l) = if l.enabled_error then own_logger l else standard_error

unfoldable pub service_logger : Service → Sink
service_logger svc = elim svc.logged [ none ↦ standard_error | some l ↦ choose_logger l ]
