-- ===== src/Manager/Calls.antt =====
-- The calls that manager_windows.go makes to the service control manager and the event log, which
-- golang.org/x/sys/windows implements. What they answer is a parameter.
use winsvr.Base.{ℕ, ◌+◌, Bool, true, false, Option, none, some, List, [], ◌∷◌, if◌then◌else◌}
use winsvr.Base.Int.{ℤ}
use winsvr.Base.Bytes.{Bytes}
use winsvr.Go.Error.{Error, Cause, errno}

-- Config of winsvr.go; `start_type` is the number of mgr's constant for its StartType.
pub record MgrConfig : Type 0 where
  pub display_name : Bytes
  pub description : Bytes
  pub start_type : ℕ
  pub error_control : ℕ
  pub dependencies : List Bytes
  pub service_start_name : Bytes
  pub password : Bytes

pub data Call : Type 0 where
  connect disconnect : Call
  create_service : Bytes → Bytes → MgrConfig → List Bytes → Call
  open_service : Bytes → Call
  close_service delete_service : Call
  set_recovery_actions : ℤ → ℕ → Call
  set_recovery_on_non_crash : Call
  install_source remove_source : Bytes → Call
  control_stop : Call
  sleep_between : ℤ → Call
  start_service : List Bytes → Call
  open_manager query_status close_service_handle : Call
  open_query : Bytes → Call

-- What each call answers, by the tick: its error, the state that a control reports, and the time.
pub record Scm : Type 0 where
  pub answer : ℕ → Call → Option Error
  pub state : ℕ → ℕ
  pub clock : ℕ → ℕ

-- The calls made so far with what they answered, the latest first.
pub record Transcript : Type 0 where
  pub tick : ℕ
  pub calls : List (Call × Option Error)

module _ (scm : Scm) where
  unfoldable pub ask : Call → Transcript → Option Error × Transcript
  ask c s =
      let e = scm.answer s.tick c in (e, record { tick = s.tick + 1; calls = (c, e) ∷ s.calls })

-- The numbers of Windows errors that the code compares with.
abbrev pub service_exists : Cause
service_exists = errno 1073

abbrev pub service_marked_for_delete : Cause
service_marked_for_delete = errno 1072

abbrev pub service_does_not_exist : Cause
service_does_not_exist = errno 1060

abbrev pub service_not_active : Cause
service_not_active = errno 1062

abbrev pub service_cannot_accept_ctrl : Cause
service_cannot_accept_ctrl = errno 1061

abbrev pub invalid_service_control : Cause
invalid_service_control = errno 1052

-- How often a kind of call was made, and how often it succeeded.
abbrev pub has_succeeded : Option Error → Bool
has_succeeded none = true
has_succeeded (some e) = false

abbrev pub is_create : Call → Bool
is_create (create_service name exe config args) = true
is_create _ = false

abbrev pub is_delete : Call → Bool
is_delete delete_service = true
is_delete _ = false

abbrev pub is_close : Call → Bool
is_close close_service = true
is_close _ = false

abbrev pub is_connect : Call → Bool
is_connect connect = true
is_connect _ = false

abbrev pub is_disconnect : Call → Bool
is_disconnect disconnect = true
is_disconnect _ = false

abbrev pub made : (Call → Bool) → List (Call × Option Error) → ℕ
made kind [] = 0
made kind ((c, e) ∷ calls) = (if kind c then 1 else 0) + made kind calls

abbrev pub succeeded : (Call → Bool) → List (Call × Option Error) → ℕ
succeeded kind [] = 0
succeeded kind ((c, none) ∷ calls) = (if kind c then 1 else 0) + succeeded kind calls
succeeded kind ((c, some e) ∷ calls) = succeeded kind calls

abbrev pub is_open : Call → Bool
is_open (open_service name) = true
is_open _ = false

-- OpenSCManager and OpenService of Status, and the CloseServiceHandle of both.
abbrev pub is_raw_open : Call → Bool
is_raw_open open_manager = true
is_raw_open (open_query name) = true
is_raw_open _ = false

abbrev pub is_raw_close : Call → Bool
is_raw_close close_service_handle = true
is_raw_close _ = false
