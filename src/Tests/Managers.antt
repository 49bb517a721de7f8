-- ===== src/Tests/Managers.antt =====
-- Installing and removing a service on concrete data.
use winsvr.Base.{ℕ, ◌*◌, ◌≡◌, ◌↔◌, refl, arith, Bool, Option, none, some, []}
use winsvr.Base.Int.{pos}
use winsvr.Base.Bytes.{text, bytes_eq}
use winsvr.Go.Error.{Error, errorf, ok}
use winsvr.Framework.Config.{Config, start_automatic, stopped}
use winsvr.Manager.Control.{start, stop, status}
use winsvr.Manager.Control.Requests.{IsGranted, IsBalanced, IsTold, requests_exact}
use winsvr.Manager.Calls.{
  start_service, control_stop, Call, set_recovery_on_non_crash, Scm, Transcript, ask, is_create,
  is_delete, made, succeeded,
}
use winsvr.Manager.Install.{install, create, configure, add_recovery, add_non_crash, undo}
use winsvr.Manager.Install.Rollback.{IsSettled, IsClosed, install_settles}
use winsvr.Manager.Remove.{
  settled, stop_and_wait, stop_loop, carries_state, is_inactive, uninstall, uninstall_connected,
  stop_and_remove, remove_service, source_error, removal_report,
}
use winsvr.Manager.Remove.Stops.{stop_and_wait_ends}
use winsvr.Manager.Remove.Success.{HasClock, IsRemoved, uninstall_removes}

abbrev refuses_recovery : ℕ → Call → Option Error
refuses_recovery t set_recovery_on_non_crash = some (errorf "denied" [])
refuses_recovery t _ = none

-- Every service is stopped, and the clock advances by 300 ms a call.
abbrev pub scm : Scm
scm = record { answer = refuses_recovery; state = λ t. stopped; clock = λ t. t * 300_000_000 }

abbrev config : Config
config = record {
  name = text "winsvr";
  display_name = text "";
  description = text "";
  arguments = [];
  start_type = start_automatic;
  account = text "";
  password = text "";
  dependencies = [];
  restart_delay = pos 5_000_000_000;
  stop_timeout = pos 0;
}

abbrev pub fresh : Transcript
fresh = record { tick = 0; calls = [] }

install_settles_example :
    IsSettled scm config fresh (install scm config (ok (text "agent.exe")) fresh)
    × IsClosed scm config fresh (install scm config (ok (text "agent.exe")) fresh)
install_settles_example = install_settles scm config (ok (text "agent.exe")) fresh

-- The service was created, and deleted again.
install_undone :
    (succeeded is_create (install scm config (ok (text "agent.exe")) fresh).1.calls ≡ 1)
    × (made is_delete (install scm config (ok (text "agent.exe")) fresh).1.calls ≡ 1)
unfolding install create configure add_recovery add_non_crash undo ask bytes_eq
install_undone = (refl, refl)

clock_runs : HasClock scm (text "winsvr")
clock_runs = ((λ t. omega arith), (λ t. omega arith))

stop_and_wait_ends_example :
    (b : Bool) × (o : Option Error) × ((stop_and_wait scm (text "winsvr") 70 fresh).0 ≡ settled b o)
stop_and_wait_ends_example =
    stop_and_wait_ends scm (text "winsvr") clock_runs.1 70 fresh (omega arith) (omega arith)

abbrev removed : Transcript
removed = (uninstall scm (text "winsvr") 70 fresh).1

uninstall_removes_example : IsRemoved scm (text "winsvr") fresh removed
unfolding uninstall uninstall_connected stop_and_remove remove_service source_error removal_report
    stop_and_wait stop_loop is_inactive carries_state ask
uninstall_removes_example =
    uninstall_removes scm (text "winsvr") clock_runs 70 (omega arith) fresh removed refl

requests_exact_example :
    (((start scm (text "winsvr") [] fresh).0 ≡ none)
      ↔ IsGranted scm (text "winsvr") (start_service []) 0)
    × (((stop scm (text "winsvr") fresh).0 ≡ none) ↔ IsGranted scm (text "winsvr") control_stop 0)
    × IsTold scm 2 (status scm (text "winsvr") fresh).0
    × IsBalanced scm fresh (start scm (text "winsvr") [] fresh).1
    × IsBalanced scm fresh (stop scm (text "winsvr") fresh).1
    × IsBalanced scm fresh (status scm (text "winsvr") fresh).1
requests_exact_example = requests_exact scm (text "winsvr") [] fresh
