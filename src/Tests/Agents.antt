-- ===== src/Tests/Agents.antt =====
-- The program of example/agent on concrete data.
use winsvr.Base.{◌≡◌, refl, true, false, none, [], ◌∷◌}
use winsvr.Base.Bytes.{text, bytes_eq}
use winsvr.Go.Error.{ok}
use winsvr.Go.World.{next}
use winsvr.Manager.Calls.{Scm, ask, made}
use winsvr.Manager.Install.{
  install, create, configure, add_recovery, add_non_crash, add_source, undo,
}
use winsvr.Manager.Control.{control, opened_request, make_request}
use winsvr.Session.Launch.{utf16, has_nul}
use winsvr.Framework.Config.{stopped}
use winsvr.Agent.Desk.{Host, Desk, in_a_box, notice, display_name, service_name}
use winsvr.Agent.Interact.{report, box, message_box, launched_by_double_click}
use winsvr.Agent.Program.{
  Ending, install_command, dispatch, do_install, ensure_admin, and_then, install_service,
  start_installed, start_error, tell, path_text, main,
}
use winsvr.Agent.Admin.{is_change, unelevated_changes_nothing}
use winsvr.Agent.Honest.{IsInstalled, install_command_honest}
use winsvr.Tests.Data.{calm, helper, before}
use winsvr.Tests.Sessions.{windows}
use winsvr.Tests.Managers.{fresh}

-- Every request is granted.
abbrev granting : Scm
granting = record { answer = λ t c. none; state = λ t. stopped; clock = λ t. 0 }

-- A double click in Explorer, by an administrator.
abbrev pub administrator : Host
administrator = record {
  os = record windows { is_elevated = λ t. true };
  env = calm;
  scm = granting;
  escape_arg = λ a. a;
  working_dir = text "C:\\svc";
  executable = ok helper;
  svc = record {
    is_windows_service = (false, none);
    svc_run = λ name h w. (none, w);
    debug_run = λ name h w. (none, w);
  };
  console_processes = 1;
  to_lower = λ s. s;
  opens_log = λ name. none;
  opens_file = λ dir base. none;
  render = λ m. text "done";
  box_error = λ title content. none;
}

abbrev user : Host
user = record administrator { os = windows }

abbrev desk : Desk
desk = record { world = before; manager = fresh; shown = [] }

unelevated_changes_nothing_example :
    made is_change (main user 101 (text "install" ∷ []) desk).1.manager.calls ≡ 0
unelevated_changes_nothing_example =
    unelevated_changes_nothing user 101 (λ t. refl) (text "install" ∷ []) desk

installed : Host → Desk → Ending × Desk
unfolding dispatch do_install ensure_admin and_then install_service start_installed start_error tell
    path_text install create configure add_recovery add_non_crash add_source undo ask control
    opened_request make_request report box message_box launched_by_double_click utf16 has_nul next
    bytes_eq
installed host d = dispatch host 101 install_command d

install_command_honest_example : IsInstalled fresh (installed administrator desk).1.manager
unfolding installed
install_command_honest_example =
    install_command_honest administrator 101 desk (installed administrator desk).1 refl

-- The user sees it in a dialog.
told :
    (installed administrator desk).1.shown
    ≡ in_a_box display_name (notice "服务已安装并启动 / service installed and started: " service_name) ∷ []
unfolding installed
told = refl
