-- ===== src/Agent/Program.antt =====
-- main, dispatch and ensureAdmin of example/agent/main.go.
use winsvr.Base.{ℕ, Option, none, some, List, [], ◌∷◌, ◌++◌, if◌then◌else◌}
use winsvr.Base.Bytes.{Bytes, text, bytes_eq}
use winsvr.Go.Error.{Error, errorf, wrap, bytes, Result, ok, err}
use winsvr.Go.World.{World, FilePath, next}
use winsvr.Framework.Config.{state_name}
use winsvr.Manager.Install.{install}
use winsvr.Manager.Remove.{uninstall}
use winsvr.Manager.Control.{start, status}
use winsvr.Manager.Elevate.{elevate}
use winsvr.Session.Console.{Waited, unsettled, settled}
use winsvr.Framework.Service.{is_service, run_service}
use winsvr.Agent.Desk.{
  Host, Desk, Message, notice, state_line, error_line, agent_config, agent_service, service_name,
}
use winsvr.Agent.Interact.{report}
use winsvr.Agent.Logs.{run_logger}

pub data Command : Type 0 where
  manage install_command uninstall_command status_command run_command : Command
  unknown : Bytes → Command

-- How a step ends: it goes on after it or returns, with an error or none, or os.Exit ends the
-- process. `unfinished` is that of the fuel.
pub data Ending : Type 0 where
  unfinished : Ending
  returned : Option Error → Ending
  exited : ℕ → Ending

-- The cases of the switch.
unfoldable pub command_of : Bytes → Command
command_of cmd =
    if bytes_eq cmd (text "manage")
    then manage
    else if bytes_eq cmd (text "install")
    then install_command
    else if bytes_eq cmd (text "uninstall")
    then uninstall_command
    else if bytes_eq cmd (text "remove")
    then uninstall_command
    else if bytes_eq cmd (text "status")
    then status_command
    else if bytes_eq cmd (text "run")
    then run_command
    else unknown cmd

module _ (host : Host) (fuel : ℕ) where
  -- The path of the executable in one text.
  unfoldable pub path_text : Result FilePath → Result Bytes
  path_text (ok p) = ok (p.dir ++ (text "\\" ++ p.base))
  path_text (err e) = err e

  unfoldable pub after_elevate : Waited ℕ × World → Desk → Ending × Desk
  after_elevate (unsettled, w) d = (unfinished, record d { world = w })
  after_elevate (settled (ok code), w) d = (exited code, record d { world = w })
  after_elevate (settled (err e), w) d = (returned (some e), record d { world = w })

  unfoldable pub ensure_admin : Bytes → Desk → Ending × Desk
  ensure_admin cmd d =
      let again =
        elevate host.os host.env host.escape_arg host.working_dir (path_text host.executable) fuel
          (cmd ∷ []) (next d.world) in
      if host.os.is_elevated d.world.tick
      then (returned none, record d { world = next d.world })
      else after_elevate again d

  -- `if err := …; err != nil { return err }`
  unfoldable pub and_then : Ending × Desk → (Desk → Ending × Desk) → Ending × Desk
  and_then (unfinished, d) rest = (unfinished, d)
  and_then (returned none, d) rest = rest d
  and_then (returned (some e), d) rest = (returned (some e), d)
  and_then (exited code, d) rest = (exited code, d)

  unfoldable pub install_service : Desk → Ending × Desk
  install_service d =
      let (r, s) = install host.scm agent_config (path_text host.executable) d.manager in
      (returned r, record d { manager = s })

  -- The service is registered but not running.
  unfoldable pub start_error : Option Error → Option Error
  start_error none = none
  start_error (some e) =
      some (wrap "%s installed but did not start: %w" (bytes service_name ∷ []) e)

  unfoldable pub start_installed : Desk → Ending × Desk
  start_installed d =
      let (r, s) = start host.scm service_name [] d.manager in
      (returned (start_error r), record d { manager = s })

  unfoldable pub tell : Message → Desk → Ending × Desk
  tell m d = (returned none, report host m d)

  unfoldable pub do_install : Desk → Ending × Desk
  do_install d = and_then (ensure_admin (text "install") d) λ d1.
      and_then (install_service d1) λ d2.
        and_then (start_installed d2)
          λ d3. tell (notice "服务已安装并启动 / service installed and started: " service_name) d3

  unfoldable pub uninstall_service : Desk → Ending × Desk
  uninstall_service d =
      let (r, s) = uninstall host.scm service_name fuel d.manager in
      (returned r, record d { manager = s })

  unfoldable pub do_uninstall : Desk → Ending × Desk
  do_uninstall d = and_then (ensure_admin (text "uninstall") d) λ d1.
      and_then (uninstall_service d1)
        λ d2. tell (notice "服务已卸载 / service uninstalled: " service_name) d2

  unfoldable pub show_status : Result ℕ → Desk → Ending × Desk
  show_status (err e) d = (returned (some e), d)
  show_status (ok st) d = tell (state_line service_name (state_name st)) d

  -- Installed services are removed, others installed.
  unfoldable pub toggle : Result ℕ → Desk → Ending × Desk
  toggle (ok st) d = do_uninstall d
  toggle (err e) d = do_install d

  unfoldable pub with_status : (Result ℕ → Desk → Ending × Desk) → Desk → Ending × Desk
  with_status k d =
      let (r, s) = status host.scm service_name d.manager in k r (record d { manager = s })

  unfoldable pub run_command_of : Desk → Ending × Desk
  run_command_of d =
      let (r, w) =
        run_service host.svc service_name (agent_service (run_logger host))
          agent_config.stop_timeout d.world in
      (returned r, record d { world = w })

  unfoldable pub dispatch : Command → Desk → Ending × Desk
  dispatch manage d = with_status toggle d
  dispatch install_command d = do_install d
  dispatch uninstall_command d = do_uninstall d
  dispatch status_command d = with_status show_status d
  dispatch run_command d = run_command_of d
  dispatch (unknown cmd) d = (
    returned
        (some (errorf "unknown command %q (manage|install|uninstall|status|run)" (bytes cmd ∷ []))),
    d,
  )

  -- The command of the arguments after the program's name.
  unfoldable pub chosen : List Bytes → Bytes
  chosen [] = text ""
  chosen (arg ∷ rest) = host.to_lower arg

  unfoldable pub default_command : Bytes → Bytes
  default_command cmd =
      if bytes_eq cmd (text "")
      then (if is_service host.svc then text "run" else text "manage")
      else cmd

  unfoldable pub report_failure : Ending × Desk → Ending × Desk
  report_failure (returned (some e), d) = (exited 1, report host (error_line e) d)
  report_failure (returned none, d) = (exited 0, d)
  report_failure (exited code, d) = (exited code, d)
  report_failure (unfinished, d) = (unfinished, d)

  unfoldable pub main : List Bytes → Desk → Ending × Desk
  main args d = report_failure (dispatch (command_of (default_command (chosen args))) d)
