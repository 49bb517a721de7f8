-- ===== src/Agent/Logs.antt =====
-- runLogger and fileLogger of example/agent/main.go.
use winsvr.Base.{none, some, ◌++◌, if◌then◌else◌}
use winsvr.Base.Bytes.{text}
use winsvr.Go.Error.{Result, ok, err}
use winsvr.Framework.Service.{is_service}
use winsvr.Agent.Desk.{Host, LogTarget, event_log, log_file, standard_error, service_name}

module _ (host : Host) where
  -- The log file stands beside the executable.
  unfoldable pub file_logger : Result LogTarget
  file_logger = elim host.executable [
    | err e ↦ err e
    | ok exe ↦
        let base = service_name ++ text ".log" in
        elim (host.opens_file exe.dir base) [ some e ↦ err e | none ↦ ok (log_file exe.dir base) ]
  ]

  unfoldable pub file_or_stderr : Result LogTarget → LogTarget
  file_or_stderr (ok l) = l
  file_or_stderr (err e) = standard_error

  unfoldable pub run_logger : LogTarget
  run_logger =
      if is_service host.svc
      then elim (host.opens_log service_name) [
        | none ↦ event_log service_name
        | some e ↦ file_or_stderr file_logger
      ]
      else standard_error
