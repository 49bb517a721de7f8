-- ===== src/Agent/Diagnostics.antt =====
-- Where the run command of example/agent/main.go logs (runLogger), and where the framework's events
-- about it go.
use winsvr.Base.{◌≡◌, refl, ap, ◌↔◌, ◌⊎◌, inl, inr, true, none, some, arith, ◌++◌, Option-cases}
use winsvr.Base.Bytes.{text}
use winsvr.Go.Error.{Error, ok, err}
use winsvr.Go.Effects.{Result-cases}
use winsvr.Go.World.{FilePath}
use winsvr.Framework.EventLog.{is_enabled}
use winsvr.Framework.Config.{choose_logger, own_logger, service_logger}
use winsvr.Framework.Service.{is_service, log, supervisor_service}
use winsvr.Agent.Desk.{
  Host, LogTarget, event_log, log_file, standard_error, logger_of, agent_service, service_name,
}
use winsvr.Agent.Logs.{file_logger, file_or_stderr, run_logger}

takes_errors : (t : LogTarget) → (logger_of t).enabled_error ≡ true
unfolding logger_of is_enabled
takes_errors (event_log source) = refl
takes_errors (log_file dir base) = refl
takes_errors standard_error = refl

module _ (host : Host) where
  -- The event log could not be opened, and neither could the file beside the executable.
  abbrev pub HasNoLog : Type 0
  HasNoLog =
      ((e : Error) × (host.opens_log service_name ≡ some e))
      × (((e : Error) × (host.executable ≡ err e))
          ⊎ ((exe : FilePath) × (e : Error) × (host.executable ≡ ok exe)
              × (host.opens_file exe.dir (service_name ++ text ".log") ≡ some e)))

  opened_file :
      (exe : FilePath)
      → host.executable ≡ ok exe
      → host.opens_file exe.dir (service_name ++ text ".log") ≡ none
      → HasNoLog
      → ⊥
  opened_file exe found fine (_, inl (e, lost)) = cc (lost, found)
  opened_file exe found fine (_, inr (other, e, there, refused)) =
      let same : other ≡ exe = ground (arith, there, found) in
      cc (
        refused,
        fine,
        ap (λ (x : FilePath). host.opens_file x.dir (service_name ++ text ".log")) same,
      )

  stderr_iff : is_service host.svc ≡ true → (run_logger host ≡ standard_error) ↔ HasNoLog
  unfolding run_logger file_or_stderr file_logger
  stderr_iff service = elim (Option-cases (host.opens_log service_name)) [
    | inl opened ↦
        let logger : run_logger host ≡ event_log service_name = ground (arith, service, opened) in
        (λ h. absurd (cc (logger, h)), λ none_open. absurd (cc (none_open.0.1, opened)))
    | inr (e, bad) ↦ elim (Result-cases host.executable) [
      | inl (f, lost) ↦ (λ h. ((e, bad), inl (f, lost)), λ _. ground (arith, service, bad, lost))
      | inr (exe, found) ↦
          elim (Option-cases (host.opens_file exe.dir (service_name ++ text ".log"))) [
            | inl fine ↦
                let logger : run_logger host ≡ log_file exe.dir (service_name ++ text ".log") =
                  ground (arith, service, bad, found, fine) in
                (
                  λ h. absurd (cc (logger, h)),
                  λ none_open. absurd (opened_file exe found fine none_open),
                )
            | inr (f, refused) ↦ (
              λ h. ((e, bad), inr (exe, f, found, refused)),
              λ _. ground (arith, service, bad, found, refused),
            )
          ]
    ]
  ]

  -- As a service, the run command falls back to standard error, which nobody reads, exactly if the
  -- event log and the file beside the executable both could not be opened; and, since each of the
  -- three loggers has errors enabled at its level, the framework's own events about the service go to
  -- the one that the command has chosen.
  pub run_logger_exact :
      is_service host.svc ≡ true
      → ((run_logger host ≡ standard_error) ↔ HasNoLog)
        × (service_logger (agent_service (run_logger host))
            ≡ own_logger (logger_of (run_logger host)))
  unfolding service_logger choose_logger supervisor_service log
  run_logger_exact service = (stderr_iff service, rw (takes_errors (run_logger host)) refl)
