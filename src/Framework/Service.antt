-- ===== src/Framework/Service.antt =====
-- Run and IsWindowsService of service_windows.go. What golang.org/x/sys/windows/svc does is a
-- parameter: svc.IsWindowsService, svc.Run and debug.Run.
use winsvr.Base.{Bool, false, Option, none, some, if◌then◌else◌}
use winsvr.Base.Int.{ℤ}
use winsvr.Base.Bytes.{Bytes}
use winsvr.Go.Error.{Error}
use winsvr.Go.World.{World}
use winsvr.Framework.Config.{Service, Logger}
use winsvr.Framework.Handler.{Handler, new_handler}

-- IsWindowsService says both, an answer and an error.
pub record Svc : Type 0 where
  pub is_windows_service : Bool × Option Error
  pub svc_run : Bytes → Handler → World → Option Error × World
  pub debug_run : Bytes → Handler → World → Option Error × World

module _ (svc : Svc) where
  -- The answer alone, for `isSvc, _ := IsWindowsService()`.
  abbrev pub is_service : Bool
  is_service = svc.is_windows_service.0

  -- Run: under the service control manager, or on the console.
  unfoldable pub run_service : Bytes → Service → ℤ → World → Option Error × World
  run_service name service stop_timeout w =
      let h = new_handler service stop_timeout in
      elim svc.is_windows_service.1 [
        | some e ↦ (some e, w)
        | none ↦ if is_service then svc.svc_run name h w else svc.debug_run name h w
      ]

-- The logger of `discardHandler`, which records nothing.
abbrev pub discard_logger : Logger
discard_logger = record { id = 0; enabled_error = false }

-- `Supervisor.log`, by the field Logger.
unfoldable pub log : Option Logger → Logger
log none = discard_logger
log (some l) = l

-- The supervisor as a Service: it implements Logged, with ServiceLogger.
unfoldable pub supervisor_service : Option Logger → Service
supervisor_service logger = record { logged = some (some (log logger)) }
