-- ===== src/Session/Process/Closes.antt =====
-- Process.Close: a second call does nothing, and what its error is.
use winsvr.Base.{◌≡◌, arith, none}
use winsvr.Go.World.{World}
use winsvr.Supervisor.Config.{Process}
use winsvr.Session.Windows.{Windows}
use winsvr.Session.Process.{close, close_process_handle, close_job}

module _ (os : Windows) where
  -- Close clears both handles, keeps the process number, and a second Close of the same Process
  -- changes nothing, and reports no error.
  pub close-close :
      (p : Process) (w : World)
      → ((close os p w).0.1.pid ≡ p.pid)
        × ((close os p w).0.1.handle ≡ 0)
        × ((close os p w).0.1.job ≡ 0)
        × (close os (close os p w).0.1 (close os p w).1
            ≡ ((none, (close os p w).0.1), (close os p w).1))
  unfolding close close_process_handle close_job
  close-close p w = (ground arith, ground arith, ground arith, ground arith)
