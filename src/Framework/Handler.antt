-- ===== src/Framework/Handler.antt =====
-- service_windows.go: Run's handler, as a function of what its two selects receive. The kinds of
-- requests and the fields of a status are those of golang.org/x/sys/windows/svc.
pub mod Exits
pub mod Sinks
use winsvr.Base.{
  ℕ, zero, suc, ◌-◌, ◌*◌, ◌/◌, ◌%◌, ◌^◌, Bool, true, false, Option, none, some, List, [], ◌∷◌, ◌++◌,
  if◌then◌else◌,
}
use winsvr.Base.Int.{ℤ, pos, negsuc, leb_ℤ}
use winsvr.Go.Error.{Error, errors_is, context_canceled, number}
use winsvr.Go.World.{Record, error, warn, arg, failure}
use winsvr.Backoff.{millisecond, second}
use winsvr.Framework.Config.{
  Service, Sink, service_logger, start_pending, stop_pending, service_running,
}
use winsvr.Framework.Text.{RunEnd, run_recovered}

-- The requests that Execute tells apart.
pub data Command : Type 0 where
  interrogate stop shutdown pre_shutdown : Command
  other : ℕ → Command

pub data Accept : Type 0 where
  accept_stop accept_shutdown accept_pre_shutdown : Accept

pub record Status : Type 0 where
  pub state : ℕ
  pub accepts : List Accept
  pub wait_hint : ℕ

pub record Handler : Type 0 where
  pub svc : Service
  pub stop_timeout : ℤ

-- What the first select receives: Run has ended, or there is a request with the current status.
pub data Input : Type 0 where
  done : RunEnd → Input
  request : Command → Status → Input

-- What the second select receives, after a stop request.
pub data Late : Type 0 where
  ended : RunEnd → Late
  timed_out : Late

-- What Execute does, in order: it sends a status, cancels the context, or writes a record.
pub data Action : Type 0 where
  sent : Status → Action
  cancel : Action
  logged : Sink → Record → Action

-- Execute waits for more, or returns.
pub data Exit : Type 0 where
  waiting : Exit
  exited : Bool → ℕ → Exit

-- The handler that Run makes: the timeout has a default.
unfoldable pub new_handler : Service → ℤ → Handler
new_handler service stop_timeout = record {
  svc = service;
  stop_timeout = if leb_ℤ stop_timeout (pos 0) then pos (20 * second) else stop_timeout;
}

-- uint32(d / time.Millisecond)
unfoldable pub milliseconds : ℤ → ℕ
milliseconds (pos n) = n / millisecond % 2 ^ 32
milliseconds (negsuc n) = (2 ^ 64 - suc n / millisecond) % 2 ^ 32

abbrev pub plain_status : ℕ → Status
plain_status s = record { state = s; accepts = []; wait_hint = 0 }

abbrev pub first_status : Status
first_status = record { state = start_pending; accepts = []; wait_hint = 15_000 }

abbrev pub running_status : Status
running_status = record {
  state = service_running;
  accepts = accept_stop ∷ accept_shutdown ∷ accept_pre_shutdown ∷ [];
  wait_hint = 0;
}

module _ (h : Handler) where
  -- Run returned on its own.
  unfoldable pub run_ended : Option Error → Exit × List Action
  run_ended none = (exited false 0, [])
  run_ended (some e) = (
    exited true 1,
    logged (service_logger h.svc) (record {
      level = error;
      message = "service stopped: Run returned an error";
      attrs = ("err", failure e) ∷ [];
    })
        ∷ [],
  )

  unfoldable pub report_error : Option Error → List Action
  report_error none = []
  report_error (some e) =
      if errors_is e context_canceled
      then []
      else logged (service_logger h.svc) (record {
        level = error;
        message = "service stopped on request, but Run returned an error";
        attrs = ("err", failure e) ∷ [];
      })
        ∷ []

  unfoldable pub report_late : Late → List Action
  report_late (ended end) = report_error (run_recovered end)
  report_late timed_out =
      logged (service_logger h.svc) (record {
        level = warn;
        message = "Run did not return within the stop timeout; exiting anyway";
        attrs = ("timeout", arg (number h.stop_timeout)) ∷ [];
      })
      ∷ []

  -- The status of a service that is asked to stop.
  unfoldable pub stopping_status : Status
  stopping_status = record {
    state = stop_pending;
    accepts = [];
    wait_hint = milliseconds h.stop_timeout;
  }

  unfoldable pub stop_requested : Late → Exit × List Action
  stop_requested late = (exited false 0, sent stopping_status ∷ cancel ∷ report_late late)

  -- The loop over the first select; a request of another kind is passed over.
  unfoldable pub execute_loop : List Input → Late → Exit × List Action
  execute_loop [] late = (waiting, [])
  execute_loop (done end ∷ inputs) late =
      let (exit, actions) = run_ended (run_recovered end) in
      (exit, sent (plain_status stop_pending) ∷ actions)
  execute_loop (request interrogate current ∷ inputs) late =
      let (exit, actions) = execute_loop inputs late in (exit, sent current ∷ actions)
  execute_loop (request stop current ∷ inputs) late = stop_requested late
  execute_loop (request shutdown current ∷ inputs) late = stop_requested late
  execute_loop (request pre_shutdown current ∷ inputs) late = stop_requested late
  execute_loop (request (other n) current ∷ inputs) late = execute_loop inputs late

  -- `defer cancel()`
  unfoldable pub leave : Exit → List Action
  leave waiting = []
  leave (exited special code) = cancel ∷ []

  unfoldable pub execute : List Input → Late → Exit × List Action
  execute inputs late =
      let (exit, actions) = execute_loop inputs late in
      (exit, sent first_status ∷ sent running_status ∷ (actions ++ leave exit))
