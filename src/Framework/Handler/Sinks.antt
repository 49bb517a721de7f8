-- ===== src/Framework/Handler/Sinks.antt =====
-- Where Execute of service_windows.go logs.
use winsvr.Base.{
  ◌≡◌, inl, inr, refl, true, Option, none, some, List, [], ◌∷◌, All, All-append, Bool-cases,
}
use winsvr.Go.Error.{Error, errors_is, context_canceled}
use winsvr.Go.World.{Record}
use winsvr.Framework.Config.{own_logger, standard_error, Logger, service_logger, choose_logger}
use winsvr.Framework.Text.{run_recovered}
use winsvr.Framework.Handler.{
  interrogate, stop, shutdown, pre_shutdown, other, Handler, Input, done, request, Late, ended,
  timed_out, Action, sent, cancel, logged, Exit, waiting, exited, run_ended, report_error,
  report_late, stop_requested, execute_loop, leave, execute,
}

-- A record goes where records of errors are kept: not to a logger that discards them.
abbrev pub IsKept : Action → Type 0
IsKept (sent status) = Unit
IsKept cancel = Unit
IsKept (logged (own_logger l) r) = l.enabled_error ≡ true
IsKept (logged standard_error r) = Unit

module _ (h : Handler) where
  service_logger-IsKept : (r : Record) → IsKept (logged (service_logger h.svc) r)
  unfolding service_logger choose_logger
  service_logger-IsKept r = go h.svc.logged
    where
      go :
          (o : Option (Option Logger))
          → IsKept (logged (elim o [ none ↦ standard_error | some l ↦ choose_logger l ]) r)
      go none = tt
      go (some none) = tt
      go (some (some l)) = elim (Bool-cases l.enabled_error) [
        | inl on ↦ rw on refl
        | inr off ↦ rw off tt
      ]

  report_error-IsKept : (e : Option Error) → All IsKept (report_error h e)
  unfolding report_error
  report_error-IsKept none = tt
  report_error-IsKept (some e) = elim (Bool-cases (errors_is e context_canceled)) [
    | inl stopped ↦ rw stopped tt
    | inr worse ↦ rw worse (service_logger-IsKept _, tt)
  ]

  report_late-IsKept : (late : Late) → All IsKept (report_late h late)
  unfolding report_late
  report_late-IsKept timed_out = (service_logger-IsKept _, tt)
  report_late-IsKept (ended end) = report_error-IsKept (run_recovered end)

  run_ended-IsKept : (e : Option Error) → All IsKept (run_ended h e).1
  unfolding run_ended
  run_ended-IsKept none = tt
  run_ended-IsKept (some e) = (service_logger-IsKept _, tt)

  execute_loop-IsKept :
      (inputs : List Input) (late : Late) → All IsKept (execute_loop h inputs late).1
  unfolding execute_loop stop_requested
  execute_loop-IsKept [] late = tt
  execute_loop-IsKept (done end ∷ inputs) late = (tt, run_ended-IsKept (run_recovered end))
  execute_loop-IsKept (request interrogate current ∷ inputs) late =
      (tt, execute_loop-IsKept inputs late)
  execute_loop-IsKept (request stop current ∷ inputs) late = (tt, (tt, report_late-IsKept late))
  execute_loop-IsKept (request shutdown current ∷ inputs) late = (tt, (tt, report_late-IsKept late))
  execute_loop-IsKept (request pre_shutdown current ∷ inputs) late =
      (tt, (tt, report_late-IsKept late))
  execute_loop-IsKept (request (other n) current ∷ inputs) late = execute_loop-IsKept inputs late

  leave-IsKept : (exit : Exit) → All IsKept (leave h exit)
  unfolding leave
  leave-IsKept waiting = tt
  leave-IsKept (exited special code) = (tt, tt)

  -- Whatever Execute logs goes to standard error, or to a logger of the service that records errors.
  pub execute-IsKept : (inputs : List Input) (late : Late) → All IsKept (execute h inputs late).1
  unfolding execute
  execute-IsKept inputs late = (
    tt,
    (
      tt,
      All-append IsKept _ _ (execute_loop-IsKept inputs late)
          (leave-IsKept (execute_loop h inputs late).0),
    ),
  )
