-- ===== src/Framework/Handler/Exits.antt =====
-- How Execute of service_windows.go ends, and what it has reported by then.
use winsvr.Base.{
  ◌≡◌, ◌↔◌, inl, inr, refl, ap, true, false, some, List, [], ◌∷◌, ◌++◌, arith, All, Option-cases,
  Bool-cases,
}
use winsvr.Go.Error.{Error, errors_is, context_canceled}
use winsvr.Framework.Text.{RunEnd, run_recovered}
use winsvr.Framework.Handler.{
  Command, interrogate, stop, shutdown, pre_shutdown, other, Status, Handler, Input, done, request,
  Late, ended, timed_out, Action, sent, cancel, exited, run_ended, report_error, report_late,
  stopping_status, stop_requested, execute_loop, leave, execute, first_status, running_status,
}

-- A request that does not end the service.
abbrev pub IsQuiet : Input → Type 0
IsQuiet (done end) = ⊥
IsQuiet (request interrogate current) = Unit
IsQuiet (request stop current) = ⊥
IsQuiet (request shutdown current) = ⊥
IsQuiet (request pre_shutdown current) = ⊥
IsQuiet (request (other n) current) = Unit

-- A request to stop.
abbrev pub IsStop : Command → Type 0
IsStop interrogate = ⊥
IsStop stop = Unit
IsStop shutdown = Unit
IsStop pre_shutdown = Unit
IsStop (other n) = ⊥

-- Run has failed, by an error or a panic, before any request to stop.
abbrev pub FailsFirst : List Input → Type 0
FailsFirst inputs =
    (before : List Input) × (end : RunEnd) × (after : List Input) × (e : Error) × (inputs
      ≡ before ++ (done end ∷ after))
    × All IsQuiet before
    × (run_recovered end ≡ some e)

-- The answers to quiet requests.
abbrev pub replies : List Input → List Action
replies [] = []
replies (done end ∷ inputs) = replies inputs
replies (request interrogate current ∷ inputs) = sent current ∷ replies inputs
replies (request stop current ∷ inputs) = replies inputs
replies (request shutdown current ∷ inputs) = replies inputs
replies (request pre_shutdown current ∷ inputs) = replies inputs
replies (request (other n) current ∷ inputs) = replies inputs

-- The nil error and that of a cancelled context are what a clean stop returns.
abbrev pub IsCleanEnd : Late → Type 0
IsCleanEnd timed_out = ⊥
IsCleanEnd (ended end) =
    (e : Error) → run_recovered end ≡ some e → errors_is e context_canceled ≡ true

module _ (h : Handler) where
  loop_quiet :
      (before inputs : List Input) (late : Late)
      → All IsQuiet before
      → execute_loop h (before ++ inputs) late
        ≡ ((execute_loop h inputs late).0, replies before ++ (execute_loop h inputs late).1)
  unfolding execute_loop
  loop_quiet [] inputs late q = refl
  loop_quiet (done end ∷ before) inputs late q = absurd q.0
  loop_quiet (request interrogate current ∷ before) inputs late q =
      ap (λ r. (r.0, sent current ∷ r.1)) (loop_quiet before inputs late q.1)
  loop_quiet (request stop current ∷ before) inputs late q = absurd q.0
  loop_quiet (request shutdown current ∷ before) inputs late q = absurd q.0
  loop_quiet (request pre_shutdown current ∷ before) inputs late q = absurd q.0
  loop_quiet (request (other n) current ∷ before) inputs late q = loop_quiet before inputs late q.1

  loop_stop :
      (c : Command) (current : Status) (after : List Input) (late : Late)
      → IsStop c
      → execute_loop h (request c current ∷ after) late ≡ stop_requested h late
  unfolding execute_loop
  loop_stop interrogate current after late s = absurd s
  loop_stop stop current after late s = refl
  loop_stop shutdown current after late s = refl
  loop_stop pre_shutdown current after late s = refl
  loop_stop (other n) current after late s = absurd s

  report_late_iff : (late : Late) → (report_late h late ≡ []) ↔ IsCleanEnd late
  unfolding report_late report_error
  report_late_iff timed_out = (λ quiet. cc, λ clean. absurd clean)
  report_late_iff (ended end) = elim (Option-cases (run_recovered end)) [
    | inl fine ↦ (λ quiet e failed. absurd (cc), λ clean. ground (arith, fine))
    | inr (e, failed) ↦ elim (Bool-cases (errors_is e context_canceled)) [
      | inl stopped ↦ (
        λ quiet x same. let names : x ≡ e = ground (arith, failed, same) in rw names stopped,
        λ clean. ground (arith, failed, stopped),
      )
      | inr worse ↦ (
        λ quiet. absurd (ground (arith, failed, worse, quiet)),
        λ clean. absurd (cc (clean e failed, worse)),
      )
    ]
  ]

  -- A request to stop, after any requests that were not: Execute announces that it stops, cancels
  -- the context before it waits for Run, and reports exit code 0, whatever Run does. What it logs is
  -- nothing exactly if Run returned in time, without an error or with one that is a cancelled
  -- context's.
  pub execute_stop :
      (before after : List Input) (c : Command) (current : Status) (late : Late)
      → All IsQuiet before
      → IsStop c
      → (reported : List Action) × (execute h (before ++ (request c current ∷ after)) late ≡ (
        exited false 0,
        sent first_status
            ∷ sent running_status
            ∷ ((replies before ++ (sent (stopping_status h) ∷ cancel ∷ reported)) ++ (cancel ∷ [])),
      ))
        × ((reported ≡ []) ↔ IsCleanEnd late)
  unfolding execute leave stop_requested
  execute_stop before after c current late q s = (
    report_late h late,
    rw (loop_quiet before (request c current ∷ after) late q, loop_stop c current after late s)
        refl,
    report_late_iff late,
  )

  loop_fails :
      (inputs : List Input) (late : Late)
      → (execute_loop h inputs late).0 ≡ exited true 1
      → FailsFirst inputs
  unfolding execute_loop stop_requested run_ended
  loop_fails [] late e = absurd (cc)
  loop_fails (done end ∷ inputs) late e = elim (Option-cases (run_recovered end)) [
    | inl fine ↦ absurd (ground (arith, fine))
    | inr (x, failed) ↦ ([], end, inputs, x, refl, tt, failed)
  ]
  loop_fails (request interrogate current ∷ inputs) late e =
      let (before, end, after, x, split, quiet, failed) = loop_fails inputs late e in
      (
        request interrogate current ∷ before,
        end,
        after,
        x,
        ap (λ i. request interrogate current ∷ i) split,
        (tt, quiet),
        failed,
      )
  loop_fails (request stop current ∷ inputs) late e = absurd (cc)
  loop_fails (request shutdown current ∷ inputs) late e = absurd (cc)
  loop_fails (request pre_shutdown current ∷ inputs) late e = absurd (cc)
  loop_fails (request (other n) current ∷ inputs) late e =
      let (before, end, after, x, split, quiet, failed) = loop_fails inputs late e in
      (
        request (other n) current ∷ before,
        end,
        after,
        x,
        ap (λ i. request (other n) current ∷ i) split,
        (tt, quiet),
        failed,
      )

  fails_loop :
      (inputs : List Input) (late : Late)
      → FailsFirst inputs
      → (execute_loop h inputs late).0 ≡ exited true 1
  unfolding execute_loop run_ended
  fails_loop inputs late (before, end, after, e, split, quiet, failed) =
      rw (split, loop_quiet before (done end ∷ after) late quiet, failed) refl

  -- Execute reports a failure, which makes the service manager act on it, exactly if Run ended with an
  -- error or a panic before there was a request to stop.
  pub execute_fails_iff :
      (inputs : List Input) (late : Late)
      → ((execute h inputs late).0 ≡ exited true 1) ↔ FailsFirst inputs
  unfolding execute
  execute_fails_iff inputs late = (loop_fails inputs late, fails_loop inputs late)
