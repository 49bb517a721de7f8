-- ===== src/Session/Console/Waits.antt =====
-- WaitForActiveConsole: what its result says, and that it ends.
use native.Mathlib.Decide.{dec_lt}
use winsvr.Base.{
  ℕ, zero, suc, ◌+◌, ◌≤◌, ◌<◌, ◌≡◌, subst, inl, inr, true, false, Bool-cases, Option-cases, some,
  arith,
}
use winsvr.Base.Int.{ℤ}
use winsvr.Go.Error.{Error, Result, ok, err}
use winsvr.Go.World.{Env, World, next}
use winsvr.Go.Os.{ctx_err, wait_timer, emit}
use winsvr.Session.Windows.{Windows}
use winsvr.Session.Console.{
  settled, active_console_session, stop_waiting, wait_loop, poll_interval, wait_for_active_console,
}
use winsvr.Session.Console.Finds.{
  IsFound, active_console_session-Passes, active_console_session-IsFound,
}

pub settled_inj : {A : Type 0} (x y : Result A) → settled x ≡ settled y → x ≡ y
settled_inj x y h = ground (arith, h)

module _ (os : Windows) (env : Env) where
  -- A session is one that ActiveConsoleSession found, and an error is the context's.
  abbrev pub IsWaitResult : Result ℕ → Type 0
  IsWaitResult (ok sid) = (t : ℕ) × IsFound os (os.console t) sid
  IsWaitResult (err e) = (t : ℕ) × (env.ctx_err t ≡ some e)

  -- After a select that the timer lost, the context has an error.
  stop_waiting_lem :
      (poll : ℤ) (w : World)
      → (wait_timer env poll w).0 ≡ false
      → (e : Error) × ((stop_waiting os (ctx_err env (wait_timer env poll w).1)).0
          ≡ settled (err e))
        × (env.ctx_err (w.tick + 1) ≡ some e)
  unfolding wait_timer next emit ctx_err stop_waiting
  stop_waiting_lem poll w lost = elim (Option-cases (env.ctx_err (w.tick + 1))) [
    | inl live ↦ absurd (ground (arith, live, lost))
    | inr (e, over) ↦ (e, ground (arith, over), over)
  ]

  wait_loop-IsWaitResult :
      (fuel : ℕ) (poll : ℤ) (w : World) (r : Result ℕ)
      → (wait_loop os env fuel poll w).0 ≡ settled r
      → IsWaitResult r
  unfolding wait_loop
  wait_loop-IsWaitResult zero poll w r h = absurd (cc)
  wait_loop-IsWaitResult (suc fuel) poll w r h =
      elim (Option-cases (active_console_session os w).0) [
        | inr (sid, found) ↦
            subst (IsWaitResult) (settled_inj (ok sid) r (ground (arith, h, found)))
              (w.tick, active_console_session-IsFound os w sid found)
        | inl nobody ↦
            let w1 = (active_console_session os w).1 in
            elim (Bool-cases (wait_timer env poll w1).0) [
              | inl fired ↦
                  wait_loop-IsWaitResult fuel poll (wait_timer env poll w1).1 r
                    (ground (arith, h, nobody, fired))
              | inr lost ↦
                  let (e, said, over) = stop_waiting_lem poll w1 lost in
                  let same = settled_inj (err e) r (ground (arith, h, nobody, lost, said)) in
                  subst IsWaitResult same ((active_console_session os w).1.tick + 1, over)
            ]
      ]

  -- What WaitForActiveConsole returns is a session that ActiveConsoleSession found, or the error of the
  -- context: no other failure ends the wait, and it never ends without a session and without an error.
  pub wait_for_active_console-IsWaitResult :
      (fuel : ℕ) (poll : ℤ) (w : World) (r : Result ℕ)
      → (wait_for_active_console os env fuel poll w).0 ≡ settled r
      → IsWaitResult r
  unfolding wait_for_active_console
  wait_for_active_console-IsWaitResult fuel poll w r h =
      wait_loop-IsWaitResult fuel (poll_interval os poll) w r h

  tick-wait_timer : (poll : ℤ) (w : World) → (wait_timer env poll w).1.tick ≡ w.tick + 1
  unfolding wait_timer next emit
  tick-wait_timer poll w = ground arith

  forward-stop_waiting : (w : World) → w.tick ≤ (stop_waiting os (ctx_err env w)).1.tick
  unfolding stop_waiting ctx_err next
  forward-stop_waiting w = ground arith

  forward-wait_loop :
      (fuel : ℕ) (poll : ℤ) (w : World) → w.tick ≤ (wait_loop os env fuel poll w).1.tick
  unfolding wait_loop
  forward-wait_loop zero poll w = omega arith
  forward-wait_loop (suc fuel) poll w =
      let w1 = (active_console_session os w).1 in
      let w2 = (wait_timer env poll w1).1 in
      ground (
        arith,
        (active_console_session-Passes os w).0,
        tick-wait_timer poll w1,
        forward-stop_waiting w2,
        forward-wait_loop fuel poll w2,
      )

  pub forward-wait_for_active_console :
      (fuel : ℕ) (poll : ℤ) (w : World)
      → w.tick ≤ (wait_for_active_console os env fuel poll w).1.tick
  unfolding wait_for_active_console
  forward-wait_for_active_console fuel poll w = forward-wait_loop fuel (poll_interval os poll) w

  module _ (stopped : ℕ) (done : (t : ℕ) → stopped ≤ t → (e : Error) × (env.ctx_err t ≡ some e))
      (late : (t : ℕ) → stopped ≤ t → env.timer_wins t ≡ false) where
    fired-before : (poll : ℤ) (w : World) → (wait_timer env poll w).0 ≡ true → w.tick < stopped
    unfolding wait_timer next emit
    fired-before poll w fired = elim (dec_lt w.tick stopped) [
      | yes before ↦ before
      | no after ↦
          let (e, over) = done (w.tick + 1) (omega arith) in
          absurd (ground (arith, fired, over, late w.tick (omega arith)))
    ]

    wait_loop_ends :
        (fuel : ℕ) (poll : ℤ) (w : World)
        → 0 < fuel
        → stopped < fuel + w.tick
        → (r : Result ℕ) × ((wait_loop os env fuel poll w).0 ≡ settled r)
    unfolding wait_loop
    wait_loop_ends zero poll w positive h = absurd (omega arith)
    wait_loop_ends (suc fuel) poll w positive h =
        elim (Option-cases (active_console_session os w).0) [
          | inr (sid, found) ↦ (ok sid, ground (arith, found))
          | inl nobody ↦
              let w1 = (active_console_session os w).1 in
              elim (Bool-cases (wait_timer env poll w1).0) [
                | inl fired ↦
                    let w2 = (wait_timer env poll w1).1 in
                    let (r, e) =
                      wait_loop_ends fuel poll w2
                        (omega (
                          arith,
                          h,
                          fired-before poll w1 fired,
                          (active_console_session-Passes os w).0,
                        ))
                        (omega (
                          arith,
                          tick-wait_timer poll w1,
                          (active_console_session-Passes os w).0,
                        )) in
                    (r, ground (arith, nobody, fired, e))
                | inr lost ↦
                    let (e, said, over) = stop_waiting_lem poll w1 lost in
                    (err e, ground (arith, nobody, lost, said))
              ]
        ]

    -- If the context is done from the tick `stopped` on, and a timer that is started after that does
    -- not fire first, WaitForActiveConsole returns with any fuel, more than 0, that exceeds the ticks
    -- left until then.
    pub wait_for_active_console_ends :
        (fuel : ℕ) (poll : ℤ) (w : World)
        → 0 < fuel
        → stopped < fuel + w.tick
        → (r : Result ℕ) × ((wait_for_active_console os env fuel poll w).0 ≡ settled r)
    unfolding wait_for_active_console
    wait_for_active_console_ends fuel poll w = wait_loop_ends fuel (poll_interval os poll) w
