-- ===== src/Session/Process/Ends.antt =====
-- Process.Wait: what its result says, and that it ends.
use native.Mathlib.Decide.{dec_lt}
use winsvr.Base.{
  ℕ, zero, suc, ◌+◌, ◌≤◌, ◌<◌, ◌≡◌, ◌≢◌, refl, ap, subst, inl, inr, Bool-cases, Option-cases, some,
  none, arith, [], ◌∷◌, ◌==◌,
}
use winsvr.Base.Int.{pos}
use winsvr.Go.Error.{Error, Result, ok, err, errorf, wrap, number}
use winsvr.Go.World.{Env, World, next}
use winsvr.Go.Os.{ctx_err}
use winsvr.Supervisor.Config.{Process}
use winsvr.Session.Windows.{
  Windows, process_of, wait_for_object, get_exit_code, read, named, rename, failed,
}
use winsvr.Session.Console.{settled}
use winsvr.Session.Console.Waits.{settled_inj}
use winsvr.Session.Process.{
  wait_object_0, wait_timeout, settle, exit_code_of, after_event, wait_process,
}

module _ (os : Windows) (env : Env) (p : Process) where
  -- The process was seen ended, and Windows gave this exit code for it.
  abbrev pub IsExit : ℕ → Type 0
  IsExit code =
      (t : ℕ) × (os.wait_event t ≡ wait_object_0)
      × (os.answer (t + 1) (get_exit_code (process_of p.handle)) ≡ none)
      × (code ≡ os.exit_code (t + 1))

  -- The ways that the wait fails: Windows would not wait or not tell the exit code, it said something
  -- that is neither an end nor a timeout, or the context is done.
  pub data IsWaitError : Error → Type 0 where
    not_waited :
        (t n : ℕ)
        → os.answer t (wait_for_object (process_of p.handle)) ≡ some n
        → IsWaitError (failed os n)
    no_code :
        (t n : ℕ)
        → os.answer t (get_exit_code (process_of p.handle)) ≡ some n
        → IsWaitError (wrap "GetExitCodeProcess: %w" [] (failed os n))
    strange :
        (t : ℕ)
        → os.wait_event t ≢ wait_object_0
        → os.wait_event t ≢ wait_timeout
        → IsWaitError (errorf "WaitForSingleObject: %#x" (number (pos (os.wait_event t)) ∷ []))
    cancelled : (t : ℕ) (e : Error) → env.ctx_err t ≡ some e → IsWaitError e

  abbrev pub IsExitResult : Result ℕ → Type 0
  IsExitResult (ok code) = IsExit code
  IsExitResult (err e) = IsWaitError e

  exit_code_of-IsExitResult :
      (t : ℕ) (w : World) (r : Result ℕ)
      → os.wait_event t ≡ wait_object_0
      → w.tick ≡ t + 1
      → (exit_code_of os p w).0 ≡ settled r
      → IsExitResult r
  unfolding exit_code_of settle named rename read
  exit_code_of-IsExitResult t w r ended here h =
      elim (Option-cases (os.answer w.tick (get_exit_code (process_of p.handle)))) [
        | inl fine ↦
            subst IsExitResult (settled_inj (ok (os.exit_code w.tick)) r (ground (arith, h, fine)))
              (t, ended, cc (fine, here), ap os.exit_code here)
        | inr (n, bad) ↦
            subst IsExitResult
              (settled_inj (err (wrap "GetExitCodeProcess: %w" [] (failed os n))) r
                (ground (arith, h, bad)))
              (no_code w.tick n bad)
      ]

  -- When Wait ends, it gives the exit code that Windows told of a process that it had seen ended, or an
  -- error: that Windows would not wait or would not tell the exit code, that the wait gave something
  -- that is neither an end nor a timeout, or that the context is done.
  pub wait_process-IsExitResult :
      (fuel : ℕ) (w : World) (r : Result ℕ)
      → (wait_process os env fuel p w).0 ≡ settled r
      → IsExitResult r
  unfolding wait_process after_event read ctx_err next
  wait_process-IsExitResult zero w r h = absurd (cc)
  wait_process-IsExitResult (suc fuel) w r h =
      elim (Option-cases (os.answer w.tick (wait_for_object (process_of p.handle)))) [
        | inr (n, bad) ↦
            subst IsExitResult (settled_inj (err (failed os n)) r (ground (arith, h, bad)))
              (not_waited w.tick n bad)
        | inl fine ↦ elim (Bool-cases (os.wait_event w.tick == wait_object_0)) [
          | inl ended ↦
              exit_code_of-IsExitResult w.tick (next w) r (ground (arith, ended)) refl
                (ground (arith, h, fine, ended))
          | inr running ↦ elim (Bool-cases (os.wait_event w.tick == wait_timeout)) [
            | inr other ↦
                subst IsExitResult
                  (settled_inj
                    (err (
                      errorf "WaitForSingleObject: %#x" (number (pos (os.wait_event w.tick)) ∷ [])))
                    r (ground (arith, h, fine, running, other)))
                  (strange w.tick (ground (arith, running)) (ground (arith, other)))
            | inl timeout ↦ elim (Option-cases (env.ctx_err (w.tick + 1))) [
              | inl live ↦
                  wait_process-IsExitResult fuel (next (next w)) r
                    (ground (arith, h, fine, running, timeout, live))
              | inr (e, over) ↦
                  subst IsExitResult
                    (settled_inj (err e) r (ground (arith, h, fine, running, timeout, over)))
                    (cancelled (w.tick + 1) e over)
            ]
          ]
        ]
      ]

  exit_code_of_settled : (w : World) → (r : Result ℕ) × ((exit_code_of os p w).0 ≡ settled r)
  unfolding exit_code_of settle
  exit_code_of_settled w = (_, refl)

  forward-exit_code_of : (w : World) → w.tick ≤ (exit_code_of os p w).1.tick
  unfolding exit_code_of settle named rename read next
  forward-exit_code_of w = ground arith

  pub forward-wait_process : (fuel : ℕ) (w : World) → w.tick ≤ (wait_process os env fuel p w).1.tick
  unfolding wait_process after_event read ctx_err next
  forward-wait_process zero w = omega arith
  forward-wait_process (suc fuel) w =
      ground (arith, forward-exit_code_of (next w), forward-wait_process fuel (next (next w)))

  module _ (stopped : ℕ)
      (done : (t : ℕ) → stopped ≤ t → (e : Error) × (env.ctx_err t ≡ some e)) where
    live-before : (t : ℕ) → env.ctx_err t ≡ none → t < stopped
    live-before t live = elim (dec_lt t stopped) [
      | yes before ↦ before
      | no after ↦ let (e, over) = done t (omega arith) in absurd (cc)
    ]

    -- If the context is done from the tick `stopped` on, Wait returns with any fuel, more than 0, that
    -- exceeds the ticks left until then, whatever Windows answers.
    pub wait_process_ends :
        (fuel : ℕ) (w : World)
        → 0 < fuel
        → stopped < fuel + w.tick
        → (r : Result ℕ) × ((wait_process os env fuel p w).0 ≡ settled r)
    unfolding wait_process after_event read ctx_err next
    wait_process_ends zero w positive h = absurd (omega arith)
    wait_process_ends (suc fuel) w positive h =
        elim (Option-cases (os.answer w.tick (wait_for_object (process_of p.handle)))) [
          | inr (n, bad) ↦ (err (failed os n), ground (arith, bad))
          | inl fine ↦ elim (Bool-cases (os.wait_event w.tick == wait_object_0)) [
            | inl ended ↦
                let (r, e) = exit_code_of_settled (next w) in (r, ground (arith, fine, ended, e))
            | inr running ↦ elim (Bool-cases (os.wait_event w.tick == wait_timeout)) [
              | inr other ↦ (
                err (errorf "WaitForSingleObject: %#x" (number (pos (os.wait_event w.tick)) ∷ [])),
                ground (arith, fine, running, other),
              )
              | inl timeout ↦ elim (Option-cases (env.ctx_err (w.tick + 1))) [
                | inr (e, over) ↦ (err e, ground (arith, fine, running, timeout, over))
                | inl live ↦
                    let before = live-before (w.tick + 1) live in
                    let (r, e) =
                      wait_process_ends fuel (next (next w)) (omega arith) (omega arith) in
                    (r, ground (arith, fine, running, timeout, live, e))
              ]
            ]
          ]
        ]
