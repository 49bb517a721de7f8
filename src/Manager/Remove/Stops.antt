-- ===== src/Manager/Remove/Stops.antt =====
-- stopAndWait of manager_windows.go ends, and says that a service has stopped only if it has.
use winsvr.Base.{
  ℕ, zero, suc, ◌+◌, ◌*◌, ◌≤◌, ◌<◌, ◌≡◌, ◌⊎◌, inl, inr, Bool-cases, ltb, refl, Bool, true, false,
  Option, none, some, arith, ◌==◌,
}
use winsvr.Base.Int.{pos}
use winsvr.Base.Bytes.{Bytes}
use winsvr.Go.Error.{Error, errors_is}
use winsvr.Backoff.{millisecond}
use winsvr.Framework.Config.{stopped}
use winsvr.Manager.Calls.{
  succeeded, is_delete, Scm, Transcript, ask, control_stop, sleep_between, service_not_active,
}
use winsvr.Manager.Remove.{
  settled, carries_state, is_inactive, stop_error, stop_loop, stop_and_wait, stop_wait,
}

module _ (scm : Scm) (name : Bytes) where
  -- At some control between the two states the service reported that it is stopped, or that it does
  -- not run.
  abbrev pub HasStopped : Transcript → Transcript → Type 0
  HasStopped s s' =
      (t : ℕ) × (s.tick ≤ t)
      × (t < s'.tick)
      × ((scm.state t ≡ stopped)
          ⊎ ((e : Error) × (scm.answer t control_stop ≡ some e)
              × (errors_is e service_not_active ≡ true)))

  -- The state after a round that does not end the loop.
  abbrev slept : Transcript → Transcript
  slept s = (ask scm (sleep_between (pos (300 * millisecond))) (ask scm control_stop s).1).1

  is_inactive-some :
      (o : Option Error)
      → is_inactive scm name o ≡ true
      → (e : Error) × (o ≡ some e) × (errors_is e service_not_active ≡ true)
  unfolding is_inactive
  is_inactive-some none h = absurd (cc)
  is_inactive-some (some e) h = (e, refl, h)

  loop_stopped :
      (fuel deadline : ℕ) (s s' : Transcript)
      → stop_loop scm name fuel deadline s ≡ (settled true none, s')
      → HasStopped s s'
  unfolding stop_loop ask
  loop_stopped zero deadline s s' h = absurd (ground (arith, h))
  loop_stopped (suc fuel) deadline s s' h =
      elim (Bool-cases (is_inactive scm name (scm.answer s.tick control_stop))) [
        | inl off ↦ (s.tick, omega arith, ground (arith, h, off), inr (is_inactive-some _ off))
        | inr on ↦ elim (Bool-cases (scm.state s.tick == stopped)) [
          | inl done ↦
              (s.tick, omega arith, ground (arith, h, on, done), inl (ground (arith, done)))
          | inr runs ↦
              let (t, after, before, seen) =
                loop_stopped fuel deadline (slept s) s' (ground (arith, h, on, runs)) in
              (t, omega (arith, after), before, seen)
        ]
      ]

  -- stopAndWait reports a stopped service only if, at one of its requests, the service was reported
  -- as stopped or as not running: one that refuses the request while it starts is not taken for one.
  pub stop_and_wait_sound :
      (fuel : ℕ) (s s' : Transcript)
      → stop_and_wait scm name fuel s ≡ (settled true none, s')
      → HasStopped s s'
  unfolding stop_and_wait
  stop_and_wait_sound fuel s s' h = loop_stopped fuel _ s s' h

  -- The loop deletes nothing.
  stop_loop-deletes :
      (fuel deadline : ℕ) (s : Transcript)
      → succeeded is_delete (stop_loop scm name fuel deadline s).1.calls
        ≡ succeeded is_delete s.calls
  unfolding stop_loop ask
  stop_loop-deletes zero deadline s = refl
  stop_loop-deletes (suc fuel) deadline s =
      ground (arith, stop_loop-deletes fuel deadline (slept s))

  pub stop_and_wait-deletes :
      (fuel : ℕ) (s : Transcript)
      → succeeded is_delete (stop_and_wait scm name fuel s).1.calls ≡ succeeded is_delete s.calls
  unfolding stop_and_wait
  stop_and_wait-deletes fuel s = stop_loop-deletes fuel _ s

  -- A round ends the loop, or the rest of the loop does.
  round_ends :
      (fuel deadline : ℕ) (s : Transcript)
      → (ltb (scm.clock (s.tick + 1)) deadline ≡ true
          → (b : Bool) × (o : Option Error) × ((stop_loop scm name fuel deadline (slept s)).0
              ≡ settled b o))
      → (b : Bool) × (o : Option Error) × ((stop_loop scm name (suc fuel) deadline s).0
          ≡ settled b o)
  unfolding stop_loop ask
  round_ends fuel deadline s next =
      let cerr = scm.answer s.tick control_stop in
      elim (Bool-cases (is_inactive scm name cerr)) [
        | inl off ↦ (true, none, ground (arith, off))
        | inr on ↦ elim (Bool-cases (carries_state scm name cerr)) [
          | inr refused ↦ (false, stop_error scm name cerr, ground (arith, on, refused))
          | inl told ↦ elim (Bool-cases (scm.state s.tick == stopped)) [
            | inl done ↦ (true, none, ground (arith, on, told, done))
            | inr runs ↦ elim (Bool-cases (ltb (scm.clock (s.tick + 1)) deadline)) [
              | inr late ↦ (false, none, ground (arith, on, told, runs, late))
              | inl early ↦
                  let (b, o, rest) = next early in
                  (b, o, ground (arith, on, told, runs, early, rest))
            ]
          ]
        ]
      ]

  module _ (ticks : (t : ℕ) → scm.clock t + 300 * millisecond ≤ scm.clock (t + 1 + 1)) where
    loop_ends :
        (fuel deadline : ℕ) (s : Transcript)
        → deadline ≤ scm.clock (s.tick + 1) + fuel * (300 * millisecond)
        → (b : Bool) × (o : Option Error) × ((stop_loop scm name (suc fuel) deadline s).0
            ≡ settled b o)
    unfolding ask
    loop_ends zero deadline s h =
        round_ends zero deadline s λ early. absurd (ground (arith, early, h))
    loop_ends (suc fuel) deadline s h = round_ends (suc fuel) deadline s λ early.
        let later : scm.clock (s.tick + 1) + 300 * millisecond ≤ scm.clock ((slept s).tick + 1) =
          ticks (s.tick + 1) in
        loop_ends fuel deadline (slept s) (omega (arith, h, later))

    -- Where each sleep takes at least 300 ms, stopAndWait ends after at most 68 requests.
    pub stop_and_wait_ends :
        (fuel : ℕ) (s : Transcript)
        → 68 ≤ fuel
        → scm.clock s.tick ≤ scm.clock (s.tick + 1)
        → (b : Bool) × (o : Option Error) × ((stop_and_wait scm name fuel s).0 ≡ settled b o)
    unfolding stop_and_wait
    stop_and_wait_ends zero s enough forward = absurd (omega (arith, enough))
    stop_and_wait_ends (suc fuel) s enough forward =
        loop_ends fuel (scm.clock s.tick + stop_wait) s (omega (arith, enough, forward))
