-- ===== src/Supervisor/Ends.antt =====
-- Supervisor.Run's loop ends once the service is stopped (supervisor.go).
use Prim.Native.String.{String}
use native.Mathlib.Decide.{dec_lt}
use winsvr.Base.{
  ℕ, zero, suc, ◌+◌, ◌≤◌, ◌<◌, ◌≡◌, inl, inr, Bool, Option, none, some, List, [], ◌∷◌, ◌*◌, arith,
  Option-cases,
}
use winsvr.Base.Int.{ℤ, pos}
use winsvr.Base.Bytes.{text}
use winsvr.Go.Error.{Error, Result, ok, err, number, file_path}
use winsvr.Go.World.{Env, World, FilePath, Level, Value, next, closed, launched, info, debug, arg}
use winsvr.Go.Os.{ctx_err, wait_timer, emit, now, log_record}
use winsvr.Backoff.{sleep, grow, second}
use winsvr.Supervisor.Config.{Supervisor, LaunchOptions, Process, Session, say, max_delay}
use winsvr.Supervisor.Round.{
  pause, wait_failed, launch_failed, payload_ended, log_ended, after_run, payload_running,
  after_launch, launch, after_wait, round,
}
use winsvr.Supervisor.Run.{returned, run_loop}
use winsvr.Supervisor.Rounds.{Step-cases}

-- Time does not run backwards in a call into the session.
pub record IsForward (session : Session) : Type 0 where
  pub forward_console : (d : ℤ) (w : World) → w.tick ≤ (session.wait_for_active_console d w).1.tick
  pub forward_launch :
      (sid : ℕ) (o : LaunchOptions) (w : World)
      → w.tick ≤ (session.launch_in_session sid o w).1.tick
  pub forward_wait : (p : Process) (w : World) → w.tick ≤ (session.wait p w).1.tick
  pub forward_close : (p : Process) (w : World) → w.tick ≤ (session.close p w).tick

module _ (env : Env) (session : Session) (s : Supervisor) (bin : FilePath)
    (f : IsForward session) where
  tick-say :
      (level : Level) (message : String) (attrs : List (String × Value)) (w : World)
      → (say s level message attrs w).tick ≡ w.tick
  unfolding say log_record
  tick-say level message attrs w = ground arith

  forward-pause :
      (d : ℤ) (elevate : Bool) (b : ℤ) (w : World)
      → w.tick ≤ (pause env session s bin d elevate b w).1.tick
  unfolding pause sleep wait_timer next emit
  forward-pause d elevate b w = ground arith

  forward-wait_failed :
      (e : Error) (w : World) → w.tick ≤ (wait_failed env session s bin e w).1.tick
  unfolding wait_failed ctx_err next say log_record
  forward-wait_failed e w = ground arith

  forward-launch_failed :
      (sid : ℕ) (elevate : Bool) (b : ℤ) (e : Error) (w : World)
      → w.tick ≤ (launch_failed env session s bin sid elevate b e w).1.tick
  unfolding launch_failed pause sleep wait_timer next emit say log_record
  forward-launch_failed sid elevate b e w = ground arith

  tick-log_ended :
      (proc : Process) (code : Result ℕ) (b : ℤ) (w : World)
      → (log_ended env session s bin proc code b w).tick ≡ w.tick
  unfolding log_ended say log_record
  tick-log_ended proc code b w = ground arith

  forward-payload_ended :
      (proc : Process) (started : ℕ) (elevate : Bool) (b : ℤ) (code : Result ℕ) (w : World)
      → w.tick ≤ (payload_ended env session s bin proc started elevate b code w).1.tick
  unfolding payload_ended ctx_err now next emit
  forward-payload_ended proc started elevate b code w =
      let w1 = session.close proc (emit (closed proc.pid) w) in
      let w3 = (now env (ctx_err env w1).1).1 in
      let delay = after_run env session s bin started (env.now (w1.tick + 1)) b in
      ground (
        arith,
        f.forward_close proc (emit (closed proc.pid) w),
        tick-say info "service stopping; payload terminated"
            (("pid", arg (number (pos proc.pid))) ∷ []) (ctx_err env w1).1,
        tick-log_ended proc code delay w3,
        forward-pause delay elevate (grow delay (max_delay s))
            (log_ended env session s bin proc code delay w3),
      )

  forward-after_launch :
      (sid : ℕ) (elevate : Bool) (b : ℤ) (r : Result Process) (w : World)
      → w.tick ≤ (after_launch env session s bin sid elevate b r w).1.tick
  unfolding after_launch payload_running now next
  forward-after_launch sid elevate b (err e) w = forward-launch_failed sid elevate b e w
  forward-after_launch sid elevate b (ok p) w =
      let attrs : List (String × Value) =
        ("pid", arg (number (pos p.pid))) ∷ ("session", arg (number (pos sid))) ∷ [] in
      let said = say s info "payload running" attrs w in
      let w1 = (now env said).1 in
      omega (
        arith,
        tick-say info "payload running" attrs w,
        f.forward_wait p w1,
        forward-payload_ended p (env.now said.tick) elevate b (session.wait p w1).0
            (session.wait p w1).1,
      )

  forward-after_wait :
      (elevate : Bool) (b : ℤ) (r : Result ℕ) (w : World)
      → w.tick ≤ (after_wait env session s bin elevate b r w).1.tick
  unfolding after_wait launch emit
  forward-after_wait elevate b (err e) w = forward-wait_failed e w
  forward-after_wait elevate b (ok sid) w =
      let said = emit (launched sid elevate) (
        say s info "launching payload"
          (("session", arg (number (pos sid))) ∷ ("path", arg (file_path bin.dir bin.base)) ∷ [])
          w) in
      let o : LaunchOptions = record {
        path = bin;
        args = [];
        dir = text "";
        elevated = elevate;
        hidden = s.hidden;
      } in
      omega (
        arith,
        tick-say info "launching payload"
            (("session", arg (number (pos sid))) ∷ ("path", arg (file_path bin.dir bin.base)) ∷ [])
            w,
        f.forward_launch sid o said,
        forward-after_launch sid elevate b (session.launch_in_session sid o said).0
            (session.launch_in_session sid o said).1,
      )

  pub forward-round :
      (elevate : Bool) (b : ℤ) (w : World) → w.tick ≤ (round env session s bin elevate b w).1.tick
  unfolding round
  forward-round elevate b w =
      let said = say s debug "waiting for an active user session" [] w in
      omega (
        arith,
        tick-say debug "waiting for an active user session" [] w,
        f.forward_console (pos (2 * second)) said,
        forward-after_wait elevate b (session.wait_for_active_console (pos (2 * second)) said).0
            (session.wait_for_active_console (pos (2 * second)) said).1,
      )

  module _ (stopped : ℕ)
      (done : (t : ℕ) → stopped ≤ t → (e : Error) × (env.ctx_err t ≡ some e)) where
    live-before : (t : ℕ) → env.ctx_err t ≡ none → t < stopped
    live-before t live = elim (dec_lt t stopped) [
      | yes before ↦ before
      | no late ↦ let (e, over) = done t (omega arith) in absurd (cc)
    ]

    -- If no call into the session turns the tick back and the context is done from the tick `stopped`
    -- on, the loop returns with any fuel, more than 0, that exceeds the ticks left until then.
    pub run_loop_ends :
        (fuel : ℕ) (elevate : Bool) (b : ℤ) (w : World)
        → 0 < fuel
        → stopped < fuel + w.tick
        → (r : Option Error) × ((run_loop env session s bin fuel elevate b w).0 ≡ returned r)
    unfolding run_loop ctx_err next
    run_loop_ends zero elevate b w positive h = absurd (omega arith)
    run_loop_ends (suc fuel) elevate b w positive h = elim (Option-cases (env.ctx_err w.tick)) [
      | inr (e, over) ↦ (none, ground (arith, over))
      | inl live ↦
          let before = live-before w.tick live in
          elim (Step-cases (round env session s bin elevate b (ctx_err env w).1).0) [
            | inl (x, ended) ↦ (x, ground (arith, live, ended))
            | inr (elevate', b', on) ↦
                let (x, rest) =
                  run_loop_ends fuel elevate' b'
                    (round env session s bin elevate b (ctx_err env w).1).1 (omega arith)
                    (omega (arith, forward-round elevate b (ctx_err env w).1)) in
                (x, ground (arith, live, on, rest))
          ]
    ]
