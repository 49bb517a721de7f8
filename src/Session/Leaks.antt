-- ===== src/Session/Leaks.antt =====
-- The supervisor's loop on Windows gives back all that it takes out.
use Prim.Native.String.{String}
use winsvr.Base.{
  ℕ, zero, suc, ◌*◌, ◌≡◌, ◌≢◌, refl, ap, Bool, List, [], ◌∷◌, arith, Option-cases, inl, inr,
}
use winsvr.Base.Int.{ℤ, pos}
use winsvr.Base.Bytes.{text}
use winsvr.Go.Error.{Error, Result, ok, err, number, file_path}
use winsvr.Go.World.{
  Env, World, FilePath, Level, Value, next, closed, launched, slept, info, debug, arg,
}
use winsvr.Go.Os.{ctx_err, wait_timer, emit, now, log_record}
use winsvr.Backoff.{sleep, grow, second}
use winsvr.Supervisor.Config.{
  Supervisor, LaunchOptions, Process, Session, say, min_delay, max_delay,
}
use winsvr.Supervisor.Round.{
  pause, wait_failed, launch_failed, payload_ended, log_ended, after_run, payload_running,
  after_launch, launch, after_wait, round,
}
use winsvr.Supervisor.Rounds.{Step-cases}
use winsvr.Supervisor.Run.{run_loop}
use winsvr.Session.Launch.Accounts.{handles}
use winsvr.Session.Handles.{Keeps, owned, Trades, Trades-next, Trades-emit, is_quiet}

abbrev pub IsOpen : Process → Type 0
IsOpen p = (p.handle ≢ 0) × (p.job ≢ 0)

-- The calls into the session give back what they take out: all of it, but for the two handles of a
-- process that was launched, which are not 0 and which Close gives back.
pub record IsTidy (session : Session) : Type 0 where
  pub tidy_console : (d : ℤ) (w : World) → Trades [] [] w (session.wait_for_active_console d w).1
  pub tidy_launch :
      (sid : ℕ) (o : LaunchOptions) → Keeps [] handles (session.launch_in_session sid o)
  pub launch_IsOpen :
      (sid : ℕ) (o : LaunchOptions) (w w' : World) (p : Process)
      → session.launch_in_session sid o w ≡ (ok p, w')
      → IsOpen p
  pub tidy_wait : (p : Process) (w : World) → Trades [] [] w (session.wait p w).1
  pub tidy_close :
      (p : Process) (w : World) → IsOpen p → Trades (handles p) [] w (session.close p w)

module _ (env : Env) (session : Session) (s : Supervisor) (bin : FilePath) where
  quiet-say :
      (level : Level) (message : String) (attrs : List (String × Value)) (w : World)
      → Trades [] [] w (say s level message attrs w)
  unfolding say log_record
  quiet-say level message attrs w h = ground arith

  quiet-pause :
      (d : ℤ) (elevate : Bool) (b : ℤ) (w : World)
      → Trades [] [] w (pause env session s bin d elevate b w).1
  unfolding pause sleep wait_timer is_quiet
  quiet-pause d elevate b w h =
      ground (arith, Trades-next (emit (slept d) w) h, Trades-emit (slept d) w refl h)

  quiet-ctx_err : (w : World) → Trades [] [] w (ctx_err env w).1
  unfolding ctx_err
  quiet-ctx_err w = Trades-next w

  quiet-now : (w : World) → Trades [] [] w (now env w).1
  unfolding now
  quiet-now w = Trades-next w

  quiet-wait_failed : (e : Error) (w : World) → Trades [] [] w (wait_failed env session s bin e w).1
  unfolding wait_failed say log_record
  quiet-wait_failed e w h = ground (arith, quiet-ctx_err w h)

  quiet-launch_failed :
      (sid : ℕ) (elevate : Bool) (b : ℤ) (e : Error) (w : World)
      → Trades [] [] w (launch_failed env session s bin sid elevate b e w).1
  unfolding launch_failed pause sleep wait_timer next emit say log_record is_quiet
  quiet-launch_failed sid elevate b e w h =
      ground (arith, Trades-emit (slept (min_delay s)) w refl h, Trades-emit (slept b) w refl h)

  quiet-log_ended :
      (proc : Process) (code : Result ℕ) (b : ℤ) (w : World)
      → Trades [] [] w (log_ended env session s bin proc code b w)
  unfolding log_ended
  quiet-log_ended proc (err e) b w = quiet-say _ _ _ w
  quiet-log_ended proc (ok code) b w = quiet-say _ _ _ w

  module _ (tidy : IsTidy session) where
    tidy-payload_ended :
        (proc : Process) (started : ℕ) (elevate : Bool) (b : ℤ) (code : Result ℕ) (w : World)
        → IsOpen proc
        → Trades
            (handles proc)
            []
            w
            (payload_ended env session s bin proc started elevate b code w).1
    unfolding payload_ended is_quiet
    tidy-payload_ended proc started elevate b code w open_ h =
        let w0 = emit (closed proc.pid) w in
        let w1 = session.close proc w0 in
        let w2 = (ctx_err env w1).1 in
        let w3 = (now env w2).1 in
        let delay = after_run env session s bin started (now env w2).0 b in
        let w4 = log_ended env session s bin proc code delay w3 in
        ground (
          arith,
          Trades-emit (closed proc.pid) w refl h,
          tidy.tidy_close proc w0 open_ h,
          quiet-ctx_err w1 h,
          quiet-now w2 h,
          quiet-say info "service stopping; payload terminated"
              (("pid", arg (number (pos proc.pid))) ∷ []) w2 h,
          quiet-log_ended proc code delay w3 h,
          quiet-pause delay elevate (grow delay (max_delay s)) w4 h,
        )

    tidy-after_launch :
        (sid : ℕ) (elevate : Bool) (b : ℤ) (r : Result Process) (w : World)
        → ((p : Process) → r ≡ ok p → IsOpen p)
        → Trades (owned handles r) [] w (after_launch env session s bin sid elevate b r w).1
    unfolding after_launch payload_running
    tidy-after_launch sid elevate b (err e) w opened h = quiet-launch_failed sid elevate b e w h
    tidy-after_launch sid elevate b (ok p) w opened h =
        let attrs : List (String × Value) =
          ("pid", arg (number (pos p.pid))) ∷ ("session", arg (number (pos sid))) ∷ [] in
        let said = say s info "payload running" attrs w in
        let w1 = (now env said).1 in
        omega (
          arith,
          quiet-say info "payload running" attrs w h,
          quiet-now said h,
          tidy.tidy_wait p w1 h,
          tidy-payload_ended p (now env said).0 elevate b (session.wait p w1).0
              (session.wait p w1).1 (opened p refl) h,
        )

    tidy-after_wait :
        (elevate : Bool) (b : ℤ) (r : Result ℕ) (w : World)
        → Trades [] [] w (after_wait env session s bin elevate b r w).1
    unfolding after_wait launch is_quiet
    tidy-after_wait elevate b (err e) w h = quiet-wait_failed e w h
    tidy-after_wait elevate b (ok sid) w h =
        let attrs : List (String × Value) =
          ("session", arg (number (pos sid))) ∷ ("path", arg (file_path bin.dir bin.base)) ∷ [] in
        let said = say s info "launching payload" attrs w in
        let w1 = emit (launched sid elevate) said in
        let o : LaunchOptions = record {
          path = bin;
          args = [];
          dir = text "";
          elevated = elevate;
          hidden = s.hidden;
        } in
        omega (
          arith,
          quiet-say info "launching payload" attrs w h,
          Trades-emit (launched sid elevate) said refl h,
          tidy.tidy_launch sid o w1 h,
          tidy-after_launch sid elevate b (session.launch_in_session sid o w1).0
              (session.launch_in_session sid o w1).1
              (λ p e.
                tidy.launch_IsOpen sid o w1 (session.launch_in_session sid o w1).1 p
                  (ap (λ r. (r, (session.launch_in_session sid o w1).1)) e))
              h,
        )

    tidy-round :
        (elevate : Bool) (b : ℤ) (w : World)
        → Trades [] [] w (round env session s bin elevate b w).1
    unfolding round
    tidy-round elevate b w h =
        let said = say s debug "waiting for an active user session" [] w in
        let d = pos (2 * second) in
        omega (
          arith,
          quiet-say debug "waiting for an active user session" [] w h,
          tidy.tidy_console d said h,
          tidy-after_wait elevate b (session.wait_for_active_console d said).0
              (session.wait_for_active_console d said).1 h,
        )

    -- With a tidy session, the supervisor's loop has given back, whenever it stands between two rounds
    -- and when it returns, all that it took out since it started.
    pub run_loop-Trades :
        (fuel : ℕ) (elevate : Bool) (b : ℤ) (w : World)
        → Trades [] [] w (run_loop env session s bin fuel elevate b w).1
    unfolding run_loop
    run_loop-Trades zero elevate b w h = refl
    run_loop-Trades (suc fuel) elevate b w h =
        let w0 = (ctx_err env w).1 in
        elim (Option-cases (ctx_err env w).0) [
          | inr (e, over) ↦ ground (arith, over, quiet-ctx_err w h)
          | inl live ↦ elim (Step-cases (round env session s bin elevate b w0).0) [
            | inl (x, ended) ↦
                ground (arith, live, ended, quiet-ctx_err w h, tidy-round elevate b w0 h)
            | inr (elevate', b', on) ↦ ground (
              arith,
              live,
              on,
              quiet-ctx_err w h,
              tidy-round elevate b w0 h,
              run_loop-Trades fuel elevate' b' (round env session s bin elevate b w0).1 h,
            )
          ]
        ]
