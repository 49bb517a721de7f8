-- ===== src/Supervisor/Round.antt =====
-- One round of the loop in Supervisor.Run of supervisor.go: wait for a user, launch the payload, wait
-- for it to end, and pause.
use winsvr.Base.{ℕ, ◌+◌, ◌*◌, Bool, true, Option, none, some, [], ◌∷◌, leb, if◌then◌else◌}
use winsvr.Base.Int.{ℤ, pos}
use winsvr.Base.Bytes.{text}
use winsvr.Go.Error.{
  Error, wrap, word, file_path, number, errors_is, err_no_elevated_token, err_elevation_required,
  err_no_user_session, Result, ok, err,
}
use winsvr.Go.World.{Env, World, FilePath, debug, info, warn, error, arg, failure, launched, closed}
use winsvr.Go.Os.{ctx_err, now, emit}
use winsvr.Backoff.{sleep, grow, second, healthy_after}
use winsvr.Elevation.{should_auto_elevate}
use winsvr.Supervisor.Config.{Supervisor, Process, Session, say, min_delay, max_delay}

-- How a round ends: Run returns, with an error or none, or the next round has this elevation and
-- this backoff.
pub data Step : Type 0 where
  stop : Option Error → Step
  again : Bool → ℤ → Step

module _ (env : Env) (session : Session) (s : Supervisor) (bin : FilePath) where
  -- `if !sleep(ctx, d) { return nil }`, then the next round.
  unfoldable pub pause : ℤ → Bool → ℤ → World → Step × World
  pause d elevate backoff w =
      let (fired, w') = sleep env d w in (if fired then again elevate backoff else stop none, w')

  -- The wait for a user failed.
  unfoldable pub wait_failed : Error → World → Step × World
  wait_failed e w =
      let (done, w') = ctx_err env w in
      elim done [
        | none ↦ (
          stop (some (wrap "winsvr: waiting for a user session: %w" [] e)),
          say s error "cannot wait for a user session; service will exit" (("err", failure e) ∷ [])
              w',
        )
        | some x ↦ (stop none, say s info "service stopping" (("reason", failure e) ∷ []) w')
      ]

  unfoldable pub launch_failed : ℕ → Bool → ℤ → Error → World → Step × World
  launch_failed sid elevate backoff e w =
      if errors_is e err_no_elevated_token
      then (
        stop (some e),
        say s error "cannot launch elevated; service will exit"
            (("session", arg (number (pos sid))) ∷ ("err", failure e) ∷ []) w,
      )
      else if should_auto_elevate e elevate s.disable_auto_elevate
      then (
        again true backoff,
        say s warn "the payload's manifest requires administrator; launching it elevated"
            (("path", arg (file_path bin.dir bin.base))
              ∷ (
                "note",
                arg (
                    word
                      "set LaunchElevated to make this explicit, or DisableAutoElevate to refuse it"),
              )
              ∷ [])
            w,
      )
      else if errors_is e err_elevation_required
      then (
        stop (some e),
        say s error
            "the payload requires administrator and will not be launched elevated; service will exit"
            (("path", arg (file_path bin.dir bin.base)) ∷ ("err", failure e) ∷ []) w,
      )
      else if errors_is e err_no_user_session
      then pause (min_delay s) elevate backoff (
          say s info "no interactive user yet; waiting for sign-in"
            (("session", arg (number (pos sid))) ∷ []) w)
      else pause backoff elevate (grow backoff (max_delay s)) (
          say s error "launch failed; will retry"
            (("err", failure e) ∷ ("backoff", arg (number backoff)) ∷ []) w)

  -- The backoff after a run from `started` to `ended`: a healthy run resets it.
  unfoldable pub after_run : ℕ → ℕ → ℤ → ℤ
  after_run started ended backoff =
      if leb (started + healthy_after) ended then min_delay s else backoff

  unfoldable pub log_ended : Process → Result ℕ → ℤ → World → World
  log_ended proc (err e) backoff w =
      say s warn "payload wait error; will restart"
        (("pid", arg (number (pos proc.pid)))
          ∷ ("err", failure e)
          ∷ ("backoff", arg (number backoff))
          ∷ [])
        w
  log_ended proc (ok code) backoff w =
      say s warn "payload exited; will restart"
        (("pid", arg (number (pos proc.pid)))
          ∷ ("code", arg (number (pos code)))
          ∷ ("backoff", arg (number backoff))
          ∷ [])
        w

  -- The payload has ended, or the service is stopping: its process tree is closed either way.
  unfoldable pub payload_ended : Process → ℕ → Bool → ℤ → Result ℕ → World → Step × World
  payload_ended proc started elevate backoff code w =
      let w1 = session.close proc (emit (closed proc.pid) w) in
      let (done, w2) = ctx_err env w1 in
      let (ended, w3) = now env w2 in
      let delay = after_run started ended backoff in
      elim done [
        | some x ↦ (
          stop none,
          say s info "service stopping; payload terminated"
              (("pid", arg (number (pos proc.pid))) ∷ []) w2,
        )
        | none ↦ pause delay elevate (grow delay (max_delay s)) (log_ended proc code delay w3)
      ]

  unfoldable pub payload_running : ℕ → Process → Bool → ℤ → World → Step × World
  payload_running sid proc elevate backoff w =
      let said =
        say s info "payload running"
          (("pid", arg (number (pos proc.pid))) ∷ ("session", arg (number (pos sid))) ∷ []) w in
      let (started, w1) = now env said in
      let (code, w2) = session.wait proc w1 in payload_ended proc started elevate backoff code w2

  unfoldable pub after_launch : ℕ → Bool → ℤ → Result Process → World → Step × World
  after_launch sid elevate backoff (err e) w = launch_failed sid elevate backoff e w
  after_launch sid elevate backoff (ok proc) w = payload_running sid proc elevate backoff w

  unfoldable pub launch : ℕ → Bool → ℤ → World → Step × World
  launch sid elevate backoff w =
      let said =
        say s info "launching payload"
          (("session", arg (number (pos sid))) ∷ ("path", arg (file_path bin.dir bin.base)) ∷ [])
          w in
      let (proc, w') =
        session.launch_in_session sid
          (record { path = bin; args = []; dir = text ""; elevated = elevate; hidden = s.hidden })
          (emit (launched sid elevate) said) in
      after_launch sid elevate backoff proc w'

  unfoldable pub after_wait : Bool → ℤ → Result ℕ → World → Step × World
  after_wait elevate backoff (err e) w = wait_failed e w
  after_wait elevate backoff (ok sid) w = launch sid elevate backoff w

  unfoldable pub round : Bool → ℤ → World → Step × World
  round elevate backoff w =
      let (sid, w') =
        session.wait_for_active_console (pos (2 * second))
          (say s debug "waiting for an active user session" [] w) in
      after_wait elevate backoff sid w'
