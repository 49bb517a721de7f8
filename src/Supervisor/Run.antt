-- ===== src/Supervisor/Run.antt =====
-- Supervisor.Run and updateBeforeLaunch of supervisor.go. Both loops take fuel, one unit a round.
use winsvr.Base.{
  ℕ, zero, suc, ◌+◌, ◌*◌, Bool, true, false, not, Option, none, some, [], ◌∷◌, if◌then◌else◌,
}
use winsvr.Base.Int.{ℤ, pos}
use winsvr.Base.Bytes.{text, bytes_eq}
use winsvr.Go.Error.{Error, errorf, wrap, bytes, file_path, number, flag, Result, ok, err}
use winsvr.Go.World.{Env, World, FilePath, debug, info, warn, error, arg, failure}
use winsvr.Go.Os.{ctx_err, os_stat}
use winsvr.Backoff.{sleep, grow, second}
use winsvr.Update.Config.{Updater, Codec}
use winsvr.Update.Check.{ensure_latest}
use winsvr.Supervisor.Config.{Supervisor, Session, say, bin_path, min_delay}
use winsvr.Supervisor.Round.{stop, again, round}

-- Run has returned, with an error or none, or the fuel is used up and it goes on.
pub data Outcome : Type 0 where
  running : Outcome
  returned : Option Error → Outcome

module _ (env : Env) (session : Session) (s : Supervisor) (bin : FilePath) where
  -- `for ctx.Err() == nil { … }`
  unfoldable pub run_loop : ℕ → Bool → ℤ → World → Outcome × World
  run_loop zero elevate backoff w = (running, w)
  run_loop (suc fuel) elevate backoff w =
      let (done, w0) = ctx_err env w in
      let (step, w1) = round env session s bin elevate backoff w0 in
      elim done [
        | some e ↦ (returned none, w0)
        | none ↦ elim step [
          | stop e ↦ (returned e, w1)
          | again elevate' backoff' ↦ run_loop fuel elevate' backoff' w1
        ]
      ]

  -- The payload has to be there; then the loop starts from the configured elevation.
  unfoldable pub launch_and_supervise : ℕ → World → Outcome × World
  launch_and_supervise fuel w =
      let (found, w') = os_stat env bin w in
      elim found [
        | err e ↦ (
          returned
              (some (wrap "winsvr: payload %q not found: %w" (file_path bin.dir bin.base ∷ []) e)),
          say s error "payload not found; service will exit"
              (("path", arg (file_path bin.dir bin.base)) ∷ ("err", failure e) ∷ []) w',
        )
        | ok n ↦ run_loop fuel s.launch_elevated (min_delay s) w'
      ]

module _ (env : Env) (codec : Codec) (s : Supervisor) (bin : FilePath) where
  abbrev pub updater : Updater
  updater = record { url = s.update_url; path = bin; max_bytes = pos 0; has_logger = s.has_logger }

  abbrev pub max_wait : ℤ
  max_wait = pos (60 * second)

  -- The loop of updateBeforeLaunch. Its last `return ctx.Err()` reads the context once more.
  unfoldable pub update_loop : ℕ → ℕ → ℤ → World → Outcome × World
  update_loop zero attempt wait w = (running, w)
  update_loop (suc fuel) attempt wait w =
      let (done, w0) = ctx_err env w in
      let (left, w0') = ctx_err env w0 in
      let (r, w1) = ensure_latest env codec updater (
        say s debug "checking for payload update"
          (("attempt", arg (number (pos attempt))) ∷ ("url", arg (bytes s.update_url)) ∷ []) w0) in
      let (done', w2) = ctx_err env w1 in
      elim done [
        | some e ↦ (returned left, w0')
        | none ↦ elim r [
          | ok b ↦ (returned none, w1)
          | err e ↦ elim done' [
            | some x ↦ (returned (some x), w2)
            | none ↦
                let said =
                  say s warn "update check failed; will retry"
                    (("attempt", arg (number (pos attempt)))
                      ∷ ("err", failure e)
                      ∷ ("retryIn", arg (number wait))
                      ∷ [])
                    w2 in
                let (fired, w3) = sleep env wait said in
                let (late, w4) = ctx_err env w3 in
                elim fired [
                  | true ↦ update_loop fuel (attempt + 1) (grow wait max_wait) w3
                  | false ↦ (returned late, w4)
                ]
          ]
        ]
      ]

  unfoldable pub update_before_launch : ℕ → World → Outcome × World
  update_before_launch fuel w = update_loop fuel 1 (pos (2 * second)) w

module _ (env : Env) (codec : Codec) (session : Session) (s : Supervisor) where
  -- What Run does with the end of the update.
  unfoldable pub after_update : ℕ → FilePath → Outcome → World → Outcome × World
  after_update fuel bin running w = (running, w)
  after_update fuel bin (returned none) w = launch_and_supervise env session s bin fuel w
  after_update fuel bin (returned (some e)) w =
      let (done, w') = ctx_err env w in
      elim done [
        | none ↦ (
          returned (some e),
          say s error "update check gave up; service will exit" (("err", failure e) ∷ []) w',
        )
        | some x ↦ (
          returned none,
          say s info "service stopping before first launch" (("reason", failure e) ∷ []) w',
        )
      ]

  unfoldable pub run_at : ℕ → FilePath → World → Outcome × World
  run_at fuel bin w =
      let said =
        say s info "service starting"
          (("payload", arg (file_path bin.dir bin.base))
            ∷ ("updateURL", arg (bytes s.update_url))
            ∷ ("elevated", arg (flag s.launch_elevated))
            ∷ ("autoElevate", arg (flag (not s.disable_auto_elevate)))
            ∷ ("hidden", arg (flag s.hidden))
            ∷ [])
          w in
      let (updated, w') = update_before_launch env codec s bin fuel said in
      if not (bytes_eq s.update_url (text ""))
      then after_update fuel bin updated w'
      else launch_and_supervise env session s bin fuel
          (say s info "auto-update disabled; launching existing payload" [] said)

  -- Run; `executable` is what os.Executable says.
  unfoldable pub run : ℕ → Result FilePath → World → Outcome × World
  run fuel executable w =
      let missing = errorf "winsvr: Supervisor.Bin is required" [] in
      if bytes_eq s.bin (text "")
      then (
        returned (some missing),
        say s error "cannot start service" (("err", failure missing) ∷ []) w,
      )
      else elim (bin_path s executable) [
        | err e ↦ (
          returned (some e),
          say s error "cannot resolve payload path" (("err", failure e) ∷ []) w,
        )
        | ok bin ↦ run_at fuel bin w
      ]
