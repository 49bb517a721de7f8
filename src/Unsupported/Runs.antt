-- ===== src/Unsupported/Runs.antt =====
-- Supervisor.Run (supervisor.go) on a platform that is not Windows.
use Prim.Native.String.{String}
use winsvr.Base.{
  sym, subst, false, List, ℕ, zero, suc, ◌≡◌, ◌≢◌, refl, true, Bool, Option, none, some, [], ◌∷◌,
  not, arith, Option-cases, Bool-cases, inl, inr,
}
use winsvr.Base.Int.{ℤ}
use winsvr.Base.Bytes.{text, bytes_eq, bytes_eq_iff}
use winsvr.Go.Error.{
  Error, wrap, errors_is, err_unsupported, cause_eq, bytes, file_path, flag, Result, ok,
}
use winsvr.Go.World.{
  Env, World, FilePath, Node, Op, Level, Value, debug, info, error, failure, arg, next,
}
use winsvr.Go.Files.{find}
use winsvr.Go.Os.{ctx_err, os_stat, syscall, existing, log_record}
use winsvr.Go.Steps.{along-ctx_err}
use winsvr.Go.Steps.Kinds.{launches, HasSameLaunches, launches-IsKept}
use winsvr.Update.Config.{Codec}
use winsvr.Supervisor.Config.{Supervisor, say, bin_path, min_delay}
use winsvr.Supervisor.Round.{stop, wait_failed, after_wait, round}
use winsvr.Supervisor.Run.{returned, run_loop, launch_and_supervise, run_at, run}
use winsvr.Supervisor.Updates.{along-say}
use winsvr.Supervisor.Keeps.{along-run}
use winsvr.Unsupported.{unsupported, wait_for_active_console, unsupported_session}

module _ (env : Env) (codec : Codec) (s : Supervisor) where
  abbrev cannot_wait : Error
  cannot_wait = wrap "winsvr: waiting for a user session: %w" [] unsupported

  module _ (bin : FilePath) where
    round_stops :
        (elevate : Bool) (b : ℤ) (w : World)
        → (e : Option Error) × ((round env unsupported_session s bin elevate b w).0 ≡ stop e)
          × HasSameLaunches w (round env unsupported_session s bin elevate b w).1
    unfolding round after_wait wait_failed wait_for_active_console
    round_stops elevate b w =
        let said = say s debug "waiting for an active user session" [] w in
        let w' = (ctx_err env said).1 in
        let silent = along-say env codec s bin HasSameLaunches launches-IsKept in
        let asked =
          launches-IsKept.both w said w' (silent debug "waiting for an active user session" [] w)
            (along-ctx_err HasSameLaunches launches-IsKept env said) in
        elim (Option-cases (ctx_err env said).0) [
          | inl live ↦ (
            some cannot_wait,
            ground (arith, live),
            ground (
              arith,
              live,
              asked,
              silent error "cannot wait for a user session; service will exit"
                  (("err", failure unsupported) ∷ []) w',
            ),
          )
          | inr (x, over) ↦ (
            none,
            ground (arith, over),
            ground (
              arith,
              over,
              asked,
              silent info "service stopping" (("reason", failure unsupported) ∷ []) w',
            ),
          )
        ]

    run_loop-HasSameLaunches :
        (fuel : ℕ) (elevate : Bool) (b : ℤ) (w : World)
        → HasSameLaunches w (run_loop env unsupported_session s bin fuel elevate b w).1
    unfolding run_loop
    run_loop-HasSameLaunches zero elevate b w = refl
    run_loop-HasSameLaunches (suc fuel) elevate b w =
        let asked = along-ctx_err HasSameLaunches launches-IsKept env w in
        let (e, ended, same) = round_stops elevate b (ctx_err env w).1 in
        elim (Option-cases (ctx_err env w).0) [
          | inl live ↦ ground (arith, live, ended, asked, same)
          | inr (x, over) ↦ ground (arith, over, asked)
        ]

    module _ (live : (t : ℕ) → env.ctx_err t ≡ none) where
      round_fails :
          (elevate : Bool) (b : ℤ) (w : World)
          → (round env unsupported_session s bin elevate b w).0 ≡ stop (some cannot_wait)
      unfolding round after_wait wait_failed wait_for_active_console ctx_err
      round_fails elevate b w =
          ground (arith, live (say s debug "waiting for an active user session" [] w).tick)

      run_loop_fails :
          (fuel : ℕ) (elevate : Bool) (b : ℤ) (w : World)
          → (run_loop env unsupported_session s bin (suc fuel) elevate b w).0
            ≡ returned (some cannot_wait)
      unfolding run_loop ctx_err
      run_loop_fails fuel elevate b w =
          ground (arith, live w.tick, round_fails elevate b (ctx_err env w).1)

      launch_fails :
          (fuel : ℕ) (n : Node) (w : World)
          → env.fault w.tick Op.op_stat ≡ none
          → find bin w.files ≡ some n
          → (launch_and_supervise env unsupported_session s bin (suc fuel) w).0
            ≡ returned (some cannot_wait)
      unfolding launch_and_supervise os_stat syscall existing next
      launch_fails fuel n w fine there = ground (
        arith,
        fine,
        there,
        run_loop_fails fuel s.launch_elevated (min_delay s) (os_stat env bin w).1,
      )

      files-say :
          (level : Level) (message : String) (attrs : List (String × Value)) (v : World)
          → (say s level message attrs v).files ≡ v.files
      unfolding say log_record
      files-say level message attrs v = ground arith

      run_at_fails :
          (fuel : ℕ) (n : Node) (w : World)
          → s.update_url ≡ text ""
          → ((t : ℕ) → env.fault t Op.op_stat ≡ none)
          → find bin w.files ≡ some n
          → (run_at env codec unsupported_session s (suc fuel) bin w).0
            ≡ returned (some cannot_wait)
      unfolding run_at
      run_at_fails fuel n w no_url fine there =
          let said =
            say s info "service starting"
              (("payload", arg (file_path bin.dir bin.base))
                ∷ ("updateURL", arg (bytes s.update_url))
                ∷ ("elevated", arg (flag s.launch_elevated))
                ∷ ("autoElevate", arg (flag (not s.disable_auto_elevate)))
                ∷ ("hidden", arg (flag s.hidden))
                ∷ [])
              w in
          let off = say s info "auto-update disabled; launching existing payload" [] said in
          let still : find bin off.files ≡ some n =
            rw (files-say info "auto-update disabled; launching existing payload" [] said) (
              subst (λ fs. find bin fs ≡ some n) (sym (files-say info "service starting" _ w))
                there) in
          let direct : not (bytes_eq s.update_url (text "")) ≡ false =
            rw ((bytes_eq_iff s.update_url (text "")).1 no_url) refl in
          ground (arith, direct, launch_fails fuel n off (fine off.tick) still)

  -- On a platform that is not Windows, where no update is configured, the context is live, os.Stat
  -- works, Bin is not empty, its path is found, and the payload is there, Run launches nothing and
  -- returns, with an error that is ErrUnsupported, in the first round of its loop.
  pub run_unsupported :
      ((t : ℕ) → env.ctx_err t ≡ none)
      → ((t : ℕ) → env.fault t Op.op_stat ≡ none)
      → s.update_url ≡ text ""
      → s.bin ≢ text ""
      → (fuel : ℕ) (executable : Result FilePath) (bin : FilePath) (n : Node) (w : World)
      → bin_path s executable ≡ ok bin
      → find bin w.files ≡ some n
      → let end = run env codec unsupported_session s (suc fuel) executable w in
        (launches end.1.events ≡ launches w.events)
        × ((e : Error) × (end.0 ≡ returned (some e)) × (errors_is e err_unsupported ≡ true))
  unfolding run errors_is cause_eq
  run_unsupported live fine no_url named fuel executable bin n w found there = (
    along-run HasSameLaunches launches-IsKept env unsupported_session s run_loop-HasSameLaunches
        codec (suc fuel) executable w,
    (cannot_wait, failed, refl),
  )
    where
      failed :
          (run env codec unsupported_session s (suc fuel) executable w).0
          ≡ returned (some cannot_wait)
      failed = elim (Bool-cases (bytes_eq s.bin (text ""))) [
        | inl missing ↦ absurd (named ((bytes_eq_iff s.bin (text "")).0 missing))
        | inr present ↦
            ground (arith, present, found, run_at_fails bin live fuel n w no_url fine there)
      ]
