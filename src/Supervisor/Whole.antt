-- ===== src/Supervisor/Whole.antt =====
-- Run of supervisor.go as a whole ends once the service is stopped.
use Prim.Native.String.{String}
use native.Mathlib.Decide.{dec_lt}
use winsvr.Base.{
  ℕ, zero, suc, ◌+◌, ◌≤◌, ◌<◌, ◌≡◌, ◌*◌, inl, inr, not, Option, none, some, List, [], ◌∷◌, arith,
  Option-cases, Bool-cases,
}
use winsvr.Base.Int.{ℤ, pos}
use winsvr.Base.Bytes.{text, bytes_eq}
use winsvr.Go.Error.{Error, Result, wrap, errorf, file_path, number, bytes, flag}
use winsvr.Go.World.{Env, World, FilePath, Level, Value, next, debug, info, warn, arg, failure}
use winsvr.Go.Os.{ctx_err, os_stat, wait_timer, emit, log_record}
use winsvr.Go.Effects.{Result-cases}
use winsvr.Backoff.{sleep, grow, second}
use winsvr.Update.Config.{Codec}
use winsvr.Update.Check.{ensure_latest}
use winsvr.Update.Steps.Checks.{Along-ensure_latest}
use winsvr.Go.Steps.Kinds.{tick-IsKept, IsForwardStep}
use winsvr.Supervisor.Config.{Supervisor, Session, say, min_delay, bin_path}
use winsvr.Supervisor.Run.{
  Outcome, returned, launch_and_supervise, updater, update_loop, max_wait, update_before_launch,
  after_update, run_at, run,
}
use winsvr.Supervisor.Ends.{IsForward, run_loop_ends}

module _ (env : Env) (codec : Codec) (session : Session) (s : Supervisor) (stopped : ℕ)
    (done : (t : ℕ) → stopped ≤ t → (e : Error) × (env.ctx_err t ≡ some e)) where
  live-before : (t : ℕ) → env.ctx_err t ≡ none → t < stopped
  live-before t live = elim (dec_lt t stopped) [
    | yes before ↦ before
    | no late ↦ let (e, over) = done t (omega arith) in absurd (cc)
  ]

  tick-say :
      (level : Level) (message : String) (attrs : List (String × Value)) (w : World)
      → (say s level message attrs w).tick ≡ w.tick
  unfolding say log_record
  tick-say level message attrs w = ground arith

  forward-sleep : (d : ℤ) (w : World) → w.tick ≤ (sleep env d w).1.tick
  unfolding sleep wait_timer next emit
  forward-sleep d w = ground arith

  abbrev Returns : Outcome × World → Type 0
  Returns x = (r : Option Error) × (x.0 ≡ returned r)

  update_loop_ends :
      (bin : FilePath) (fuel attempt : ℕ) (wait : ℤ) (w : World)
      → 0 < fuel
      → stopped < fuel + w.tick
      → Returns (update_loop env codec s bin fuel attempt wait w)
  unfolding update_loop ctx_err next
  update_loop_ends bin zero attempt wait w positive h = absurd (omega arith)
  update_loop_ends bin (suc fuel) attempt wait w positive h =
      elim (Option-cases (env.ctx_err w.tick)) [
        | inr (e, over) ↦ (env.ctx_err (w.tick + 1), ground (arith, over))
        | inl live ↦
            let before = live-before w.tick live in
            let w0 =
              say s debug "checking for payload update"
                (("attempt", arg (number (pos attempt))) ∷ ("url", arg (bytes s.update_url)) ∷ [])
                (next w) in
            let r = (ensure_latest env codec (updater env codec s bin) w0).0 in
            let w1 = (ensure_latest env codec (updater env codec s bin) w0).1 in
            elim (Result-cases r) [
              | inr (b, fine) ↦ (none, ground (arith, live, fine))
              | inl (e, bad) ↦ elim (Option-cases (env.ctx_err w1.tick)) [
                | inr (x, over) ↦ (some x, ground (arith, live, bad, over))
                | inl on ↦
                    let w2 =
                      say s warn "update check failed; will retry"
                        (("attempt", arg (number (pos attempt)))
                          ∷ ("err", failure e)
                          ∷ ("retryIn", arg (number wait))
                          ∷ [])
                        (next w1) in
                    let w3 = (sleep env wait w2).1 in
                    let ticks : w.tick < w3.tick = omega (
                      arith,
                      tick-say debug "checking for payload update"
                          (("attempt", arg (number (pos attempt)))
                            ∷ ("url", arg (bytes s.update_url))
                            ∷ [])
                          (next w),
                      Along-ensure_latest IsForwardStep tick-IsKept env codec
                          (updater env codec s bin) w0,
                      tick-say warn "update check failed; will retry"
                          (("attempt", arg (number (pos attempt)))
                            ∷ ("err", failure e)
                            ∷ ("retryIn", arg (number wait))
                            ∷ [])
                          (next w1),
                      forward-sleep wait w2,
                    ) in
                    elim (Bool-cases (sleep env wait w2).0) [
                      | inl fired ↦
                          let (x, e') =
                            update_loop_ends bin fuel (attempt + 1)
                              (grow wait (max_wait env codec s bin)) w3 (omega (arith, before))
                              (omega (arith, ticks)) in
                          (x, ground (arith, live, bad, on, fired, e'))
                      | inr lost ↦ (env.ctx_err w3.tick, ground (arith, live, bad, on, lost))
                    ]
              ]
            ]
      ]

  module _ (forward : IsForward session) (fuel : ℕ) (enough : stopped < fuel) where
    launch_ends :
        (bin : FilePath) (w : World) → Returns (launch_and_supervise env session s bin fuel w)
    unfolding launch_and_supervise
    launch_ends bin w = elim (Result-cases (os_stat env bin w).0) [
      | inl (e, bad) ↦ (
        some (wrap "winsvr: payload %q not found: %w" (file_path bin.dir bin.base ∷ []) e),
        ground (arith, bad),
      )
      | inr (n, found) ↦
          let w' = (os_stat env bin w).1 in
          let (r, e) =
            run_loop_ends env session s bin forward stopped done fuel s.launch_elevated
              (min_delay s) w' (omega (arith, enough)) (omega (arith, enough)) in
          (r, ground (arith, found, e))
    ]

    after_update_ends :
        (bin : FilePath) (r : Option Error) (w : World)
        → Returns (after_update env codec session s fuel bin (returned r) w)
    unfolding after_update ctx_err
    after_update_ends bin none w = launch_ends bin w
    after_update_ends bin (some e) w = elim (Option-cases (env.ctx_err w.tick)) [
      | inl live ↦ (some e, ground (arith, live))
      | inr (x, over) ↦ (none, ground (arith, over))
    ]

    run_at_ends : (bin : FilePath) (w : World) → Returns (run_at env codec session s fuel bin w)
    unfolding run_at update_before_launch
    run_at_ends bin w =
        let said =
          say s info "service starting"
            (("payload", arg (file_path bin.dir bin.base))
              ∷ ("updateURL", arg (bytes s.update_url))
              ∷ ("elevated", arg (flag s.launch_elevated))
              ∷ ("autoElevate", arg (flag (not s.disable_auto_elevate)))
              ∷ ("hidden", arg (flag s.hidden))
              ∷ [])
            w in
        let updated = update_before_launch env codec s bin fuel said in
        elim (Bool-cases (bytes_eq s.update_url (text ""))) [
          | inl no_url ↦
              let (r, e) =
                launch_ends bin
                  (say s info "auto-update disabled; launching existing payload" [] said) in
              (r, ground (arith, no_url, e))
          | inr has_url ↦
              let (r, e) =
                update_loop_ends bin fuel 1 (pos (2 * second)) said (omega (arith, enough))
                  (omega (arith, enough)) in
              let (r', e') = after_update_ends bin r updated.1 in
              (r', ground (arith, has_url, e, e'))
        ]

    -- If no call into the session turns the tick back and the context is done from the tick `stopped`
    -- on, then with fuel that exceeds `stopped` the whole of Run returns, with an error or none: the
    -- update before the launch, however often it fails, and the supervision after it.
    pub run_ends :
        (executable : Result FilePath) (w : World)
        → (r : Option Error) × ((run env codec session s fuel executable w).0 ≡ returned r)
    unfolding run
    run_ends executable w = elim (Bool-cases (bytes_eq s.bin (text ""))) [
      | inl missing ↦
          (some (errorf "winsvr: Supervisor.Bin is required" []), ground (arith, missing))
      | inr named ↦ elim (Result-cases (bin_path s executable)) [
        | inl (e, bad) ↦ (some e, ground (arith, named, bad))
        | inr (bin, found) ↦ let (r, e) = run_at_ends bin w in (r, ground (arith, named, found, e))
      ]
    ]
