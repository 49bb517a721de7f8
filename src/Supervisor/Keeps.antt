-- ===== src/Supervisor/Keeps.antt =====
-- The whole of Supervisor.Run (supervisor.go) as steps: what every step of an update keeps, and the
-- supervising loop keeps too, is kept by Run.
use winsvr.Base.{ℕ, ◌*◌, Bool, not, none, some, [], ◌∷◌, arith, Option-cases, Bool-cases, inl, inr}
use winsvr.Base.Int.{ℤ, pos}
use winsvr.Base.Bytes.{text, bytes_eq}
use winsvr.Go.Error.{bytes, errorf, file_path, flag, Result}
use winsvr.Go.World.{Env, World, FilePath, info, error, arg, failure}
use winsvr.Go.Effects.{Result-cases}
use winsvr.Go.Os.{ctx_err, os_stat}
use winsvr.Go.Steps.{IsKept, along-ctx_err, Along-os_stat}
use winsvr.Backoff.{second}
use winsvr.Update.Config.{Codec}
use winsvr.Supervisor.Config.{Supervisor, Session, say, bin_path, min_delay}
use winsvr.Supervisor.Run.{
  Outcome, running, returned, update_loop, update_before_launch, run_loop, launch_and_supervise,
  after_update, run_at, run,
}
use winsvr.Supervisor.Updates.{along-say, along-update_loop}

module _ (R : World → World → Type 0) (k : IsKept R) (env : Env) (session : Session)
    (s : Supervisor)
    (along-run_loop : (bin : FilePath) (fuel : ℕ) (elevate : Bool) (b : ℤ) (w : World)
      → R w (run_loop env session s bin fuel elevate b w).1)
    (codec : Codec) (fuel : ℕ) where
  along-launch_and_supervise :
      (bin : FilePath) (w : World) → R w (launch_and_supervise env session s bin fuel w).1
  unfolding launch_and_supervise
  along-launch_and_supervise bin w =
      let w' = (os_stat env bin w).1 in
      let found = Along-os_stat R k env bin w in
      elim (Result-cases (os_stat env bin w).0) [
        | inl (e, bad) ↦ ground (
          arith,
          bad,
          k.both w w' _ found (
              along-say env codec s bin R k error "payload not found; service will exit"
                (("path", arg (file_path bin.dir bin.base)) ∷ ("err", failure e) ∷ []) w'),
        )
        | inr (n, there) ↦ ground (
          arith,
          there,
          k.both w w' _ found (along-run_loop bin fuel s.launch_elevated (min_delay s) w'),
        )
      ]

  along-after_update :
      (bin : FilePath) (o : Outcome) (w : World)
      → R w (after_update env codec session s fuel bin o w).1
  unfolding after_update
  along-after_update bin running w = k.same w
  along-after_update bin (returned none) w = along-launch_and_supervise bin w
  along-after_update bin (returned (some e)) w =
      let w' = (ctx_err env w).1 in
      let asked = along-ctx_err R k env w in
      let silent = along-say env codec s bin R k in
      elim (Option-cases (ctx_err env w).0) [
        | inl live ↦ ground (
          arith,
          live,
          k.both w w' _ asked
              (silent error "update check gave up; service will exit" (("err", failure e) ∷ []) w'),
        )
        | inr (x, over) ↦ ground (
          arith,
          over,
          k.both w w' _ asked
              (silent info "service stopping before first launch" (("reason", failure e) ∷ []) w'),
        )
      ]

  along-run_at : (bin : FilePath) (w : World) → R w (run_at env codec session s fuel bin w).1
  unfolding run_at update_before_launch
  along-run_at bin w =
      let silent = along-say env codec s bin R k in
      let said =
        say s info "service starting"
          (("payload", arg (file_path bin.dir bin.base))
            ∷ ("updateURL", arg (bytes s.update_url))
            ∷ ("elevated", arg (flag s.launch_elevated))
            ∷ ("autoElevate", arg (flag (not s.disable_auto_elevate)))
            ∷ ("hidden", arg (flag s.hidden))
            ∷ [])
          w in
      let begun : R w said = silent info "service starting" _ w in
      let ended = update_loop env codec s bin fuel 1 (pos (2 * second)) said in
      let off = say s info "auto-update disabled; launching existing payload" [] said in
      elim (Bool-cases (not (bytes_eq s.update_url (text "")))) [
        | inl updates ↦ ground (
          arith,
          updates,
          k.both w ended.1 _
              (k.both w said ended.1 begun
                (along-update_loop env codec s bin R k fuel 1 (pos (2 * second)) said))
              (along-after_update bin ended.0 ended.1),
        )
        | inr disabled ↦ ground (
          arith,
          disabled,
          k.both w off _
              (k.both w said off begun
                (silent info "auto-update disabled; launching existing payload" [] said))
              (along-launch_and_supervise bin off),
        )
      ]

  -- What every step of an update keeps, and the supervising loop keeps, is kept by Run.
  pub along-run :
      (executable : Result FilePath) (w : World) → R w (run env codec session s fuel executable w).1
  unfolding run
  along-run executable w =
      let silent = along-say env codec s (record { dir = []; base = [] }) R k in
      elim (Bool-cases (bytes_eq s.bin (text ""))) [
        | inl missing ↦ ground (
          arith,
          missing,
          silent error "cannot start service"
              (("err", failure (errorf "winsvr: Supervisor.Bin is required" [])) ∷ []) w,
        )
        | inr named ↦ elim (Result-cases (bin_path s executable)) [
          | inl (e, bad) ↦ ground (
            arith,
            named,
            bad,
            silent error "cannot resolve payload path" (("err", failure e) ∷ []) w,
          )
          | inr (bin, found) ↦ ground (arith, named, found, along-run_at bin w)
        ]
      ]
