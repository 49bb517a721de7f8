-- ===== src/Supervisor/Stops.antt =====
-- Run of supervisor.go as a whole: when it reports a clean stop, and when it launches nothing.
use Prim.Native.String.{String}
use winsvr.Supervisor.Updates.{IsLasting}
use winsvr.Supervisor.Cancelled.{IsDone, IsDone-say, run_loop-IsDone}
use winsvr.Base.{
  List, [], ◌∷◌, subst, ℕ, ◌≡◌, inl, inr, not, none, some, arith, Option-cases, Bool-cases,
}
use winsvr.Base.Bytes.{text, bytes_eq}
use winsvr.Go.Error.{Result}
use winsvr.Go.World.{Env, World, FilePath, Value, info, failure}
use winsvr.Go.Os.{ctx_err, os_stat}
use winsvr.Go.Effects.{Result-cases}
use winsvr.Update.Config.{Codec}
use winsvr.Supervisor.Config.{Supervisor, Session, say, bin_path, min_delay}
use winsvr.Supervisor.Run.{
  Outcome, running, returned, launch_and_supervise, after_update, run_at, run,
}
use winsvr.Supervisor.Bounds.{HasInt64Delays, IsDelay-min, IsCancelled}
use winsvr.Supervisor.Rounds.{run_loop_clean}

module _ (env : Env) (codec : Codec) (session : Session) (s : Supervisor)
    (fits : HasInt64Delays s) where
  supervise_clean :
      (fuel : ℕ) (bin : FilePath) (w w' : World)
      → launch_and_supervise env session s bin fuel w ≡ (returned none, w')
      → IsCancelled env
  unfolding launch_and_supervise
  supervise_clean fuel bin w w' h = elim (Result-cases (os_stat env bin w).0) [
    | inl (e, bad) ↦ absurd (ground (arith, bad))
    | inr (n, found) ↦
        run_loop_clean env session s bin fits fuel s.launch_elevated _ (os_stat env bin w).1 w'
          (IsDelay-min s) (ground (arith, found))
  ]

  after_update_clean :
      (fuel : ℕ) (bin : FilePath) (o : Outcome) (w w' : World)
      → after_update env codec session s fuel bin o w ≡ (returned none, w')
      → IsCancelled env
  unfolding after_update ctx_err
  after_update_clean fuel bin running w w' h = absurd (cc)
  after_update_clean fuel bin (returned none) w w' h = supervise_clean fuel bin w w' h
  after_update_clean fuel bin (returned (some e)) w w' h =
      elim (Option-cases (env.ctx_err w.tick)) [
        | inl live ↦ absurd (ground (arith, live))
        | inr (x, done) ↦ (w.tick, x, done)
      ]

  run_at_clean :
      (fuel : ℕ) (bin : FilePath) (w w' : World)
      → run_at env codec session s fuel bin w ≡ (returned none, w')
      → IsCancelled env
  unfolding run_at
  run_at_clean fuel bin w w' h = elim (Bool-cases (not (bytes_eq s.update_url (text "")))) [
    | inl updates ↦ after_update_clean fuel bin _ _ w' (rw updates at h)
    | inr none_wanted ↦ supervise_clean fuel bin _ w' (rw none_wanted at h)
  ]

  -- With int64 delays and any session, Run returns a nil error, a clean stop, only if the context
  -- was done at some moment: nothing else that may go wrong is reported as a clean stop.
  pub run_clean :
      (fuel : ℕ) (executable : Result FilePath) (w w' : World)
      → run env codec session s fuel executable w ≡ (returned none, w')
      → IsCancelled env
  unfolding run
  run_clean fuel executable w w' h = elim (Bool-cases (bytes_eq s.bin (text ""))) [
    | inl missing ↦ absurd (cc (rw missing at h))
    | inr named ↦ elim (Result-cases (bin_path s executable)) [
      | inl (e, bad) ↦ absurd (ground (arith, named, bad))
      | inr (bin, found) ↦ run_at_clean fuel bin w w' (ground (arith, named, found))
    ]
  ]

module _ (env : Env) (codec : Codec) (session : Session) (s : Supervisor)
    (lasting : IsLasting env) where
  launch-IsDone :
      (fuel : ℕ) (bin : FilePath) (w w' : World)
      → launch_and_supervise env session s bin fuel w ≡ (returned none, w')
      → IsDone env w'
  unfolding launch_and_supervise
  launch-IsDone fuel bin w w' h = elim (Result-cases (os_stat env bin w).0) [
    | inl (e, bad) ↦ absurd (ground (arith, bad))
    | inr (n, found) ↦
        run_loop-IsDone env session s lasting bin fuel s.launch_elevated (min_delay s)
          (os_stat env bin w).1 w' (ground (arith, found))
  ]

  after_update-IsDone :
      (fuel : ℕ) (bin : FilePath) (o : Outcome) (w w' : World)
      → after_update env codec session s fuel bin o w ≡ (returned none, w')
      → IsDone env w'
  unfolding after_update
  after_update-IsDone fuel bin running w w' h = absurd (cc)
  after_update-IsDone fuel bin (returned none) w w' h = launch-IsDone fuel bin w w' h
  after_update-IsDone fuel bin (returned (some e)) w w' h = elim (Option-cases (ctx_err env w).0) [
    | inl live ↦ absurd (ground (arith, live))
    | inr (x, over) ↦
        let attrs : List (String × Value) = ("reason", failure e) ∷ [] in
        let said = say s info "service stopping before first launch" attrs (ctx_err env w).1 in
        let same : said ≡ w' = ground (arith, over) in
        subst (λ v. IsDone env v) same
          (IsDone-say env session s lasting info "service stopping before first launch" attrs w x
            over)
  ]

  run_at-IsDone :
      (fuel : ℕ) (bin : FilePath) (w w' : World)
      → run_at env codec session s fuel bin w ≡ (returned none, w')
      → IsDone env w'
  unfolding run_at
  run_at-IsDone fuel bin w w' h = elim (Bool-cases (not (bytes_eq s.update_url (text "")))) [
    | inl updates ↦ after_update-IsDone fuel bin _ _ w' (rw updates at h)
    | inr none_wanted ↦ launch-IsDone fuel bin _ w' (rw none_wanted at h)
  ]

  -- With a context that stays done and any session, Run returns a nil error, a clean stop, only if its
  -- context is done when it returns: nothing else that may go wrong is reported as a clean stop.
  pub run-IsDone :
      (fuel : ℕ) (executable : Result FilePath) (w w' : World)
      → run env codec session s fuel executable w ≡ (returned none, w')
      → IsDone env w'
  unfolding run
  run-IsDone fuel executable w w' h = elim (Bool-cases (bytes_eq s.bin (text ""))) [
    | inl missing ↦ absurd (cc (rw missing at h))
    | inr named ↦ elim (Result-cases (bin_path s executable)) [
      | inl (e, bad) ↦ absurd (ground (arith, named, bad))
      | inr (bin, found) ↦ run_at-IsDone fuel bin w w' (ground (arith, named, found))
    ]
  ]
