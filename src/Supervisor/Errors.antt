-- ===== src/Supervisor/Errors.antt =====
-- Which errors Supervisor.Run returns (supervisor.go). An update that fails is none of them.
use winsvr.Base.{
  ℕ, zero, suc, ◌+◌, ◌*◌, ◌≡◌, refl, ◌⊎◌, inl, inr, not, none, some, [], ◌∷◌, arith, Option-cases,
  Bool-cases,
}
use winsvr.Base.Int.{ℤ, pos}
use winsvr.Base.Bytes.{text, bytes_eq, bytes_eq_iff}
use winsvr.Go.Error.{Error, errorf, wrap, bytes, file_path, flag, Result, ok, err}
use winsvr.Go.World.{Env, World, FilePath, info, arg, next}
use winsvr.Go.Effects.{Result-cases}
use winsvr.Go.Os.{ctx_err, os_stat}
use winsvr.Backoff.{sleep, grow, second}
use winsvr.Update.Config.{Codec}
use winsvr.Update.Check.{ensure_latest}
use winsvr.Supervisor.Config.{Supervisor, Session, say, bin_path, min_delay}
use winsvr.Supervisor.Run.{
  Outcome, running, returned, updater, max_wait, update_loop, update_before_launch,
  launch_and_supervise, after_update, run_at, run,
}
use winsvr.Supervisor.Updates.{IsLasting, said_checking, said_failed, lost_timer}
use winsvr.Supervisor.Fatal.{IsFatal, run_loop_gives_up}

module _ (s : Supervisor) (executable : Result FilePath) where
  -- What may end Run: no Bin, no directory to resolve it in, no payload, or an error that ends the loop.
  abbrev pub IsRunError : Error → Type 0
  IsRunError e =
      ((s.bin ≡ text "") × (e ≡ errorf "winsvr: Supervisor.Bin is required" []))
      ⊎ ((bin_path s executable ≡ err e)
          ⊎ (((bin : FilePath) × (x : Error) × (bin_path s executable ≡ ok bin)
                × (e ≡ wrap "winsvr: payload %q not found: %w" (file_path bin.dir bin.base ∷ []) x))
              ⊎ IsFatal e))

module _ (env : Env) (codec : Codec) (s : Supervisor) (lasting : IsLasting env) where
  -- An update that comes back with an error has met a context that is done, and still is.
  update_loop_cancelled :
      (bin : FilePath) (fuel attempt : ℕ) (wait : ℤ) (w w' : World) (e : Error)
      → update_loop env codec s bin fuel attempt wait w ≡ (returned (some e), w')
      → (x : Error) × (env.ctx_err w'.tick ≡ some x)
  unfolding update_loop ctx_err next
  update_loop_cancelled bin zero attempt wait w w' e h = absurd (cc)
  update_loop_cancelled bin (suc fuel) attempt wait w w' e h =
      let w0 = (ctx_err env w).1 in
      let said = said_checking env codec s bin attempt w0 in
      let checked = ensure_latest env codec (updater env codec s bin) said in
      elim (Option-cases (ctx_err env w).0) [
        | inr (x, over) ↦
            let (x', still) = lasting w.tick (w.tick + 1 + 1) (omega arith) x over in
            (x', ground (arith, over, still))
        | inl live ↦ elim (Result-cases checked.0) [
          | inr (b, good) ↦ absurd (ground (arith, live, good))
          | inl (f, bad) ↦ elim (Option-cases (ctx_err env checked.1).0) [
            | inr (x, over) ↦
                let (x', still) =
                  lasting checked.1.tick (checked.1.tick + 1) (omega arith) x over in
                (x', ground (arith, live, bad, over, still))
            | inl on ↦
                let told = said_failed env codec s bin attempt f wait (ctx_err env checked.1).1 in
                let w3 = (sleep env wait told).1 in
                elim (Bool-cases (sleep env wait told).0) [
                  | inl fired ↦
                      update_loop_cancelled bin fuel (attempt + 1)
                        (grow wait (max_wait env codec s bin)) w3 w' e
                        (ground (arith, live, bad, on, fired))
                  | inr lost ↦
                      let (x, late) = lost_timer env wait told lost in
                      let (x', still) = lasting w3.tick (w3.tick + 1) (omega arith) x late in
                      (x', ground (arith, live, bad, on, lost, still))
                ]
          ]
        ]
      ]

  module _ (session : Session) (executable : Result FilePath) where
    launch_gives_up :
        (fuel : ℕ) (bin : FilePath) (w w' : World) (e : Error)
        → bin_path s executable ≡ ok bin
        → launch_and_supervise env session s bin fuel w ≡ (returned (some e), w')
        → IsRunError s executable e
    unfolding launch_and_supervise
    launch_gives_up fuel bin w w' e found h = elim (Result-cases (os_stat env bin w).0) [
      | inl (x, lost) ↦ inr (inr (inl (bin, x, found, ground (arith, lost))))
      | inr (n, there) ↦ inr (
          inr (
            inr (
              run_loop_gives_up env session s bin fuel s.launch_elevated (min_delay s)
                (os_stat env bin w).1 w' e (ground (arith, there)))))
    ]

    after_update_gives_up :
        (fuel : ℕ) (bin : FilePath) (o : Outcome) (w w' : World) (e : Error)
        → bin_path s executable ≡ ok bin
        → ((f : Error) → o ≡ returned (some f) → (x : Error) × (env.ctx_err w.tick ≡ some x))
        → after_update env codec session s fuel bin o w ≡ (returned (some e), w')
        → IsRunError s executable e
    unfolding after_update ctx_err
    after_update_gives_up fuel bin running w w' e found over h = absurd (cc)
    after_update_gives_up fuel bin (returned none) w w' e found over h =
        launch_gives_up fuel bin w w' e found h
    after_update_gives_up fuel bin (returned (some f)) w w' e found over h =
        let (x, done) = over f refl in absurd (ground (arith, done))

    run_at_gives_up :
        (fuel : ℕ) (bin : FilePath) (w w' : World) (e : Error)
        → bin_path s executable ≡ ok bin
        → run_at env codec session s fuel bin w ≡ (returned (some e), w')
        → IsRunError s executable e
    unfolding run_at update_before_launch
    run_at_gives_up fuel bin w w' e found h =
        let said =
          say s info "service starting"
            (("payload", arg (file_path bin.dir bin.base))
              ∷ ("updateURL", arg (bytes s.update_url))
              ∷ ("elevated", arg (flag s.launch_elevated))
              ∷ ("autoElevate", arg (flag (not s.disable_auto_elevate)))
              ∷ ("hidden", arg (flag s.hidden))
              ∷ [])
            w in
        let ended = update_loop env codec s bin fuel 1 (pos (2 * second)) said in
        elim (Bool-cases (not (bytes_eq s.update_url (text "")))) [
          | inl updates ↦
              after_update_gives_up fuel bin ended.0 ended.1 w' e found
                (λ f o.
                  update_loop_cancelled bin fuel 1 (pos (2 * second)) said ended.1 f
                    (ground (arith, o)))
                (rw updates at h)
          | inr disabled ↦ launch_gives_up fuel bin _ w' e found (rw disabled at h)
        ]

    -- With a context that stays done, Run returns an error only if Bin is empty, if the directory of the
    -- payload cannot be told, if the payload is not there, if there is no token for an elevated
    -- launch, if the payload requires an elevation that it is not given, or if the wait for a user
    -- failed. No failure of an update, no end of a payload and no other failure of a launch makes it
    -- return an error.
    pub run_gives_up :
        (fuel : ℕ) (w w' : World) (e : Error)
        → run env codec session s fuel executable w ≡ (returned (some e), w')
        → IsRunError s executable e
    unfolding run
    run_gives_up fuel w w' e h = elim (Bool-cases (bytes_eq s.bin (text ""))) [
      | inl missing ↦ inl ((bytes_eq_iff s.bin (text "")).0 missing, ground (arith, missing))
      | inr named ↦ elim (Result-cases (bin_path s executable)) [
        | inl (x, bad) ↦ inr (inl (ground (arith, named, bad)))
        | inr (bin, found) ↦ run_at_gives_up fuel bin w w' e found (ground (arith, named, found))
      ]
    ]
