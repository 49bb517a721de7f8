-- ===== src/Manager/Elevate/Waits.antt =====
-- Elevate of manager_windows.go: it closes the process that it started, and its wait ends.
use native.Mathlib.Decide.{dec_lt}
use winsvr.Base.{
  ℕ, ◌+◌, ◌≤◌, ◌<◌, ◌⊎◌, zero, suc, ◌≡◌, refl, Option, none, some, List, [], ◌∷◌, ◌==◌, arith,
  Option-cases, inl, inr, Bool-cases,
}
use winsvr.Base.Bytes.{Bytes}
use winsvr.Go.Error.{Error, wrap, Result, ok, err}
use winsvr.Go.World.{Env, World, next, Resource}
use winsvr.Go.Os.{ctx_err}
use winsvr.Session.Windows.{
  Windows, ShellExecuteInfo, shell_execute, wait_for_object, process_of, read, release, named,
  rename, failed, get_exit_code,
}
use winsvr.Session.Handles.{Trades, Trades-next, Trades-acquire, Trades-release}
use winsvr.Session.Console.{settled}
use winsvr.Session.Process.{settle, wait_object_0}
use winsvr.Manager.Elevate.{
  run_elevated, after_elevated, wait_elevated, await_elevated, run_again, elevate,
  shell_execute_info, join_args, escape_all,
}

module _ (os : Windows) (env : Env) where
  wait_elevated-Trades : (fuel h : ℕ) (w : World) → Trades [] [] w (wait_elevated os env fuel h w).1
  unfolding wait_elevated after_elevated settle named rename read ctx_err
  wait_elevated-Trades zero h w r = refl
  wait_elevated-Trades (suc fuel) h w r = ground (
    arith,
    Trades-next w r,
    Trades-next (next w) r,
    wait_elevated-Trades fuel h (next (next w)) r,
  )

  abbrev started : Result (Option ℕ) → List Resource
  started (ok (some h)) = process_of h ∷ []
  started _ = []

  run_elevated-Trades :
      (info : ShellExecuteInfo) (w : World)
      → Trades [] (started (run_elevated os info w).0) w (run_elevated os info w).1
  unfolding run_elevated
  run_elevated-Trades info w = elim (Option-cases (os.answer w.tick (shell_execute info))) [
    | inr (n, bad) ↦ rw (run_elevated, bad) (Trades-next w)
    | inl fine ↦ elim (Bool-cases (os.handle w.tick == 0)) [
      | inl nothing ↦ rw (run_elevated, fine, nothing) (Trades-next w)
      | inr some_handle ↦
          rw (run_elevated, fine, some_handle) (Trades-acquire (process_of (os.handle w.tick)) w)
    ]
  ]

  await_elevated-Trades :
      (fuel : ℕ) (r : Result (Option ℕ)) (w : World)
      → Trades (started r) [] w (await_elevated os env fuel r w).1
  unfolding await_elevated release
  await_elevated-Trades fuel (err e) w h = refl
  await_elevated-Trades fuel (ok none) w h = refl
  await_elevated-Trades fuel (ok (some x)) w h =
      let w' = (wait_elevated os env fuel x w).1 in
      omega (arith, wait_elevated-Trades fuel x w h, Trades-release (process_of x) w' h)

  run_again-Trades :
      (escape_arg : Bytes → Bytes) (wd : Bytes) (executable : Result Bytes) (fuel : ℕ)
      (args : List Bytes) (w : World)
      → Trades [] [] w (run_again os env escape_arg wd executable fuel args w).1
  unfolding run_again
  run_again-Trades escape_arg wd (err e) fuel args w h = refl
  run_again-Trades escape_arg wd (ok exe) fuel args w h =
      let info = shell_execute_info exe (join_args (escape_all escape_arg args)) wd in
      let r = run_elevated os info w in
      omega (arith, run_elevated-Trades info w h, await_elevated-Trades fuel r.0 r.1 h)

  elevate-Trades :
      (escape_arg : Bytes → Bytes) (wd : Bytes) (executable : Result Bytes) (fuel : ℕ)
      (args : List Bytes) (w : World)
      → Trades [] [] w (elevate os env escape_arg wd executable fuel args w).1
  unfolding elevate
  elevate-Trades escape_arg wd executable fuel args w h =
      ground
        (arith, Trades-next w h, run_again-Trades escape_arg wd executable fuel args (next w) h)

  -- From the tick `stopped` on the context is done, or Windows says that the process has ended.
  abbrev pub IsOver : ℕ → Type 0
  IsOver stopped =
      ((t : ℕ) → stopped ≤ t → (e : Error) × (env.ctx_err t ≡ some e))
      ⊎ ((t : ℕ) → stopped ≤ t → os.wait_event t ≡ wait_object_0)

  over-cases :
      (stopped : ℕ)
      → IsOver stopped
      → (t : ℕ)
      → (t < stopped)
        ⊎ ((os.wait_event t ≡ wait_object_0) ⊎ ((e : Error) × (env.ctx_err (t + 1) ≡ some e)))
  over-cases stopped over t = elim (dec_lt t stopped) [
    | yes before ↦ inl before
    | no after ↦ elim over [
      | inl done ↦ inr (inr (done (t + 1) (omega (arith, after))))
      | inr ended ↦ inr (inl (ended t (omega (arith, after))))
    ]
  ]

  wait_elevated_ends :
      (stopped : ℕ)
      → IsOver stopped
      → (fuel h : ℕ) (w : World) → 0 < fuel
      → stopped < fuel + w.tick
      → (r : Result ℕ) × ((wait_elevated os env fuel h w).0 ≡ settled r)
  unfolding wait_elevated after_elevated settle read ctx_err next
  wait_elevated_ends stopped over zero h w positive enough = absurd (omega arith)
  wait_elevated_ends stopped over (suc fuel) h w positive enough =
      elim (Option-cases (os.answer w.tick (wait_for_object (process_of h)))) [
        | inr (n, bad) ↦ (err (failed os n), ground (arith, bad))
        | inl fine ↦ elim (Bool-cases (os.wait_event w.tick == wait_object_0)) [
          | inl ended ↦ (
            (named os (wrap "GetExitCodeProcess: %w" [])
                (read os (get_exit_code (process_of h)) os.exit_code) (next w)).0,
            ground (arith, fine, ended),
          )
          | inr running ↦ elim (Option-cases (env.ctx_err (w.tick + 1))) [
            | inr (e, done) ↦ (err e, ground (arith, fine, running, done))
            | inl live ↦
                let before : w.tick < stopped = elim (over-cases stopped over w.tick) [
                  | inl before ↦ before
                  | inr (inl ended) ↦ absurd (ground (arith, ended, running))
                  | inr (inr (e, done)) ↦ absurd (ground (arith, done, live))
                ] in
                let (r, e) =
                  wait_elevated_ends stopped over fuel h (next (next w)) (omega arith)
                    (omega arith) in
                (r, ground (arith, fine, running, live, e))
          ]
        ]
      ]

  await_elevated_settled :
      (stopped fuel : ℕ)
      → IsOver stopped
      → stopped < fuel
      → (x : Result (Option ℕ)) (w : World)
      → (r : Result ℕ) × ((await_elevated os env fuel x w).0 ≡ settled r)
  unfolding await_elevated
  await_elevated_settled stopped fuel over enough (err e) w = (err e, refl)
  await_elevated_settled stopped fuel over enough (ok none) w = (ok 0, refl)
  await_elevated_settled stopped fuel over enough (ok (some h)) w =
      wait_elevated_ends stopped over fuel h w (omega (arith, enough)) (omega (arith, enough))

  run_again_settled :
      (escape_arg : Bytes → Bytes) (wd : Bytes) (executable : Result Bytes) (stopped fuel : ℕ)
      → IsOver stopped
      → stopped < fuel
      → (args : List Bytes) (w : World)
      → (r : Result ℕ) × ((run_again os env escape_arg wd executable fuel args w).0 ≡ settled r)
  unfolding run_again
  run_again_settled escape_arg wd (err e) stopped fuel over enough args w = (err e, refl)
  run_again_settled escape_arg wd (ok exe) stopped fuel over enough args w =
      let info = shell_execute_info exe (join_args (escape_all escape_arg args)) wd in
      let started_now = run_elevated os info w in
      await_elevated_settled stopped fuel over enough started_now.0 started_now.1

  -- Elevate closes the process that it starts, if it starts one, on every path. It returns with any
  -- fuel that exceeds `stopped`, if from that tick on its context is done, or Windows says that the
  -- process has ended.
  pub elevate_ends :
      (escape_arg : Bytes → Bytes) (wd : Bytes) (executable : Result Bytes) (stopped fuel : ℕ)
      → IsOver stopped
      → stopped < fuel
      → (args : List Bytes) (w : World)
      → Trades [] [] w (elevate os env escape_arg wd executable fuel args w).1
        × ((r : Result ℕ) × ((elevate os env escape_arg wd executable fuel args w).0 ≡ settled r))
  unfolding elevate
  elevate_ends escape_arg wd executable stopped fuel over enough args w = (
    elevate-Trades escape_arg wd executable fuel args w,
    elim (Bool-cases (os.is_elevated w.tick)) [
      | inl already ↦ (ok 0, ground (arith, already))
      | inr plain ↦
          let (r, e) =
            run_again_settled escape_arg wd executable stopped fuel over enough args (next w) in
          (r, ground (arith, plain, e))
    ],
  )
