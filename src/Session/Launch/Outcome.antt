-- ===== src/Session/Launch/Outcome.antt =====
-- LaunchInSession as a whole, and what Close does to the process that it launched.
use winsvr.Base.{ℕ, ◌≡◌, ◌≢◌, refl, sym, ap, subst, ◌∙◌, arith, Option-cases, inl, inr, some, []}
use winsvr.Go.Error.{Error, Result, ok, err, errors_is, cause_eq, wrap}
use winsvr.Go.World.{World, of_block, of_job}
use winsvr.Supervisor.Config.{LaunchOptions, Process}
use winsvr.Session.Windows.{
  Windows, job_of, process_of, create_environment_block, create_job, release,
}
use winsvr.Session.Handles.{owned, Trades, Trades-release}
use winsvr.Session.Verdicts.{
  Verdict, Ends, IsTaken, IsHandle, Ends-fail, Ends-bind, Ends-named-acquire, Ends-closing,
}
use winsvr.Session.Process.{close, close_process_handle, close_job}
use winsvr.Session.Launch.{
  path_utf16, utf16, launch_with_block, launch_with_token, launch_checked, refuse_options,
  launch_in_session,
}
use winsvr.Session.Launch.Accounts.{handles, launch_in_session-Keeps}
use winsvr.Session.Launch.Errors.{
  IsPlain, IsTrue, plain-IsTrue, IsTrue-wrap, user_token-Ends, IsLaunched, launch_in_job-Ends,
}

module _ (os : Windows) where
  refusal-IsPlain : (o : LaunchOptions) (e : Error) → refuse_options os o ≡ some e → IsPlain e
  unfolding refuse_options path_utf16 utf16 errors_is cause_eq
  refusal-IsPlain o e h = (ground (arith, h), ground (arith, h), ground (arith, h))

  launch_checked-Ends :
      (sid : ℕ) (o : LaunchOptions)
      → Ends (IsLaunched os sid o.elevated) (IsTrue os sid o.elevated) (launch_checked os sid o)
  unfolding launch_checked launch_with_token launch_with_block errors_is
  launch_checked-Ends sid o =
      let P = IsLaunched os sid o.elevated in
      let Q = IsTrue os sid o.elevated in
      let plain = IsTrue-wrap os sid o.elevated in
      Ends-bind (IsTaken os) P Q _ _ (user_token-Ends os sid o.elevated) λ tok _.
        Ends-closing os P Q (launch_with_token os o tok) tok (
          Ends-bind (IsTaken os) P Q _ _
            (Ends-named-acquire os Q (wrap "CreateEnvironmentBlock: %w" []) of_block
              (create_environment_block tok)
              (plain (create_environment_block tok) (wrap "CreateEnvironmentBlock: %w" [])
                (λ e x. refl)))
            λ block _. Ends-closing os P Q (launch_with_block os o tok block) block (
              Ends-bind (IsTaken os) P Q _ _
                (Ends-named-acquire os Q (wrap "CreateJobObject: %w" []) of_job create_job
                  (plain create_job (wrap "CreateJobObject: %w" []) (λ e x. refl)))
                (λ job j. launch_in_job-Ends os sid o.elevated o tok block job.value j)))

  pub launch_in_session-Ends :
      (sid : ℕ) (o : LaunchOptions)
      → Ends (IsLaunched os sid o.elevated) (IsTrue os sid o.elevated) (launch_in_session os sid o)
  unfolding launch_in_session
  launch_in_session-Ends sid o w = elim (Option-cases (refuse_options os o)) [
    | inr (e, bad) ↦
        rw (launch_in_session, bad)
          (Ends-fail (IsLaunched os sid o.elevated) (IsTrue os sid o.elevated) e
            (plain-IsTrue os sid o.elevated e (refusal-IsPlain o e bad)) w)
    | inl fine ↦ rw (launch_in_session, fine) (launch_checked-Ends sid o w)
  ]

  -- What the supervisor reads off an error of LaunchInSession is so: it is about a missing elevated
  -- token only if the launch asked for elevation and Windows said of the token of the session's user
  -- that its type is neither full nor limited and, asked whether it is elevated, said no; about a
  -- missing user only if the session's token was refused for another reason than a missing
  -- privilege; and about a manifest that requires administrator only if CreateProcessAsUser answered
  -- ERROR_ELEVATION_REQUIRED.
  pub launch_errors :
      (sid : ℕ) (o : LaunchOptions) (w w' : World) (e : Error)
      → launch_in_session os sid o w ≡ (err e, w')
      → IsTrue os sid o.elevated e
  launch_errors sid o w w' e h =
      subst (λ r. Verdict (IsLaunched os sid o.elevated) (IsTrue os sid o.elevated) r)
        (ap (λ (x : Result Process × World). x.0) h) (launch_in_session-Ends sid o w).1

  close_process_handle_lem :
      (p : Process) (w : World)
      → p.handle ≢ 0
      → close_process_handle os p w ≡ (record p { handle = 0 }, release os (process_of p.handle) w)
  unfolding close_process_handle
  close_process_handle_lem p w h = ground (arith, h)

  close_job_lem :
      (p : Process) (w : World) → p.job ≢ 0 → (close_job os p w).1 ≡ release os (job_of p.job) w
  unfolding close_job
  close_job_lem p w h = ground (arith, h)

  -- Close gives back the handles that are not cleared.
  pub Trades-close :
      (p : Process) (w : World)
      → p.handle ≢ 0
      → p.job ≢ 0
      → Trades (handles p) [] w (close os p w).1
  unfolding close release
  Trades-close p w h j r =
      let w1 = release os (process_of p.handle) w in
      rw (close_process_handle_lem p w h, close_job_lem (record p { handle = 0 }) w1 j) omega
        (arith, Trades-release (process_of p.handle) w r, Trades-release (job_of p.job) w1 r)

  pub IsHandle-nonzero : (v : ℕ) → ((t : ℕ) → os.handle t ≢ 0) → IsHandle os v → v ≢ 0
  IsHandle-nonzero v valid (t, e) z = valid t (sym e ∙ z)

  pub IsLaunched-result :
      (sid : ℕ) (o : LaunchOptions) (w w1 : World) (p : Process)
      → launch_in_session os sid o w ≡ (ok p, w1)
      → IsLaunched os sid o.elevated p
  IsLaunched-result sid o w w1 p h =
      subst (λ r. Verdict (IsLaunched os sid o.elevated) (IsTrue os sid o.elevated) r)
        (ap (λ (x : Result Process × World). x.0) h) (launch_in_session-Ends sid o w).1

  -- Where Windows gives out no handle of 0, a process that was launched and then closed leaves none
  -- of the tokens, environment blocks, jobs, processes and threads open that its launch took out,
  -- whatever else was taken out and given back in between.
  pub launch_then_close :
      (sid : ℕ) (o : LaunchOptions) (w w1 w2 : World) (p : Process)
      → ((t : ℕ) → os.handle t ≢ 0)
      → launch_in_session os sid o w ≡ (ok p, w1)
      → Trades [] [] w1 w2
      → Trades [] [] w (close os p w2).1
  launch_then_close sid o w w1 w2 p valid h between r =
      let kept =
        subst (λ (x : Result Process × World). Trades [] (owned handles x.0) w x.1) h
          (launch_in_session-Keeps os sid o w) in
      let (a, b) = IsLaunched-result sid o w w1 p h in
      omega (
        arith,
        kept r,
        between r,
        Trades-close p w2 (IsHandle-nonzero p.handle valid a) (IsHandle-nonzero p.job valid b) r,
      )
