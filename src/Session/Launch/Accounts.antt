-- ===== src/Session/Launch/Accounts.antt =====
-- LaunchInSession gives back whatever it opened, but for the process and the job of a success.
use winsvr.Base.{ℕ, arith, Bool, true, false, Option-cases, inl, inr, List, [], ◌∷◌}
use winsvr.Go.World.{Resource, of_token, of_block}
use winsvr.Elevation.{
  ElevationChoice, elevate_impossible, elevate_with_token, elevate_with_linked, choose_elevation,
}
use winsvr.Supervisor.Config.{LaunchOptions, Process}
use winsvr.Session.Windows.{
  Windows, closing, Created, job_of, process_of, thread_of, query_user_token, get_elevation_type,
  get_linked_token, duplicate_token, create_environment_block, create_job,
}
use winsvr.Session.Handles.{Keeps, nothing}
use winsvr.Session.Handles.Rules.{
  Keeps-pure, Keeps-fail, Keeps-bind, Keeps-ask, Keeps-read, Keeps-acquire, Keeps-acquire_job,
  Keeps-create_process, Keeps-closing, Keeps-or_release, Keeps-or_kill, Keeps-named, Keeps-perm,
  Keeps-next,
}
use winsvr.Session.Token.{
  not_administrator, primary_of, elevated_primary, chosen_primary, primary_token, user_token,
}
use winsvr.Session.Launch.{
  both, put_in_job, let_run, start, limit_job, create_in, launch_in_job, launch_with_block,
  launch_with_token, launch_checked, refuse_options, launch_in_session,
}

-- The handles of a Process.
abbrev pub handles : Process → List Resource
handles p = process_of p.handle ∷ job_of p.job ∷ []

abbrev one : Resource → List Resource
one r = r ∷ []

module _ (os : Windows) where
  primary_of-Keeps : (src : Resource) → Keeps [] one (primary_of os src)
  unfolding primary_of
  primary_of-Keeps src = Keeps-named os [] one _ _ (Keeps-acquire os of_token (duplicate_token src))

  elevated_primary-Keeps :
      (sid : ℕ) (user : Resource) (c : ElevationChoice)
      → Keeps [] one (elevated_primary os sid user c)
  unfolding elevated_primary
  elevated_primary-Keeps sid user elevate_with_token = primary_of-Keeps user
  elevated_primary-Keeps sid user elevate_impossible = Keeps-fail one (not_administrator sid)
  elevated_primary-Keeps sid user elevate_with_linked =
      Keeps-bind [] one one _ _
        (Keeps-named os [] one _ _ (Keeps-acquire os of_token (get_linked_token user)))
        (λ linked. Keeps-closing os linked [] one _ (primary_of-Keeps linked))

  primary_token-Keeps :
      (sid : ℕ) (elevated : Bool) (user : Resource)
      → Keeps [] one (primary_token os sid elevated user)
  unfolding primary_token chosen_primary
  primary_token-Keeps sid false user = primary_of-Keeps user
  primary_token-Keeps sid true user =
      Keeps-bind [] nothing one _ _
        (Keeps-named os [] nothing _ _ (Keeps-read os (get_elevation_type user) os.elevation_type))
        (λ kind w.
          let c = choose_elevation kind (os.is_elevated w.tick) in
          Keeps-next one (elevated_primary os sid user c) (elevated_primary-Keeps sid user c) w)

  -- userToken leaves the primary token open, and no other.
  pub user_token-Keeps : (sid : ℕ) (elevated : Bool) → Keeps [] one (user_token os sid elevated)
  unfolding user_token
  user_token-Keeps sid elevated =
      Keeps-bind [] one one _ _
        (Keeps-named os [] one _ _ (Keeps-acquire os of_token (query_user_token sid)))
        (λ user. Keeps-closing os user [] one _ (primary_token-Keeps sid elevated user))

  start-Keeps : (job : ℕ) (p : Created) → Keeps (both os job p.process) handles (start os job p)
  unfolding start put_in_job let_run
  start-Keeps job p =
      Keeps-bind (both os job p.process) (λ _. both os job p.process) handles _ _
        (Keeps-or_kill os (process_of p.process) (both os job p.process) nothing _
          (Keeps-named os [] nothing _ _ (Keeps-ask os _)))
        λ _.
          Keeps-bind (both os job p.process) (λ _. both os job p.process) handles _ _
            (Keeps-or_kill os (process_of p.process) (both os job p.process) nothing _
              (Keeps-named os [] nothing _ _ (Keeps-ask os _)))
            (λ _. Keeps-pure handles (record { pid = p.process_id; handle = p.process; job = job }))

  launch_in_job-Keeps :
      (o : LaunchOptions) (tok block : Resource) (job : ℕ)
      → Keeps (job_of job ∷ []) handles (launch_in_job os o tok block job)
  unfolding launch_in_job limit_job create_in
  launch_in_job-Keeps o tok block job =
      Keeps-bind (job_of job ∷ []) (λ _. job_of job ∷ []) handles _ _
        (Keeps-or_release os (job_of job ∷ []) nothing _
          (Keeps-named os [] nothing _ _ (Keeps-ask os _)))
        λ _.
          Keeps-bind (job_of job ∷ [])
            (λ p. job_of job ∷ process_of p.process ∷ thread_of p.thread ∷ []) handles _ _
            (Keeps-or_release os (job_of job ∷ [])
              (λ p. process_of p.process ∷ thread_of p.thread ∷ []) _
              (Keeps-named os [] _ _ _ (Keeps-create_process os _)))
            λ p.
              Keeps-perm (thread_of p.thread ∷ both os job p.process)
                (job_of job ∷ process_of p.process ∷ thread_of p.thread ∷ []) handles
                (closing os (thread_of p.thread) (start os job p)) (λ h. omega arith)
                (Keeps-closing os (thread_of p.thread) (both os job p.process) handles
                  (start os job p) (start-Keeps job p))

  launch_checked-Keeps : (sid : ℕ) (o : LaunchOptions) → Keeps [] handles (launch_checked os sid o)
  unfolding launch_checked launch_with_token launch_with_block
  launch_checked-Keeps sid o =
      Keeps-bind [] one handles _ _ (user_token-Keeps sid o.elevated) λ tok.
        Keeps-closing os tok [] handles _ (
          Keeps-bind [] one handles _ _
            (Keeps-named os [] one _ _ (Keeps-acquire os of_block (create_environment_block tok)))
            λ block. Keeps-closing os block [] handles _ (
              Keeps-bind [] (λ job. job_of job.value ∷ []) handles _ _
                (Keeps-named os [] _ _ _ (Keeps-acquire_job os create_job))
                (λ job. launch_in_job-Keeps o tok block job.value)))

  -- Of all tokens, environment blocks, jobs, processes and threads that LaunchInSession takes out, it
  -- gives back every one when it fails, and all but the process and the job that it returns when it
  -- succeeds.
  pub launch_in_session-Keeps :
      (sid : ℕ) (o : LaunchOptions) → Keeps [] handles (launch_in_session os sid o)
  unfolding launch_in_session
  launch_in_session-Keeps sid o w = elim (Option-cases (refuse_options os o)) [
    | inr (e, bad) ↦ rw (launch_in_session, bad) (Keeps-fail handles e w)
    | inl fine ↦ rw (launch_in_session, fine) (launch_checked-Keeps sid o w)
  ]
