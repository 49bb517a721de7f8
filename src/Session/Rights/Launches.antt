-- ===== src/Session/Rights/Launches.antt =====
-- Whose rights a process has that LaunchInSession of session_windows.go has launched, and the job that
-- it stands in.
use winsvr.Base.{
  ℕ, Bool, true, false, if◌then◌else◌, ◌≡◌, refl, ap, subst, inl, inr, none, [], ◌∷◌, arith,
  Option-cases,
}
use winsvr.Go.Error.{wrap, Result, ok}
use winsvr.Go.World.{World, next, Resource, of_block, of_job}
use winsvr.Go.Os.{emit}
use winsvr.Supervisor.Config.{LaunchOptions, Process}
use winsvr.Session.Windows.{
  Windows, create_environment_block, create_job, create_process_as_user, set_kill_on_close,
  assign_to_job, resume_thread, Created, job_of, process_of, thread_of, create_process, Creation,
}
use winsvr.Session.Verdicts.{
  Verdict, Ends, Any, Ends-pure, Ends-bind, Ends-named, Ends-closing, Ends-or_release, Ends-or_kill,
}
use winsvr.Session.Launch.{
  creation, creation_flags, both, create_error, put_in_job, let_run, start, limit_job, create_in,
  launch_in_job, launch_with_block, launch_with_token, launch_checked, refuse_options,
  launch_in_session,
}
use winsvr.Session.Rights.{
  IsGiven, Ends-IsGiven, IsGranted, Ends-IsGranted, IsTokenFor, user_token-Ends,
}

module _ (os : Windows) where
  -- The process was created suspended, with a token of those rights and the environment of the same
  -- token, to run the path and the arguments of the launch, and put into a job that kills it when
  -- closed.
  abbrev pub IsRightful : ℕ → LaunchOptions → Process → Type 0
  IsRightful sid o p =
      (c : Creation) × (t : ℕ) × IsTokenFor os sid o.elevated c.token
      × IsGiven os of_block (create_environment_block c.token) c.block
      × (c.path ≡ o.path)
      × (c.command ≡ os.command_line o.path o.args)
      × (c.flags ≡ (if o.hidden then 0x0800_0404 else 0x414))
      × (os.answer t (create_process_as_user c) ≡ none)
      × (p.handle ≡ os.handle t)
      × (p.pid ≡ os.process_id t)
      × IsGranted os (set_kill_on_close (job_of p.job))
      × IsGranted os (assign_to_job (job_of p.job) (process_of p.handle))

  flags-creation : (hidden : Bool) → creation_flags hidden ≡ (if hidden then 0x0800_0404 else 0x414)
  unfolding creation_flags
  flags-creation true = refl
  flags-creation false = refl

  abbrev IsMade : LaunchOptions → Resource → Resource → Created → Type 0
  IsMade o tok block c =
      (t : ℕ) × (os.answer t (create_process_as_user (creation os o tok block)) ≡ none)
      × (c.process ≡ os.handle t)
      × (c.process_id ≡ os.process_id t)

  Ends-IsMade :
      (o : LaunchOptions) (tok block : Resource) (job : ℕ)
      → Ends (IsMade o tok block) Any (create_in os o tok block job)
  unfolding create_in create_process next emit
  Ends-IsMade o tok block job = Ends-or_release os (IsMade o tok block) Any _ (job_of job ∷ []) (
      Ends-named os (IsMade o tok block) Any (create_process os (creation os o tok block)) Any
        (create_error o.path) (λ e q. tt)
        λ w.
          elim (Option-cases
            (os.answer w.tick (create_process_as_user (creation os o tok block)))) [
              | inl fine ↦ rw (create_process, fine) (omega arith, (w.tick, fine, refl, refl))
              | inr (n, bad) ↦ rw (create_process, bad) (omega arith, tt)
            ])

  module _ (sid : ℕ) (o : LaunchOptions) (tok block : Resource)
      (rights : IsTokenFor os sid o.elevated tok)
      (given : IsGiven os of_block (create_environment_block tok) block) where
    start-IsRightful :
        (job : ℕ) (c : Created)
        → IsMade o tok block c
        → IsGranted os (set_kill_on_close (job_of job))
        → Ends (IsRightful sid o) Any (start os job c)
    unfolding start put_in_job let_run creation
    start-IsRightful job c (t, made, handle, pid) limited =
        Ends-bind
          (λ (d : Unit {0}). IsGranted os (assign_to_job (job_of job) (process_of c.process)))
          (IsRightful sid o) Any _ _
          (Ends-or_kill os _ Any _ (process_of c.process) (both os job c.process) (
            Ends-IsGranted os (wrap "AssignProcessToJobObject: %w" [])
              (assign_to_job (job_of job) (process_of c.process))))
          λ _ assigned.
            Ends-bind (λ (d : Unit {0}). IsGranted os (resume_thread (thread_of c.thread)))
              (IsRightful sid o) Any _ _
              (Ends-or_kill os _ Any _ (process_of c.process) (both os job c.process) (
                Ends-IsGranted os (wrap "ResumeThread: %w" [])
                  (resume_thread (thread_of c.thread))))
              λ _ resumed.
                Ends-pure (IsRightful sid o) Any
                  (record { pid = c.process_id; handle = c.process; job = job })
                  (
                    creation os o tok block,
                    t,
                    rights,
                    given,
                    refl,
                    refl,
                    flags-creation o.hidden,
                    made,
                    handle,
                    pid,
                    limited,
                    assigned,
                  )

    launch_in_job-IsRightful :
        (job : ℕ) → Ends (IsRightful sid o) Any (launch_in_job os o tok block job)
    unfolding launch_in_job limit_job
    launch_in_job-IsRightful job =
        Ends-bind (λ (d : Unit {0}). IsGranted os (set_kill_on_close (job_of job)))
          (IsRightful sid o) Any _ _
          (Ends-or_release os _ Any _ (job_of job ∷ []) (
            Ends-IsGranted os (wrap "SetInformationJobObject: %w" [])
              (set_kill_on_close (job_of job))))
          λ _ limited.
            Ends-bind (IsMade o tok block) (IsRightful sid o) Any _ _ (Ends-IsMade o tok block job)
              λ c made.
                Ends-closing os (IsRightful sid o) Any (start os job c) (thread_of c.thread)
                  (start-IsRightful job c made limited)

  launch_checked-IsRightful :
      (sid : ℕ) (o : LaunchOptions) → Ends (IsRightful sid o) Any (launch_checked os sid o)
  unfolding launch_checked launch_with_token launch_with_block
  launch_checked-IsRightful sid o =
      let P = IsRightful sid o in
      Ends-bind (IsTokenFor os sid o.elevated) P Any _ _ (user_token-Ends os sid o.elevated)
        λ tok rights. Ends-closing os P Any (launch_with_token os o tok) tok (
          Ends-bind (IsGiven os of_block (create_environment_block tok)) P Any _ _
            (Ends-IsGiven os (wrap "CreateEnvironmentBlock: %w" []) of_block
              (create_environment_block tok))
            λ block given. Ends-closing os P Any (launch_with_block os o tok block) block (
              Ends-bind (IsGiven os of_job create_job) P Any _ _
                (Ends-IsGiven os (wrap "CreateJobObject: %w" []) of_job create_job)
                λ job _. launch_in_job-IsRightful sid o tok block rights given job.value))

  -- A process that LaunchInSession returns was created by CreateProcessAsUser with a duplicate of the
  -- token of the session's user: of that token itself if no elevation was asked for, else of it where
  -- it was found elevated, or of the one linked to it where it was found limited. Its environment
  -- block was made for that same token; it was created suspended, with the path and the arguments of
  -- the launch. The job that it stands in was made to kill it when closed, and the process was put
  -- into that job.
  pub launched-IsRightful :
      (sid : ℕ) (o : LaunchOptions) (w w' : World) (p : Process)
      → launch_in_session os sid o w ≡ (ok p, w')
      → IsRightful sid o p
  unfolding launch_in_session
  launched-IsRightful sid o w w' p h = elim (Option-cases (refuse_options os o)) [
    | inr (e, bad) ↦ absurd (ground (arith, bad))
    | inl fine ↦
        let launched : launch_checked os sid o w ≡ (ok p, w') = ground (arith, fine) in
        subst (λ r. Verdict (IsRightful sid o) Any r)
          (ap (λ (x : Result Process × World). x.0) launched) (launch_checked-IsRightful sid o w).1
  ]
