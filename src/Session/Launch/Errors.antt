-- ===== src/Session/Launch/Errors.antt =====
-- What the errors of LaunchInSession say, and where the handles of a success come from.
use winsvr.Base.{
  ℕ, ◌≡◌, ◌≢◌, refl, sym, arith, Bool, true, false, some, [], ◌∷◌, Option-cases, inl, inr,
}
use winsvr.Go.Error.{
  Error, errors_is, cause_eq, Cause, err_no_user_session, err_no_elevated_token,
  err_elevation_required, wrap,
}
use winsvr.Go.World.{Resource, Kind, of_token, next}
use winsvr.Go.Os.{emit}
use winsvr.Elevation.Choice.{choose_elevation_exact}
use winsvr.Session.Rights.{IsGiven, IsOfType}
use winsvr.Elevation.{
  ElevationChoice, elevate_impossible, elevate_with_token, elevate_with_linked, choose_elevation,
}
use winsvr.Supervisor.Config.{LaunchOptions, Process}
use winsvr.Session.Windows.{
  Windows, Call, acquire, ask, create_process, set_kill_on_close, named, or_kill, Created, failed,
  job_of, process_of, thread_of, query_user_token, get_elevation_type, get_linked_token,
  duplicate_token, create_process_as_user, Creation,
}
use winsvr.Session.Verdicts.{
  Ends, Any, IsAnswer, IsHandle, Ends-pure, Ends-fail, Ends-next, Ends-bind, Ends-create_process,
  Ends-named-acquire, Ends-named-read, Ends-named-ask, IsTaken, IsSaid, Ends-closing,
  Ends-or_release, Ends-or_kill, Ends-named,
}
use winsvr.Session.Token.{
  query_error, elevation_type_error, linked_error, not_administrator, duplicate_error, primary_of,
  elevated_primary, chosen_primary, primary_token, user_token,
}
use winsvr.Session.Launch.{
  both, put_in_job, let_run, start, limit_job, creation, create_in, create_error, launch_in_job,
}

-- None of the errors that the supervisor tells apart.
abbrev pub IsPlain : Error → Type 0
IsPlain e =
    (errors_is e err_no_elevated_token ≡ false)
    × (errors_is e err_no_user_session ≡ false)
    × (errors_is e err_elevation_required ≡ false)

-- What a call hands out, or what it answered.
Ends-IsGiven :
    (os : Windows) (kind : Kind) (c : Call)
    → Ends (IsGiven os kind c) (IsAnswer os c) (acquire os kind c)
unfolding acquire next emit
Ends-IsGiven os kind c w = elim (Option-cases (os.answer w.tick c)) [
  | inl fine ↦ rw (acquire, fine) (omega arith, (w.tick, fine, refl))
  | inr (n, bad) ↦ rw (acquire, bad) (omega arith, (w.tick, n, bad, refl))
]

module _ (os : Windows) (sid : ℕ) (elevated : Bool) where
  -- Windows handed out the token of the session's user, said that it is of a type that is neither full
  -- nor limited, and not that it is elevated.
  abbrev pub HasNoElevatedToken : Type 0
  HasNoElevatedToken =
      (user : Resource) × IsGiven os of_token (query_user_token sid) user
      × ((kind : ℕ) × IsOfType os kind user × (kind ≢ 2) × (kind ≢ 3))
      × ((t : ℕ) × (os.is_elevated t ≡ false))

  -- What the errors that the supervisor tells apart say of the call.
  pub record IsTrue (e : Error) : Type 0 where
    pub elevation_asked :
        errors_is e err_no_elevated_token ≡ true → (elevated ≡ true) × HasNoElevatedToken
    pub nobody_there :
        errors_is e err_no_user_session ≡ true
        → (t : ℕ) × (n : ℕ) × (os.answer t (query_user_token sid) ≡ some n) × (n ≢ 1314)
    pub manifest_asked :
        errors_is e err_elevation_required ≡ true
        → (t : ℕ) × (c : Creation) × (os.answer t (create_process_as_user c) ≡ some 740)

  pub plain-IsTrue : (e : Error) → IsPlain e → IsTrue e
  plain-IsTrue e (a, b, c) = record {
    elevation_asked = λ h. absurd (cc (a, h));
    nobody_there = λ h. absurd (cc (b, h));
    manifest_asked = λ h. absurd (cc (c, h));
  }

  IsPlain-failed : (n : ℕ) → IsPlain (failed os n)
  unfolding errors_is cause_eq
  IsPlain-failed n = (ground arith, ground arith, ground arith)

  -- A new text around the error of a call says nothing of the three.
  pub IsTrue-wrap :
      (c : Call) (f : Error → Error)
      → ((e : Error) (x : Cause) → errors_is (f e) x ≡ errors_is e x)
      → (e : Error) → IsAnswer os c e
      → IsTrue (f e)
  IsTrue-wrap c f same e (t, n, _, is_n) =
      let (a, b, d) = IsPlain-failed n in
      plain-IsTrue (f e) (rw (is_n, same) a, rw (is_n, same) b, rw (is_n, same) d)

  query-IsTrue : (e : Error) → IsAnswer os (query_user_token sid) e → IsTrue (query_error sid e)
  unfolding query_error errors_is cause_eq
  query-IsTrue e (t, n, answered, is_n) = rw is_n (record {
    elevation_asked = λ h. absurd (ground (arith, h));
    nobody_there = λ h. (t, n, answered, λ q. absurd (ground (arith, h, q)));
    manifest_asked = λ h. absurd (ground (arith, h));
  })

  create-IsTrue :
      (c : Creation) (e : Error)
      → IsAnswer os (create_process_as_user c) e
      → IsTrue (create_error c.path e)
  unfolding create_error errors_is cause_eq
  create-IsTrue c e (t, n, answered, is_n) = rw is_n (record {
    elevation_asked = λ h. absurd (ground (arith, h));
    nobody_there = λ h. absurd (ground (arith, h));
    manifest_asked = λ h. (t, c, ground (arith, answered, h));
  })

  not_administrator-IsTrue : elevated ≡ true → HasNoElevatedToken → IsTrue (not_administrator sid)
  unfolding not_administrator errors_is cause_eq
  not_administrator-IsTrue asked lacking = record {
    elevation_asked = λ h. (asked, lacking);
    nobody_there = λ h. absurd (ground (arith, h));
    manifest_asked = λ h. absurd (ground (arith, h));
  }

  primary_of-Ends : (src : Resource) → Ends (IsTaken os) IsTrue (primary_of os src)
  unfolding primary_of errors_is
  primary_of-Ends src =
      Ends-named-acquire os IsTrue duplicate_error of_token (duplicate_token src)
        (IsTrue-wrap (duplicate_token src) duplicate_error (λ e x. refl))

  elevated_primary-Ends :
      elevated ≡ true
      → (user : Resource) (c : ElevationChoice) → (c ≡ elevate_impossible → HasNoElevatedToken)
      → Ends (IsTaken os) IsTrue (elevated_primary os sid user c)
  unfolding elevated_primary errors_is linked_error
  elevated_primary-Ends asked user elevate_with_token lacks = primary_of-Ends user
  elevated_primary-Ends asked user elevate_impossible lacks =
      Ends-fail (IsTaken os) IsTrue (not_administrator sid)
        (not_administrator-IsTrue asked (lacks refl))
  elevated_primary-Ends asked user elevate_with_linked lacks =
      Ends-bind (IsTaken os) (IsTaken os) IsTrue _ _
        (Ends-named-acquire os IsTrue (linked_error sid) of_token (get_linked_token user)
          (IsTrue-wrap (get_linked_token user) (linked_error sid) (λ e x. refl)))
        (λ linked _.
          Ends-closing os (IsTaken os) IsTrue (primary_of os linked) linked
            (primary_of-Ends linked))

  primary_token-Ends :
      (b : Bool)
      → b ≡ elevated
      → (user : Resource) → IsGiven os of_token (query_user_token sid) user
      → Ends (IsTaken os) IsTrue (primary_token os sid b user)
  unfolding primary_token chosen_primary errors_is elevation_type_error
  primary_token-Ends false e user given = primary_of-Ends user
  primary_token-Ends true e user given =
      Ends-bind (IsSaid os (get_elevation_type user) os.elevation_type) (IsTaken os) IsTrue _ _
        (Ends-named-read os IsTrue (elevation_type_error sid) (get_elevation_type user)
          os.elevation_type
          (IsTrue-wrap (get_elevation_type user) (elevation_type_error sid) (λ x y. refl)))
        (λ kind (t, granted, said) w.
          let c = choose_elevation kind (os.is_elevated w.tick) in
          Ends-next (IsTaken os) IsTrue (elevated_primary os sid user c)
            (elevated_primary-Ends (sym e) user c λ impossible.
              let (not_full, not_limited, low) =
                (choose_elevation_exact kind (os.is_elevated w.tick)).0.0 impossible in
              (user, given, (kind, (t, granted, sym said), not_full, not_limited), (w.tick, low)))
            w)

  pub user_token-Ends : Ends (IsTaken os) IsTrue (user_token os sid elevated)
  unfolding user_token
  user_token-Ends =
      Ends-bind (IsGiven os of_token (query_user_token sid)) (IsTaken os) IsTrue _ _
        (Ends-named os (IsGiven os of_token (query_user_token sid))
          (IsAnswer os (query_user_token sid)) (acquire os of_token (query_user_token sid)) IsTrue
          (query_error sid) query-IsTrue (Ends-IsGiven os of_token (query_user_token sid)))
        (λ user given.
          Ends-closing os (IsTaken os) IsTrue (primary_token os sid elevated user) user
            (primary_token-Ends elevated refl user given))

  -- The handles of a process that was launched are ones that Windows gave out.
  abbrev pub IsLaunched : Process → Type 0
  IsLaunched p = IsHandle os p.handle × IsHandle os p.job

  job_step-Ends :
      (job process : ℕ) (f : Error → Error) (c : Call)
      → ((e : Error) (x : Cause) → errors_is (f e) x ≡ errors_is e x)
      → Ends Any IsTrue
          (or_kill os (process_of process) (both os job process) (named os f (ask os c)))
  job_step-Ends job process f c same =
      Ends-or_kill os Any IsTrue (named os f (ask os c)) (process_of process) (both os job process)
        (Ends-named-ask os IsTrue f c (IsTrue-wrap c f same))

  start-Ends :
      (job : ℕ) (p : Created)
      → IsHandle os job
      → IsHandle os p.process
      → Ends IsLaunched IsTrue (start os job p)
  unfolding start put_in_job let_run errors_is
  start-Ends job p j q =
      Ends-bind Any IsLaunched IsTrue _ _ (job_step-Ends job p.process _ _ (λ e x. refl)) λ _ _.
        Ends-bind Any IsLaunched IsTrue _ _ (job_step-Ends job p.process _ _ (λ e x. refl)) λ _ _.
          Ends-pure IsLaunched IsTrue (record { pid = p.process_id; handle = p.process; job = job })
            (q, j)

  pub launch_in_job-Ends :
      (o : LaunchOptions) (tok block : Resource) (job : ℕ)
      → IsHandle os job
      → Ends IsLaunched IsTrue (launch_in_job os o tok block job)
  unfolding launch_in_job limit_job create_in errors_is creation
  launch_in_job-Ends o tok block job j =
      Ends-bind Any IsLaunched IsTrue _ _
        (Ends-or_release os Any IsTrue _ (job_of job ∷ []) (
          Ends-named-ask os IsTrue (wrap "SetInformationJobObject: %w" [])
            (set_kill_on_close (job_of job))
            (IsTrue-wrap (set_kill_on_close (job_of job)) (wrap "SetInformationJobObject: %w" [])
              (λ e x. refl))))
        λ _ _.
          let c = creation os o tok block in
          Ends-bind (λ p. IsHandle os p.process) IsLaunched IsTrue _ _
            (Ends-or_release os (λ p. IsHandle os p.process) IsTrue _ (job_of job ∷ [])
              (Ends-named os (λ p. IsHandle os p.process) (IsAnswer os (create_process_as_user c))
                (create_process os c) IsTrue (create_error o.path) (create-IsTrue c)
                (Ends-create_process os c)))
            λ p q.
              Ends-closing os IsLaunched IsTrue (start os job p) (thread_of p.thread)
                (start-Ends job p j q)
