-- ===== src/Session/Rights.antt =====
-- Whose rights the token has that userToken of session_windows.go makes.
pub mod Launches
use winsvr.Base.{
  ℕ, ◌≤◌, ◌≡◌, refl, ap, subst, ◌⊎◌, inl, inr, true, false, Bool, none, some, [], ◌∷◌, arith,
  Option-cases, Bool-cases, ◌==◌,
}
use winsvr.Go.Error.{Error, wrap, Result, ok, err}
use winsvr.Go.World.{World, next, Kind, Resource, of_token, of_block, of_job}
use winsvr.Go.Exec.{Exec}
use winsvr.Go.Os.{emit}
use winsvr.Elevation.{
  ElevationChoice, elevate_impossible, elevate_with_token, elevate_with_linked, choose_elevation,
  elevation_full, elevation_limited,
}
use winsvr.Supervisor.Config.{LaunchOptions, Process}
use winsvr.Session.Windows.{
  Windows, Call, query_user_token, get_elevation_type, get_linked_token, duplicate_token,
  create_environment_block, create_job, create_process_as_user, set_kill_on_close, assign_to_job,
  resume_thread, Created, Creation, job_of, process_of, thread_of, acquire, read, ask,
  create_process, closing, named,
}
use winsvr.Session.Verdicts.{
  Verdict, Ends, Any, IsSaid, IsAnswer, Ends-pure, Ends-fail, Ends-next, Ends-bind, Ends-ask,
  Ends-read, Ends-named, Ends-closing, Ends-or_release, Ends-or_kill,
}
use winsvr.Session.Token.{
  query_error, elevation_type_error, linked_error, not_administrator, duplicate_error, primary_of,
  elevated_primary, chosen_primary, primary_token, user_token,
}
use winsvr.Session.Launch.{
  creation, both, create_error, put_in_job, let_run, start, limit_job, create_in, launch_in_job,
  launch_with_block, launch_with_token, launch_checked, refuse_options, launch_in_session,
}

Ends-more :
    {A : Type 0} (P R : A → Type 0) (m : Exec A)
    → ((a : A) → P a → R a)
    → Ends P Any m
    → Ends R Any m
Ends-more {A} P R m more ends w = go (m w).0 (m w).1 (ends w).0 (ends w).1
  where
    go :
        (r : Result A) (w' : World)
        → w.tick ≤ w'.tick
        → Verdict P Any r
        → (w.tick ≤ w'.tick) × Verdict R Any r
    go (ok a) w' t v = (t, more a v)
    go (err e) w' t v = (t, tt)

module _ (os : Windows) where
  -- Windows granted a call that hands out a resource.
  abbrev pub IsGiven : Kind → Call → Resource → Type 0
  IsGiven kind c r =
      (t : ℕ) × (os.answer t c ≡ none) × (r ≡ record { kind = kind; value = os.handle t })

  pub Ends-IsGiven :
      (f : Error → Error) (kind : Kind) (c : Call)
      → Ends (IsGiven kind c) Any (named os f (acquire os kind c))
  unfolding acquire next emit
  Ends-IsGiven f kind c =
      Ends-named os (IsGiven kind c) Any (acquire os kind c) Any f (λ e q. tt)
        λ w. elim (Option-cases (os.answer w.tick c)) [
          | inl fine ↦ rw (acquire, fine) (omega arith, (w.tick, fine, refl))
          | inr (n, bad) ↦ rw (acquire, bad) (omega arith, tt)
        ]

  -- Windows granted a call.
  abbrev pub IsGranted : Call → Type 0
  IsGranted c = (t : ℕ) × (os.answer t c ≡ none)

  pub Ends-IsGranted :
      (f : Error → Error) (c : Call)
      → Ends (λ (d : Unit {0}). IsGranted c) Any (named os f (ask os c))
  unfolding ask next
  Ends-IsGranted f c =
      Ends-named os (λ (d : Unit {0}). IsGranted c) Any (ask os c) Any f (λ e q. tt)
        λ w. elim (Option-cases (os.answer w.tick c)) [
          | inl fine ↦ rw (ask, fine) (omega arith, (w.tick, fine))
          | inr (n, bad) ↦ rw (ask, bad) (omega arith, tt)
        ]

  -- Windows said that a token is of a type.
  abbrev pub IsOfType : ℕ → Resource → Type 0
  IsOfType kind tok =
      (t : ℕ) × (os.answer t (get_elevation_type tok) ≡ none) × (os.elevation_type t ≡ kind)

  -- The token that the one of the user is duplicated from. Elevated, it is the user's own where that is
  -- elevated, or else the one that is linked to a limited one.
  abbrev pub IsSource : Bool → Resource → Resource → Type 0
  IsSource false user src = src ≡ user
  IsSource true user src =
      ((src ≡ user) × (IsOfType elevation_full user ⊎ ((t : ℕ) × (os.is_elevated t ≡ true))))
      ⊎ (IsOfType elevation_limited user × IsGiven of_token (get_linked_token user) src)

  -- A duplicate of such a token of the user of a session.
  abbrev pub IsTokenFor : ℕ → Bool → Resource → Type 0
  IsTokenFor sid elevated tok =
      (user : Resource) × (src : Resource) × IsGiven of_token (query_user_token sid) user
      × IsSource elevated user src
      × IsGiven of_token (duplicate_token src) tok

  module _ (sid : ℕ) (user : Resource) (given : IsGiven of_token (query_user_token sid) user) where
    primary_of-Ends :
        (elevated : Bool) (src : Resource)
        → IsSource elevated user src
        → Ends (IsTokenFor sid elevated) Any (primary_of os src)
    unfolding primary_of
    primary_of-Ends elevated src source =
        Ends-more (IsGiven of_token (duplicate_token src)) (IsTokenFor sid elevated)
          (named os duplicate_error (acquire os of_token (duplicate_token src)))
          (λ tok dup. (user, src, given, source, dup))
          (Ends-IsGiven duplicate_error of_token (duplicate_token src))

    elevated_primary-Ends :
        (kind : ℕ) (elevated : Bool)
        → IsSaid os (get_elevation_type user) os.elevation_type kind
        → ((t : ℕ) × (elevated ≡ os.is_elevated t))
        → Ends
            (IsTokenFor sid true)
            Any
            (elevated_primary os sid user (choose_elevation kind elevated))
    unfolding elevated_primary choose_elevation
    elevated_primary-Ends kind elevated (t, granted, said) (t', told) =
        elim (Bool-cases (kind == elevation_full)) [
          | inl full ↦
              rw full (
                primary_of-Ends true user
                  (inl (refl, inl (t, granted, ground (arith, full, said)))))
          | inr not_full ↦ elim (Bool-cases (kind == elevation_limited)) [
            | inl limited ↦
                rw (not_full, limited)
                  (Ends-bind (IsGiven of_token (get_linked_token user)) (IsTokenFor sid true) Any _
                    _ (Ends-IsGiven (linked_error sid) of_token (get_linked_token user))
                    λ linked fetched.
                      Ends-closing os (IsTokenFor sid true) Any (primary_of os linked) linked (
                        primary_of-Ends true linked
                          (inr ((t, granted, ground (arith, limited, said)), fetched))))
            | inr not_limited ↦ elim (Bool-cases elevated) [
              | inl high ↦
                  rw (not_full, not_limited, high)
                    (primary_of-Ends true user (inl (refl, inr (t', ground (arith, high, told)))))
              | inr low ↦
                  rw (not_full, not_limited, low)
                    (Ends-fail (IsTokenFor sid true) Any (not_administrator sid) tt)
            ]
          ]
        ]

    primary_token-Ends :
        (elevated : Bool) → Ends (IsTokenFor sid elevated) Any (primary_token os sid elevated user)
    unfolding primary_token chosen_primary next
    primary_token-Ends false = primary_of-Ends false user refl
    primary_token-Ends true =
        Ends-bind (IsSaid os (get_elevation_type user) os.elevation_type) (IsTokenFor sid true) Any
          _ _
          (Ends-named os (IsSaid os (get_elevation_type user) os.elevation_type)
            (IsAnswer os (get_elevation_type user))
            (read os (get_elevation_type user) os.elevation_type) Any (elevation_type_error sid)
            (λ e q. tt) (Ends-read os (get_elevation_type user) os.elevation_type))
          λ kind (t, granted, said) w.
            let (later, verdict) =
              elevated_primary-Ends kind (os.is_elevated w.tick) (t, granted, said) (w.tick, refl)
                (next w) in
            (omega (arith, later), verdict)

  pub user_token-Ends :
      (sid : ℕ) (elevated : Bool) → Ends (IsTokenFor sid elevated) Any (user_token os sid elevated)
  unfolding user_token
  user_token-Ends sid elevated =
      Ends-bind (IsGiven of_token (query_user_token sid)) (IsTokenFor sid elevated) Any _ _
        (Ends-IsGiven (query_error sid) of_token (query_user_token sid))
        λ user given.
          Ends-closing os (IsTokenFor sid elevated) Any (primary_token os sid elevated user) user
            (primary_token-Ends sid user given elevated)
