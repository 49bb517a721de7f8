-- ===== src/Session/Verdicts.antt =====
-- What holds of an effect of session_windows.go wherever it starts: time does not run backwards, and
-- its result or its error is as `P` or `Q` says. One rule for each way to build an effect.
use winsvr.Base.{ℕ, ◌≤◌, ◌≡◌, refl, arith, Option-cases, inl, inr, none, some, List, [], ◌∷◌}
use winsvr.Go.Error.{Error, Result, ok, err}
use winsvr.Go.World.{World, next, Kind, Resource, terminated}
use winsvr.Go.Exec.{Exec, ◌>>=◌, continue}
use winsvr.Go.Os.{emit}
use winsvr.Session.Windows.{
  Windows, Call, create_process_as_user, Creation, failed, ask, read, acquire, create_process,
  release, release_all, terminate, closing, clean_up, or_release, kill, or_kill, rename, named,
}

module _ {A : Type 0} (P : A → Type 0) (Q : Error → Type 0) where
  abbrev pub Verdict : Result A → Type 0
  Verdict (ok a) = P a
  Verdict (err e) = Q e

  abbrev pub Ends : Exec A → Type 0
  Ends m = (w : World) → (w.tick ≤ (m w).1.tick) × Verdict (m w).0

abbrev pub Any : {A : Type 0} → A → Type 0
Any a = Unit

module _ {A : Type 0} (P : A → Type 0) (Q : Error → Type 0) where
  pub Ends-pure : (a : A) → P a → Ends P Q (λ w. (ok a, w))
  Ends-pure a p w = (omega arith, p)

  pub Ends-fail : (e : Error) → Q e → Ends P Q (λ w. (err e, w))
  Ends-fail e q w = (omega arith, q)

  pub Ends-next : (m : Exec A) → Ends P Q m → Ends P Q (λ w. m (next w))
  unfolding next
  Ends-next m p w = let (t, v) = p (next w) in (omega (arith, t), v)

pub Ends-bind :
    {A B : Type 0} (P : A → Type 0) (R : B → Type 0) (Q : Error → Type 0) (m : Exec A)
    (k : A → Exec B)
    → Ends P Q m
    → ((a : A) → P a → Ends R Q (k a))
    → Ends R Q (m >>= k)
unfolding ◌>>=◌ continue
Ends-bind P R Q m k p q w = go (m w).0 (m w).1 (p w).0 (p w).1
  where
    go :
        (r : Result _) (w' : World)
        → w.tick ≤ w'.tick
        → Verdict P Q r
        → (w.tick ≤ (continue r k w').1.tick) × Verdict R Q (continue r k w').0
    go (ok a) w' t v = let (t', v') = q a v w' in (omega (arith, t, t'), v')
    go (err e) w' t v = (t, v)

module _ (os : Windows) where
  -- The error of a call is one that Windows answered.
  abbrev pub IsAnswer : Call → Error → Type 0
  IsAnswer c e = (t : ℕ) × (n : ℕ) × (os.answer t c ≡ some n) × (e ≡ failed os n)

  pub Ends-ask : (c : Call) → Ends Any (IsAnswer c) (ask os c)
  unfolding ask next
  Ends-ask c w = elim (Option-cases (os.answer w.tick c)) [
    | inl fine ↦ rw (ask, fine) (omega arith, tt)
    | inr (n, bad) ↦ rw (ask, bad) (omega arith, (w.tick, n, bad, refl))
  ]

  abbrev pub IsSaid : {A : Type 0} → Call → (ℕ → A) → A → Type 0
  IsSaid c says a = (t : ℕ) × (os.answer t c ≡ none) × (a ≡ says t)

  -- A call that says something says it of its own moment.
  pub Ends-read :
      {A : Type 0} (c : Call) (says : ℕ → A) → Ends (IsSaid c says) (IsAnswer c) (read os c says)
  unfolding read next
  Ends-read c says w = elim (Option-cases (os.answer w.tick c)) [
    | inl fine ↦ rw (read, fine) (omega arith, (w.tick, fine, refl))
    | inr (n, bad) ↦ rw (read, bad) (omega arith, (w.tick, n, bad, refl))
  ]

  abbrev pub IsHandle : ℕ → Type 0
  IsHandle v = (t : ℕ) × (v ≡ os.handle t)

  abbrev pub IsTaken : Resource → Type 0
  IsTaken r = IsHandle r.value

  pub Ends-acquire : (kind : Kind) (c : Call) → Ends IsTaken (IsAnswer c) (acquire os kind c)
  unfolding acquire next emit
  Ends-acquire kind c w = elim (Option-cases (os.answer w.tick c)) [
    | inl fine ↦ rw (acquire, fine) (omega arith, (w.tick, refl))
    | inr (n, bad) ↦ rw (acquire, bad) (omega arith, (w.tick, n, bad, refl))
  ]

  pub Ends-create_process :
      (c : Creation)
      → Ends (λ p. IsHandle p.process) (IsAnswer (create_process_as_user c)) (create_process os c)
  unfolding create_process next emit
  Ends-create_process c w = elim (Option-cases (os.answer w.tick (create_process_as_user c))) [
    | inl fine ↦ rw (create_process, fine) (omega arith, (w.tick, refl))
    | inr (n, bad) ↦ rw (create_process, bad) (omega arith, (w.tick, n, bad, refl))
  ]

  pub forward-release : (r : Resource) (w : World) → w.tick ≤ (release os r w).tick
  unfolding release next emit
  forward-release r w = omega arith

  pub forward-release_all : (rs : List Resource) (w : World) → w.tick ≤ (release_all os rs w).tick
  unfolding release_all
  forward-release_all [] w = omega arith
  forward-release_all (r ∷ rs) w =
      omega (arith, forward-release r w, forward-release_all rs (release os r w))

  module _ {A : Type 0} (P : A → Type 0) (Q : Error → Type 0) (m : Exec A) where
    pub Ends-closing : (r : Resource) → Ends P Q m → Ends P Q (closing os r m)
    unfolding closing
    Ends-closing r p w = let (t, v) = p w in (omega (arith, t, forward-release r (m w).1), v)

    pub Ends-or_release : (rs : List Resource) → Ends P Q m → Ends P Q (or_release os rs m)
    unfolding or_release clean_up
    Ends-or_release rs p w = go (m w).0 (m w).1 (p w).0 (p w).1
      where
        go :
            (r : Result A) (w' : World)
            → w.tick ≤ w'.tick
            → Verdict P Q r
            → (w.tick ≤ (clean_up os rs (r, w')).1.tick) × Verdict P Q (clean_up os rs (r, w')).0
        go (ok a) w' t v = (t, v)
        go (err e) w' t v = (omega (arith, t, forward-release_all rs w'), v)

    pub Ends-or_kill :
        (x : Resource) (rs : List Resource) → Ends P Q m → Ends P Q (or_kill os x rs m)
    unfolding or_kill kill terminate next emit
    Ends-or_kill x rs p w = go (m w).0 (m w).1 (p w).0 (p w).1
      where
        go :
            (r : Result A) (w' : World)
            → w.tick ≤ w'.tick
            → Verdict P Q r
            → (w.tick ≤ (kill os x rs (r, w')).1.tick) × Verdict P Q (kill os x rs (r, w')).0
        go (ok a) w' t v = (t, v)
        go (err e) w' t v =
            (omega (arith, t, forward-release_all rs (next (emit (terminated x) w'))), v)

    -- The error under its new name.
    pub Ends-named :
        (R : Error → Type 0) (f : Error → Error)
        → ((e : Error) → Q e → R (f e))
        → Ends P Q m
        → Ends P R (named os f m)
    unfolding named rename
    Ends-named R f q p w = go (m w).0 (m w).1 (p w).0 (p w).1
      where
        go :
            (r : Result A) (w' : World)
            → w.tick ≤ w'.tick
            → Verdict P Q r
            → (w.tick ≤ (rename os f (r, w')).1.tick) × Verdict P R (rename os f (r, w')).0
        go (ok a) w' t v = (t, v)
        go (err e) w' t v = (t, q e v)

  -- A named call that hands out a resource, and one that says something.
  pub Ends-named-acquire :
      (R : Error → Type 0) (f : Error → Error) (kind : Kind) (c : Call)
      → ((e : Error) → IsAnswer c e → R (f e))
      → Ends IsTaken R (named os f (acquire os kind c))
  Ends-named-acquire R f kind c q =
      Ends-named IsTaken (IsAnswer c) (acquire os kind c) R f q (Ends-acquire kind c)

  pub Ends-named-read :
      {A : Type 0} (R : Error → Type 0) (f : Error → Error) (c : Call) (says : ℕ → A)
      → ((e : Error) → IsAnswer c e → R (f e))
      → Ends (IsSaid c says) R (named os f (read os c says))
  Ends-named-read R f c says q =
      Ends-named (IsSaid c says) (IsAnswer c) (read os c says) R f q (Ends-read c says)

  pub Ends-named-ask :
      (R : Error → Type 0) (f : Error → Error) (c : Call)
      → ((e : Error) → IsAnswer c e → R (f e))
      → Ends Any R (named os f (ask os c))
  Ends-named-ask R f c q = Ends-named Any (IsAnswer c) (ask os c) R f q (Ends-ask c)
