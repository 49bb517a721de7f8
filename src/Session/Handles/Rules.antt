-- ===== src/Session/Handles/Rules.antt =====
-- One rule for each way to build an effect: from the accounts of the parts to that of the whole.
use winsvr.Base.{ℕ, ◌≡◌, refl, arith, List, [], ◌∷◌, ◌++◌, Option-cases, inl, inr}
use winsvr.Go.Error.{Error, Result, ok, err}
use winsvr.Go.World.{World, next, Kind, of_job, Resource, terminated}
use winsvr.Go.Exec.{Exec, ◌>>=◌, continue}
use winsvr.Go.Os.{emit}
use winsvr.Session.Windows.{
  Windows, Call, create_process_as_user, job_of, process_of, thread_of, Creation, ask, read,
  acquire, create_process, release, release_all, terminate, closing, clean_up, or_release, kill,
  or_kill, rename, named,
}
use winsvr.Session.Handles.{
  times_held, times_held-append, owned, Trades, Keeps, nothing, Trades-next, Trades-acquire,
  Trades-release, Trades-terminate, Trades-acquire_two,
}

module _ {A : Type 0} where
  pub Keeps-pure : (f : A → List Resource) (a : A) → Keeps (f a) f (λ w. (ok a, w))
  Keeps-pure f a w h = refl

  pub Keeps-fail : (f : A → List Resource) (e : Error) → Keeps [] f (λ w. (err e, w))
  Keeps-fail f e w h = refl

  -- The order of what is held does not matter.
  pub Keeps-perm :
      (hs ks : List Resource) (f : A → List Resource) (m : Exec A)
      → ((h : Resource) → times_held h hs ≡ times_held h ks)
      → Keeps hs f m
      → Keeps ks f m
  Keeps-perm hs ks f m e p w h = omega (arith, e h, p w h)

  pub Keeps-next :
      (f : A → List Resource) (m : Exec A) → Keeps [] f m → Keeps [] f (λ w. m (next w))
  Keeps-next f m p w h = omega (arith, Trades-next w h, p (next w) h)

module _ {A B : Type 0} where
  pub Keeps-bind :
      (hs : List Resource) (f : A → List Resource) (g : B → List Resource) (m : Exec A)
      (k : A → Exec B)
      → Keeps hs f m
      → ((a : A) → Keeps (f a) g (k a))
      → Keeps hs g (m >>= k)
  unfolding ◌>>=◌ continue
  Keeps-bind hs f g m k p q w = go (m w).0 (m w).1 (p w)
    where
      go :
          (r : Result A) (w' : World)
          → Trades hs (owned f r) w w'
          → Trades hs (owned g (continue r k w').0) w (continue r k w').1
      go (ok a) w' t h = omega (arith, t h, q a w' h)
      go (err e) w' t h = t h

module _ (os : Windows) where
  pub Keeps-ask : (c : Call) → Keeps [] nothing (ask os c)
  unfolding ask
  Keeps-ask c w = elim (Option-cases (os.answer w.tick c)) [
    | inl fine ↦ rw (ask, fine) (Trades-next w)
    | inr (n, bad) ↦ rw (ask, bad) (Trades-next w)
  ]

  pub Keeps-read : {A : Type 0} (c : Call) (says : ℕ → A) → Keeps [] nothing (read os c says)
  unfolding read
  Keeps-read c says w = elim (Option-cases (os.answer w.tick c)) [
    | inl fine ↦ rw (read, fine) (Trades-next w)
    | inr (n, bad) ↦ rw (read, bad) (Trades-next w)
  ]

  pub Keeps-acquire : (kind : Kind) (c : Call) → Keeps [] (λ r. r ∷ []) (acquire os kind c)
  unfolding acquire
  Keeps-acquire kind c w = elim (Option-cases (os.answer w.tick c)) [
    | inl fine ↦ rw (acquire, fine) (Trades-acquire _ w)
    | inr (n, bad) ↦ rw (acquire, bad) (Trades-next w)
  ]

  -- The same, from the handle: a job is known by its value.
  pub Keeps-acquire_job : (c : Call) → Keeps [] (λ r. job_of r.value ∷ []) (acquire os of_job c)
  unfolding acquire
  Keeps-acquire_job c w = elim (Option-cases (os.answer w.tick c)) [
    | inl fine ↦ rw (acquire, fine) (Trades-acquire _ w)
    | inr (n, bad) ↦ rw (acquire, bad) (Trades-next w)
  ]

  pub Keeps-create_process :
      (c : Creation)
      → Keeps [] (λ p. process_of p.process ∷ thread_of p.thread ∷ []) (create_process os c)
  unfolding create_process
  Keeps-create_process c w = elim (Option-cases (os.answer w.tick (create_process_as_user c))) [
    | inl fine ↦ rw (create_process, fine) (Trades-acquire_two _ _ w)
    | inr (n, bad) ↦ rw (create_process, bad) (Trades-next w)
  ]

  pub Trades-release_all : (rs : List Resource) (w : World) → Trades rs [] w (release_all os rs w)
  unfolding release_all release
  Trades-release_all [] w h = omega arith
  Trades-release_all (r ∷ rs) w h =
      omega (arith, Trades-release r w h, Trades-release_all rs (release os r w) h)

  module _ {A : Type 0} where
    pub Keeps-closing :
        (r : Resource) (hs : List Resource) (f : A → List Resource) (m : Exec A)
        → Keeps hs f m
        → Keeps (r ∷ hs) f (closing os r m)
    unfolding closing release
    Keeps-closing r hs f m p w h = omega (arith, p w h, Trades-release r (m w).1 h)

    pub Keeps-or_release :
        (rs : List Resource) (f : A → List Resource) (m : Exec A)
        → Keeps [] f m
        → Keeps rs (λ a. rs ++ f a) (or_release os rs m)
    unfolding or_release clean_up
    Keeps-or_release rs f m p w = go (m w).0 (m w).1 (p w)
      where
        go :
            (r : Result A) (w' : World)
            → Trades [] (owned f r) w w'
            → Trades rs
                (owned (λ a. rs ++ f a) (clean_up os rs (r, w')).0)
                w
                (clean_up os rs (r, w')).1
        go (ok a) w' t h = omega (arith, t h, times_held-append h rs (f a))
        go (err e) w' t h = omega (arith, t h, Trades-release_all rs w' h)

    pub Keeps-or_kill :
        (v : Resource) (rs : List Resource) (f : A → List Resource) (m : Exec A)
        → Keeps [] f m
        → Keeps rs (λ a. rs ++ f a) (or_kill os v rs m)
    unfolding or_kill kill terminate
    Keeps-or_kill v rs f m p w = go (m w).0 (m w).1 (p w)
      where
        go :
            (r : Result A) (w' : World)
            → Trades [] (owned f r) w w'
            → Trades rs (owned (λ a. rs ++ f a) (kill os v rs (r, w')).0) w (kill os v rs (r, w')).1
        go (ok a) w' t h = omega (arith, t h, times_held-append h rs (f a))
        go (err e) w' t h = omega (
          arith,
          t h,
          Trades-terminate v w' h,
          Trades-release_all rs (next (emit (terminated v) w')) h,
        )

    pub Keeps-named :
        (hs : List Resource) (f : A → List Resource) (g : Error → Error) (m : Exec A)
        → Keeps hs f m
        → Keeps hs f (named os g m)
    unfolding named rename
    Keeps-named hs f g m p w = go (m w).0 (m w).1 (p w)
      where
        go :
            (r : Result A) (w' : World)
            → Trades hs (owned f r) w w'
            → Trades hs (owned f (rename os g (r, w')).0) w (rename os g (r, w')).1
        go (ok a) w' t = t
        go (err e) w' t = t
