-- ===== src/Session/Console/Finds.antt =====
-- What ActiveConsoleSession finds, and that it gives back what it takes out.
use winsvr.Base.{
  ℕ, ◌+◌, ◌≤◌, ◌&&◌, ◌||◌, ◌≡◌, ◌≢◌, ◌⊎◌, inl, inr, refl, subst, Bool, true, false, not, Bool-cases,
  Option-cases, some, none, arith, List, [], ◌∷◌, ◌==◌,
}
use winsvr.Go.Error.{Result, ok, err, errors_is, cause_eq}
use winsvr.Go.World.{World, next, Resource, of_token, of_list}
use winsvr.Session.Windows.{
  Windows, SessionInfo, query_user_token, enumerate_sessions, acquire, release,
}
use winsvr.Session.Handles.{owned, Trades, Trades-next, Trades-release}
use winsvr.Session.Handles.Rules.{Keeps-acquire}
use winsvr.Session.Verdicts.{Ends-acquire, forward-release}
use winsvr.Session.Console.{
  no_session, checked_user, has_signed_in_user, first_signed_in, search_sessions, other_session,
  active_console_session,
}

-- The sessions of the list have an active one of this number.
unfoldable pub is_listed : ℕ → List SessionInfo → Bool
is_listed sid [] = false
is_listed sid (s ∷ rest) = s.is_active && s.session_id == sid || is_listed sid rest

module _ (os : Windows) where
  -- Asked for the user's token of the session, Windows gave one, or would not let the caller ask.
  abbrev pub IsSignedIn : ℕ → Type 0
  IsSignedIn sid =
      (t : ℕ) × ((os.answer t (query_user_token sid) ≡ none)
        ⊎ (os.answer t (query_user_token sid) ≡ some 1314))

  -- What holds of a step from `w` to `w'`: it takes nothing out, and time does not run backwards.
  abbrev pub Passes : World → World → Type 0
  Passes w w' = (w.tick ≤ w'.tick) × Trades [] [] w w'

  Passes-trans : (w1 w2 w3 : World) → Passes w1 w2 → Passes w2 w3 → Passes w1 w3
  Passes-trans w1 w2 w3 (a, s) (b, t) = (omega (arith, a, b), λ h. omega (arith, s h, t h))

  has_signed_in_user-Passes : (sid : ℕ) (w : World) → Passes w (has_signed_in_user os sid w).1
  unfolding has_signed_in_user checked_user release
  has_signed_in_user-Passes sid w =
      go (acquire os of_token (query_user_token sid) w).0
        (acquire os of_token (query_user_token sid) w).1
        (Ends-acquire os of_token (query_user_token sid) w).0
        (Keeps-acquire os of_token (query_user_token sid) w)
    where
      go :
          (r : Result Resource) (w' : World)
          → w.tick ≤ w'.tick
          → Trades [] (owned (λ x. x ∷ []) r) w w'
          → Passes w (checked_user os r w').1
      go (ok tok) w' le t = (
        omega (arith, le, forward-release os tok w'),
        λ h. omega (arith, t h, Trades-release tok w' h),
      )
      go (err e) w' le t = (le, t)

  has_signed_in_user-IsSignedIn :
      (sid : ℕ) (w : World) → (has_signed_in_user os sid w).0 ≡ true → IsSignedIn sid
  unfolding has_signed_in_user checked_user acquire errors_is cause_eq
  has_signed_in_user-IsSignedIn sid w h =
      elim (Option-cases (os.answer w.tick (query_user_token sid))) [
        | inl fine ↦ (w.tick, inl fine)
        | inr (n, bad) ↦ (w.tick, inr (ground (arith, bad, h)))
      ]

  first_signed_in-Passes :
      (console : ℕ) (found : List SessionInfo) (w : World)
      → Passes w (first_signed_in os console found w).1
  unfolding first_signed_in
  first_signed_in-Passes console [] w = (omega arith, λ h. omega arith)
  first_signed_in-Passes console (s ∷ rest) w =
      let (le, t) = has_signed_in_user-Passes s.session_id w in
      let (le', t') = first_signed_in-Passes console rest w in
      let w1 = (has_signed_in_user os s.session_id w).1 in
      let (le2, t2) = first_signed_in-Passes console rest w1 in
      (ground (arith, le, le', le2), λ h. ground (arith, t h, t' h, t2 h))

  -- The session that the loop stops at is a listed active one, is not the console's, and is in use.
  abbrev pub IsOther : ℕ → List SessionInfo → ℕ → Type 0
  IsOther console found sid = IsSignedIn sid × (is_listed sid found ≡ true) × (sid ≢ console)

  first_signed_in-IsOther :
      (console : ℕ) (found : List SessionInfo) (w : World) (sid : ℕ)
      → (first_signed_in os console found w).0 ≡ some sid
      → IsOther console found sid
  unfolding first_signed_in is_listed
  first_signed_in-IsOther console [] w sid h = absurd (cc)
  first_signed_in-IsOther console (s ∷ rest) w sid h =
      let w1 = (has_signed_in_user os s.session_id w).1 in
      elim (Bool-cases (s.is_active && not (s.session_id == console))) [
        | inr skip ↦
            let (a, b, c) = first_signed_in-IsOther console rest w sid (ground (arith, h, skip)) in
            (a, ground (arith, b), c)
        | inl test ↦ elim (Bool-cases (has_signed_in_user os s.session_id w).0) [
          | inl in_use ↦ (
            subst IsSignedIn (ground (arith, h, test, in_use))
                (has_signed_in_user-IsSignedIn s.session_id w in_use),
            ground (arith, h, test, in_use),
            ground (arith, h, test, in_use),
          )
          | inr unused ↦
              let (a, b, c) =
                first_signed_in-IsOther console rest w1 sid (ground (arith, h, test, unused)) in
              (a, ground (arith, b), c)
        ]
      ]

  other_session-Passes : (console : ℕ) (w : World) → Passes w (other_session os console w).1
  unfolding other_session search_sessions release
  other_session-Passes console w =
      go (acquire os of_list enumerate_sessions w).0 (acquire os of_list enumerate_sessions w).1
        (Ends-acquire os of_list enumerate_sessions w).0
        (Keeps-acquire os of_list enumerate_sessions w)
    where
      go :
          (r : Result Resource) (w' : World)
          → w.tick ≤ w'.tick
          → Trades [] (owned (λ x. x ∷ []) r) w w'
          → Passes w (search_sessions os console r (os.sessions w.tick) w').1
      go (ok block) w' le t =
          let (le', t') = first_signed_in-Passes console (os.sessions w.tick) w' in
          let w2 = (first_signed_in os console (os.sessions w.tick) w').1 in
          (
            omega (arith, le, le', forward-release os block w2),
            λ h. omega (arith, t h, t' h, Trades-release block w2 h),
          )
      go (err e) w' le t = (le, t)

  tick-next : (w : World) → (next w).tick ≡ w.tick + 1
  unfolding next
  tick-next w = refl

  -- ActiveConsoleSession closes every token and frees every list that it was given, and time does not
  -- run backwards in it.
  pub active_console_session-Passes : (w : World) → Passes w (active_console_session os w).1
  unfolding active_console_session
  active_console_session-Passes w =
      let w0 = next w in
      let console = os.console w.tick in
      let w1 = (has_signed_in_user os console w0).1 in
      let (le1, t1) = has_signed_in_user-Passes console w0 in
      let (le2, t2) = other_session-Passes console w0 in
      let (le3, t3) = other_session-Passes console w1 in
      let le0 = tick-next w in
      (ground (arith, le0, le1, le2, le3), λ h. ground (arith, Trades-next w h, t1 h, t2 h, t3 h))

  other_session-IsOther :
      (console : ℕ) (w : World) (sid : ℕ)
      → (other_session os console w).0 ≡ some sid
      → IsOther console (os.sessions w.tick) sid
  unfolding other_session search_sessions
  other_session-IsOther console w sid h =
      go (acquire os of_list enumerate_sessions w).0 (acquire os of_list enumerate_sessions w).1 h
    where
      go :
          (r : Result Resource) (w' : World)
          → (search_sessions os console r (os.sessions w.tick) w').0 ≡ some sid
          → IsOther console (os.sessions w.tick) sid
      go (ok block) w' found = first_signed_in-IsOther console (os.sessions w.tick) w' sid found
      go (err e) w' found = absurd (cc)

  -- What is found at the console, or else in the list.
  abbrev pub IsFound : ℕ → ℕ → Type 0
  IsFound console sid =
      IsSignedIn sid
      × ((sid ≡ console) × (sid ≢ no_session)
          ⊎ (t : ℕ) × (is_listed sid (os.sessions t) ≡ true) × (sid ≢ console))

  other_session-IsFound :
      (console : ℕ) (w : World) (sid : ℕ)
      → (other_session os console w).0 ≡ some sid
      → IsFound console sid
  other_session-IsFound console w sid h =
      let (signed_in, listed, other) = other_session-IsOther console w sid h in
      (signed_in, inr (w.tick, listed, other))

  -- A session that ActiveConsoleSession reports has a user signed in, as far as Windows would say, and
  -- is either the console's, or another one that was listed as active.
  pub active_console_session-IsFound :
      (w : World) (sid : ℕ)
      → (active_console_session os w).0 ≡ some sid
      → IsFound (os.console w.tick) sid
  unfolding active_console_session
  active_console_session-IsFound w sid h =
      let console = os.console w.tick in
      elim (Bool-cases (console == no_session)) [
        | inl off ↦ other_session-IsFound console (next w) sid (ground (arith, h, off))
        | inr on ↦ elim (Bool-cases (has_signed_in_user os console (next w)).0) [
          | inl in_use ↦ (
            subst IsSignedIn (ground (arith, h, on, in_use))
                (has_signed_in_user-IsSignedIn console (next w) in_use),
            inl (ground (arith, h, on, in_use), ground (arith, h, on, in_use)),
          )
          | inr unused ↦
              other_session-IsFound console (has_signed_in_user os console (next w)).1 sid
                (ground (arith, h, on, unused))
        ]
      ]
