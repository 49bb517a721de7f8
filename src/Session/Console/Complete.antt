-- ===== src/Session/Console/Complete.antt =====
-- ActiveConsoleSession overlooks no session that is in use all the time.
use winsvr.Base.{
  ℕ, ◌≡◌, ◌≢◌, ◌&&◌, not, inl, inr, true, false, Bool-cases, some, none, arith, List, [], ◌∷◌, ◌==◌,
}
use winsvr.Go.World.{World, next}
use winsvr.Session.Windows.{Windows, SessionInfo, query_user_token, enumerate_sessions, acquire}
use winsvr.Session.Console.{
  no_session, checked_user, has_signed_in_user, first_signed_in, search_sessions, other_session,
  active_console_session,
}
use winsvr.Session.Console.Finds.{is_listed}

module _ (os : Windows) (sid : ℕ)
    (granted : (t : ℕ) → os.answer t (query_user_token sid) ≡ none) where
  has_signed_in_user_granted : (w : World) → (has_signed_in_user os sid w).0 ≡ true
  unfolding has_signed_in_user checked_user acquire
  has_signed_in_user_granted w = ground (arith, granted w.tick)

  unused-other : (c : ℕ) (w : World) → (has_signed_in_user os c w).0 ≡ false → sid ≢ c
  unused-other c w unused same =
      let granted_here = has_signed_in_user_granted w in absurd (cc (granted_here, unused, same))

  first_signed_in_complete :
      (console : ℕ) (found : List SessionInfo) (w : World)
      → sid ≢ console
      → is_listed sid found ≡ true
      → (s : ℕ) × ((first_signed_in os console found w).0 ≡ some s)
  unfolding first_signed_in is_listed
  first_signed_in_complete console [] w other listed = absurd (cc)
  first_signed_in_complete console (s ∷ rest) w other listed =
      let w1 = (has_signed_in_user os s.session_id w).1 in
      elim (Bool-cases (s.is_active && not (s.session_id == console))) [
        | inr skip ↦
            let (a, b) =
              first_signed_in_complete console rest w other (ground (arith, listed, skip, other)) in
            (a, ground (arith, b, skip))
        | inl test ↦ elim (Bool-cases (has_signed_in_user os s.session_id w).0) [
          | inl in_use ↦ (s.session_id, ground (arith, test, in_use))
          | inr unused ↦
              let (a, b) =
                first_signed_in_complete console rest w1 other
                  (ground (arith, listed, unused-other s.session_id w unused)) in
              (a, ground (arith, b, test, unused))
        ]
      ]

  other_session_complete :
      (console : ℕ) (w : World)
      → ((t : ℕ) → os.answer t enumerate_sessions ≡ none)
      → ((t : ℕ) → is_listed sid (os.sessions t) ≡ true)
      → sid ≢ console
      → (s : ℕ) × ((other_session os console w).0 ≡ some s)
  unfolding other_session search_sessions acquire
  other_session_complete console w fine listed other =
      rw (acquire, fine w.tick)
        (first_signed_in_complete console (os.sessions w.tick) _ other (listed w.tick))

  -- ActiveConsoleSession finds a session whenever Windows lists its sessions and there is one that,
  -- all the time, is listed as active and gives out its user's token; and whose number is not the one
  -- that stands for no session.
  pub active_console_session_complete :
      ((t : ℕ) → os.answer t enumerate_sessions ≡ none)
      → ((t : ℕ) → is_listed sid (os.sessions t) ≡ true)
      → sid ≢ no_session
      → (w : World) → (s : ℕ) × ((active_console_session os w).0 ≡ some s)
  unfolding active_console_session
  active_console_session_complete fine listed real w =
      let console = os.console w.tick in
      elim (Bool-cases (console == no_session)) [
        | inl off ↦
            let (s, e) =
              other_session_complete console (next w) fine listed (ground (arith, off, real)) in
            (s, ground (arith, e, off))
        | inr on ↦ elim (Bool-cases (has_signed_in_user os console (next w)).0) [
          | inl in_use ↦ (console, ground (arith, on, in_use))
          | inr unused ↦
              let w1 = (has_signed_in_user os console (next w)).1 in
              let (s, e) =
                other_session_complete console w1 fine listed
                  (unused-other console (next w) unused) in
              (s, ground (arith, e, on, unused))
        ]
      ]
