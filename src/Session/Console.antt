-- ===== src/Session/Console.antt =====
-- hasSignedInUser, ActiveConsoleSession and WaitForActiveConsole of session_windows.go.
pub mod Finds
pub mod Complete
pub mod Waits
use winsvr.Base.{
  ℕ, zero, suc, ◌*◌, ◌-◌, ◌^◌, Bool, true, false, not, ◌&&◌, Option, none, some, List, [], ◌∷◌,
  ◌==◌, if◌then◌else◌,
}
use winsvr.Base.Int.{ℤ, pos, leb_ℤ}
use winsvr.Go.Error.{Error, sentinel, errno, errors_is, Result, ok, err}
use winsvr.Go.World.{Env, World, next, Resource, of_token, of_list}
use winsvr.Go.Exec.{Exec}
use winsvr.Go.Os.{ctx_err, wait_timer}
use winsvr.Backoff.{second}
use winsvr.Session.Windows.{
  Windows, SessionInfo, Call, query_user_token, enumerate_sessions, acquire, release,
  privilege_not_held,
}

-- 0xFFFFFFFF, for no session.
abbrev pub no_session : ℕ
no_session = 2 ^ 32 - 1

-- How a wait that polls ends; `unsettled` is that of the fuel.
pub data Waited (A : Type 0) : Type 0 where
  unsettled : Waited A
  settled : Result A → Waited A

module _ (os : Windows) where
  -- A token that was had is closed at once.
  unfoldable pub checked_user : Result Resource → World → Bool × World
  checked_user (ok tok) w = (true, release os tok w)
  checked_user (err e) w = (errors_is e privilege_not_held, w)

  unfoldable pub has_signed_in_user : ℕ → World → Bool × World
  has_signed_in_user sid w =
      let (r, w') = acquire os of_token (query_user_token sid) w in checked_user r w'

  -- The loop over the sessions: the first one that is active, not the console's, and in use.
  unfoldable pub first_signed_in : ℕ → List SessionInfo → World → Option ℕ × World
  first_signed_in console [] w = (none, w)
  first_signed_in console (s ∷ rest) w =
      let (signed_in, w1) = has_signed_in_user s.session_id w in
      let here = first_signed_in console rest w in
      let after = first_signed_in console rest w1 in
      if s.is_active && not (s.session_id == console)
      then (if signed_in then (some s.session_id, w1) else after)
      else here

  -- The list of sessions is given back after the loop.
  unfoldable pub search_sessions : ℕ → Result Resource → List SessionInfo → World → Option ℕ × World
  search_sessions console (err e) found w = (none, w)
  search_sessions console (ok block) found w =
      let (r, w') = first_signed_in console found w in (r, release os block w')

  unfoldable pub other_session : ℕ → World → Option ℕ × World
  other_session console w =
      let (r, w') = acquire os of_list enumerate_sessions w in
      search_sessions console r (os.sessions w.tick) w'

  unfoldable pub active_console_session : World → Option ℕ × World
  active_console_session w =
      let console = os.console w.tick in
      let (signed_in, w1) = has_signed_in_user console (next w) in
      let after = other_session console w1 in
      let here = other_session console (next w) in
      if not (console == no_session)
      then (if signed_in then (some console, w1) else after)
      else here

  -- The default of the poll interval.
  unfoldable pub poll_interval : ℤ → ℤ
  poll_interval poll = if leb_ℤ poll (pos 0) then pos (2 * second) else poll

  -- ctx.Err() is what the wait returns; without an error it would return no session.
  unfoldable pub stop_waiting : Option Error × World → Waited ℕ × World
  stop_waiting (none, w) = (settled (ok no_session), w)
  stop_waiting (some e, w) = (settled (err e), w)

  module _ (env : Env) where
    -- The loop, on fuel.
    unfoldable pub wait_loop : ℕ → ℤ → World → Waited ℕ × World
    wait_loop zero poll w = (unsettled, w)
    wait_loop (suc fuel) poll w =
        let (sid, w1) = active_console_session w in
        let (fired, w2) = wait_timer env poll w1 in
        let rest = wait_loop fuel poll w2 in
        elim sid [
          | some s ↦ (settled (ok s), w1)
          | none ↦ if fired then rest else stop_waiting (ctx_err env w2)
        ]

    unfoldable pub wait_for_active_console : ℕ → ℤ → World → Waited ℕ × World
    wait_for_active_console fuel poll w = wait_loop fuel (poll_interval poll) w
