-- ===== src/Manager/Remove.antt =====
-- stopAndWait and Uninstall of manager_windows.go.
pub mod Stops
pub mod Success
use winsvr.Base.{
  ℕ, zero, suc, ◌+◌, ◌*◌, Bool, true, false, not, ◌||◌, Option, none, some, [], ◌∷◌, ◌==◌, ltb,
  if◌then◌else◌,
}
use winsvr.Base.Int.{pos}
use winsvr.Base.Bytes.{Bytes}
use winsvr.Go.Error.{Error, errorf, wrap, bytes, number, errors_is, not_exist}
use winsvr.Backoff.{second, millisecond}
use winsvr.Framework.Config.{stopped}
use winsvr.Manager.Calls.{
  connect, disconnect, open_service, close_service, delete_service, remove_source, control_stop,
  sleep_between, Scm, Transcript, ask, service_does_not_exist, service_not_active,
  service_cannot_accept_ctrl, invalid_service_control,
}

-- stopWait
abbrev pub stop_wait : ℕ
stop_wait = 20 * second

-- The wait goes on, the service has stopped or has not within stopWait, or the request failed.
pub data Stopping : Type 0 where
  still_waiting : Stopping
  settled : Bool → Option Error → Stopping

module _ (scm : Scm) (name : Bytes) where
  -- An error of Control that carries the state, or none.
  unfoldable pub carries_state : Option Error → Bool
  carries_state none = true
  carries_state (some e) =
      errors_is e service_cannot_accept_ctrl || errors_is e invalid_service_control

  unfoldable pub is_inactive : Option Error → Bool
  is_inactive none = false
  is_inactive (some e) = errors_is e service_not_active

  unfoldable pub stop_error : Option Error → Option Error
  stop_error none = none
  stop_error (some e) = some (wrap "stop service %q: %w" (bytes name ∷ []) e)

  -- The loop, on fuel; each round reads the clock after the control.
  unfoldable pub stop_loop : ℕ → ℕ → Transcript → Stopping × Transcript
  stop_loop zero deadline s = (still_waiting, s)
  stop_loop (suc fuel) deadline s =
      let (cerr, s1) = ask scm control_stop s in
      let time = scm.clock s1.tick in
      let (ignored, s2) = ask scm (sleep_between (pos (300 * millisecond))) s1 in
      let rest = stop_loop fuel deadline s2 in
      if is_inactive cerr
      then (settled true none, s1)
      else if not (carries_state cerr)
      then (settled false (stop_error cerr), s1)
      else if scm.state s.tick == stopped
      then (settled true none, s1)
      else if not (ltb time deadline)
      then (settled false none, s1)
      else rest

  unfoldable pub stop_and_wait : ℕ → Transcript → Stopping × Transcript
  stop_and_wait fuel s = stop_loop fuel (scm.clock s.tick + stop_wait) s

  -- The stop failed, or has not come within stopWait.
  unfoldable pub removal_report : Stopping → Option Error
  removal_report still_waiting = none
  removal_report (settled done (some e)) = some (
      wrap "service %q was removed, but stopping it first failed, so it may still be running: %w"
        (bytes name ∷ []) e)
  removal_report (settled true none) = none
  removal_report (settled false none) = some (
      errorf
        "service %q was removed but did not stop within %s; it disappears once its process exits, which a reboot guarantees"
        (bytes name ∷ number (pos stop_wait) ∷ []))

  -- An event source that is not there is removed.
  unfoldable pub source_error : Option Error → Option Error
  source_error none = none
  source_error (some e) =
      if errors_is e not_exist then none else some (wrap "remove event source: %w" [] e)

  unfoldable pub remove_service : Stopping → Transcript → Option Error × Transcript
  remove_service stopping s =
      let (deleted, s1) = ask scm delete_service s in
      let (removed, s2) = ask scm (remove_source name) s1 in
      elim deleted [
        | some e ↦ (some (wrap "delete service: %w" [] e), s1)
        | none ↦ elim (source_error removed) [
          | some e ↦ (some e, s2)
          | none ↦ (removal_report stopping, s2)
        ]
      ]

  unfoldable pub open_error : Error → Error
  open_error e =
      if errors_is e service_does_not_exist
      then errorf "service %q is not installed" (bytes name ∷ [])
      else e

  unfoldable pub stop_and_remove : ℕ → Transcript → Option Error × Transcript
  stop_and_remove fuel s =
      let (stopping, s1) = stop_and_wait fuel s in
      let (out, s2) = remove_service stopping s1 in (out, (ask scm close_service s2).1)

  unfoldable pub uninstall_connected : ℕ → Transcript → Option Error × Transcript
  uninstall_connected fuel s =
      let (opened, s1) = ask scm (open_service name) s in
      let done = stop_and_remove fuel s1 in
      elim opened [ some e ↦ (some (open_error e), s1) | none ↦ done ]

  unfoldable pub uninstall : ℕ → Transcript → Option Error × Transcript
  uninstall fuel s =
      let (r, s1) = ask scm connect s in
      let (out, s2) = uninstall_connected fuel s1 in
      elim r [
        | some e ↦ (some (wrap "connect SCM: %w" [] e), s1)
        | none ↦ (out, (ask scm disconnect s2).1)
      ]
