-- ===== src/Agent/Admin.antt =====
-- Without administrator rights the program of example/agent changes no service.
use winsvr.Base.{ℕ, ◌≡◌, refl, ap, ◌∙◌, Bool, true, false, none, some, List, [], ◌∷◌, arith}
use winsvr.Base.Bytes.{Bytes}
use winsvr.Go.Error.{Result, ok, err}
use winsvr.Go.World.{World, next}
use winsvr.Manager.Calls.{
  Call, Transcript, ask, made, create_service, delete_service, set_recovery_actions,
  set_recovery_on_non_crash, install_source, remove_source, control_stop, start_service,
}
use winsvr.Manager.Control.{status, query_named, query_opened, query}
use winsvr.Manager.Elevate.{elevate}
use winsvr.Session.Console.{Waited, unsettled, settled}
use winsvr.Agent.Desk.{Host, Desk, Message, error_line}
use winsvr.Agent.Interact.{report, box}
use winsvr.Agent.Program.{
  Ending, unfinished, returned, exited, Command, manage, install_command, uninstall_command,
  status_command, run_command, unknown, path_text, after_elevate, ensure_admin, and_then,
  do_install, do_uninstall, show_status, toggle, with_status, run_command_of, dispatch, tell,
  report_failure, main, command_of, default_command, chosen,
}

-- The calls that change a service, its event source, or its running.
abbrev pub is_change : Call → Bool
is_change (create_service name exe config args) = true
is_change delete_service = true
is_change (set_recovery_actions delay reset) = true
is_change set_recovery_on_non_crash = true
is_change (install_source name) = true
is_change (remove_source name) = true
is_change control_stop = true
is_change (start_service args) = true
is_change _ = false

module _ (host : Host) (fuel : ℕ) where
  abbrev pub changes : Desk → ℕ
  changes d = made is_change d.manager.calls

  changes-status :
      (name : Bytes) (s : Transcript)
      → made is_change (status host.scm name s).1.calls ≡ made is_change s.calls
  unfolding status query_named query_opened query ask
  changes-status name s = ground arith

  pub manager-report : (m : Message) (d : Desk) → (report host m d).manager ≡ d.manager
  unfolding report box
  manager-report m d = ground arith

  pub manager-after_elevate :
      (x : Waited ℕ × World) (d : Desk) → (after_elevate host fuel x d).1.manager ≡ d.manager
  unfolding after_elevate
  manager-after_elevate (unsettled, w) d = refl
  manager-after_elevate (settled (ok code), w) d = refl
  manager-after_elevate (settled (err e), w) d = refl

  -- A relaunch never goes on in this process.
  after_elevate-stops :
      (x : Waited ℕ × World) (d : Desk) (k : Desk → Ending × Desk)
      → and_then host fuel (after_elevate host fuel x d) k ≡ after_elevate host fuel x d
  unfolding after_elevate and_then
  after_elevate-stops (unsettled, w) d k = refl
  after_elevate-stops (settled (ok code), w) d k = refl
  after_elevate-stops (settled (err e), w) d k = refl

  module _ (plain : (t : ℕ) → host.os.is_elevated t ≡ false) where
    changes-admin :
        (cmd : Bytes) (d : Desk) (k : Desk → Ending × Desk)
        → changes (and_then host fuel (ensure_admin host fuel cmd d) k).1 ≡ changes d
    unfolding ensure_admin
    changes-admin cmd d k =
        let again =
          elevate host.os host.env host.escape_arg host.working_dir
            (path_text host fuel host.executable) fuel (cmd ∷ []) (next d.world) in
        rw (ensure_admin, plain d.world.tick, after_elevate-stops again d k)
          (ap (λ (s : Transcript). made is_change s.calls) (manager-after_elevate again d))

    changes-do_install : (d : Desk) → changes (do_install host fuel d).1 ≡ changes d
    unfolding do_install
    changes-do_install d = changes-admin _ d _

    changes-do_uninstall : (d : Desk) → changes (do_uninstall host fuel d).1 ≡ changes d
    unfolding do_uninstall
    changes-do_uninstall d = changes-admin _ d _

    changes-toggle : (r : Result ℕ) (d : Desk) → changes (toggle host fuel r d).1 ≡ changes d
    unfolding toggle
    changes-toggle (ok st) d = changes-do_uninstall d
    changes-toggle (err e) d = changes-do_install d

    changes-show_status :
        (r : Result ℕ) (d : Desk) → changes (show_status host fuel r d).1 ≡ changes d
    unfolding show_status tell
    changes-show_status (ok st) d =
        ap (λ (s : Transcript). made is_change s.calls) (manager-report _ d)
    changes-show_status (err e) d = refl

    changes-with_status :
        (k : Result ℕ → Desk → Ending × Desk)
        → ((r : Result ℕ) (d : Desk) → changes (k r d).1 ≡ changes d)
        → (d : Desk) → changes (with_status host fuel k d).1 ≡ changes d
    unfolding with_status
    changes-with_status k same d = same _ _ ∙ changes-status _ d.manager

    changes-dispatch : (c : Command) (d : Desk) → changes (dispatch host fuel c d).1 ≡ changes d
    unfolding dispatch run_command_of
    changes-dispatch manage d = changes-with_status (toggle host fuel) changes-toggle d
    changes-dispatch install_command d = changes-do_install d
    changes-dispatch uninstall_command d = changes-do_uninstall d
    changes-dispatch status_command d =
        changes-with_status (show_status host fuel) changes-show_status d
    changes-dispatch run_command d = refl
    changes-dispatch (unknown cmd) d = refl

    changes-report_failure :
        (x : Ending × Desk) → changes (report_failure host fuel x).1 ≡ changes x.1
    unfolding report_failure
    changes-report_failure (unfinished, d) = refl
    changes-report_failure (returned none, d) = refl
    changes-report_failure (returned (some e), d) =
        ap (λ (s : Transcript). made is_change s.calls) (manager-report (error_line e) d)
    changes-report_failure (exited code, d) = refl

    -- A process that never runs as administrator asks the service control manager for no change,
    -- whatever its arguments: it creates, deletes, configures, starts and stops no service, and
    -- leaves the event source alone.
    pub unelevated_changes_nothing :
        (args : List Bytes) (d : Desk) → changes (main host fuel args d).1 ≡ changes d
    unfolding main
    unelevated_changes_nothing args d =
        changes-report_failure _
        ∙ changes-dispatch (command_of (default_command host fuel (chosen host fuel args))) d
