-- ===== src/Manager/Install.antt =====
-- Install of manager_windows.go.
pub mod Rollback
use winsvr.Base.{
  ℕ, ◌*◌, Bool, true, false, not, ◌&&◌, Option, none, some, List, [], ◌∷◌, if◌then◌else◌,
}
use winsvr.Base.Int.{ℤ, pos, ltb_ℤ}
use winsvr.Base.Bytes.{Bytes, text, bytes_eq}
use winsvr.Go.Error.{Error, errorf, wrap, bytes, errors_is, exist, Result, ok, err}
use winsvr.Framework.Config.{
  StartType, start_automatic, start_manual, start_disabled, Config, shown_name,
}
use winsvr.Manager.Calls.{
  MgrConfig, Call, connect, disconnect, create_service, close_service, delete_service,
  set_recovery_actions, set_recovery_on_non_crash, install_source, remove_source, Scm, Transcript,
  ask, service_exists, service_marked_for_delete,
}

-- mgr.StartManual, mgr.StartDisabled and mgr.StartAutomatic.
unfoldable pub mgr_start_type : StartType → ℕ
mgr_start_type start_manual = 3
mgr_start_type start_disabled = 4
mgr_start_type start_automatic = 2

-- mgr.ErrorNormal
abbrev pub error_normal : ℕ
error_normal = 1

module _ (scm : Scm) (c : Config) where
  unfoldable pub mgr_config : MgrConfig
  mgr_config = record {
    display_name = shown_name c;
    description = c.description;
    start_type = mgr_start_type c.start_type;
    error_control = error_normal;
    dependencies = c.dependencies;
    service_start_name = c.account;
    password = c.password;
  }

  unfoldable pub create_error : Error → Error
  create_error e =
      if errors_is e service_exists
      then errorf "service %q is already installed" (bytes c.name ∷ [])
      else if errors_is e service_marked_for_delete
      then errorf
          "service %q is still being removed; wait for its old process to exit, or reboot, then install again"
          (bytes c.name ∷ [])
      else wrap "create service: %w" [] e

  -- The closure `fail`: the service goes again, whatever Delete says.
  unfoldable pub undo : Error → Transcript → Option Error × Transcript
  undo e s = let (ignored, s') = ask scm delete_service s in (some e, s')

  -- The event source, the last step: os.ErrExist is no error.
  unfoldable pub add_source : Transcript → Option Error × Transcript
  add_source s =
      let (r, s1) = ask scm (install_source c.name) s in
      let (ignored, s2) = ask scm (remove_source c.name) s1 in
      elim r [
        | none ↦ (none, s1)
        | some e ↦
            if errors_is e exist then (none, s1) else undo (wrap "install event source: %w" [] e) s2
      ]

  unfoldable pub add_non_crash : Transcript → Option Error × Transcript
  add_non_crash s =
      let (r, s1) = ask scm set_recovery_on_non_crash s in
      elim r [
        | some e ↦ undo (wrap "enable recovery on non-crash failures: %w" [] e) s1
        | none ↦ add_source s1
      ]

  -- Three restarts, the delay before each, and a day until the count is reset.
  unfoldable pub add_recovery : Transcript → Option Error × Transcript
  add_recovery s =
      let (r, s1) = ask scm (set_recovery_actions c.restart_delay 86400) s in
      elim r [ some e ↦ undo (wrap "set recovery actions: %w" [] e) s1 | none ↦ add_non_crash s1 ]

  unfoldable pub configure : Transcript → Option Error × Transcript
  configure s = if ltb_ℤ (pos 0) c.restart_delay then add_recovery s else add_source s

  unfoldable pub create : Bytes → Transcript → Option Error × Transcript
  create exe s =
      let (r, s1) = ask scm (create_service c.name exe mgr_config c.arguments) s in
      let (out, s2) = configure s1 in
      elim r [ some e ↦ (some (create_error e), s1) | none ↦ (out, (ask scm close_service s2).1) ]

  unfoldable pub install : Result Bytes → Transcript → Option Error × Transcript
  install executable s =
      if bytes_eq c.name (text "")
      then (some (errorf "winsvr: Config.Name is required" []), s)
      else elim executable [
        | err e ↦ (some e, s)
        | ok exe ↦
            let (r, s1) = ask scm connect s in
            let (out, s2) = create exe s1 in
            elim r [
              | some e ↦ (some (wrap "connect SCM: %w" [] e), s1)
              | none ↦ (out, (ask scm disconnect s2).1)
            ]
      ]
