-- ===== src/Agent/Interact.antt =====
-- LaunchedByDoubleClick and MessageBox of interact_windows.go.
use winsvr.Base.{Bool, false, Option, none, some, ◌==◌, if◌then◌else◌, [], ◌∷◌, ◌++◌}
use winsvr.Base.Bytes.{Bytes}
use winsvr.Go.Error.{Error}
use winsvr.Session.Launch.{utf16}
use winsvr.Framework.Service.{is_service}
use winsvr.Agent.Desk.{Host, Message, Shown, in_a_box, printed, Desk, display_name}

module _ (host : Host) where
  -- Alone on its console, and no service.
  unfoldable pub launched_by_double_click : Bool
  launched_by_double_click = if is_service host.svc then false else host.console_processes == 1

  -- The error, and whether the dialog was asked for: not with a NUL in the text or in the title.
  unfoldable pub message_box : Bytes → Bytes → Option Error × Option Bytes
  message_box title content = elim (utf16 content) [
    | some e ↦ (some e, none)
    | none ↦ elim (utf16 title) [
      | some e ↦ (some e, none)
      | none ↦ (host.box_error title content, some content)
    ]
  ]

  abbrev show : Shown → Desk → Desk
  show x d = record d { shown = d.shown ++ (x ∷ []) }

  unfoldable pub box : Message → Option Bytes → Desk → Desk
  box m none d = d
  box m (some content) d = show (in_a_box display_name m) d

  -- The error of the dialog is dropped.
  unfoldable pub report : Message → Desk → Desk
  report m d =
      if launched_by_double_click
      then box m (message_box display_name (host.render m)).1 d
      else show (printed m) d
