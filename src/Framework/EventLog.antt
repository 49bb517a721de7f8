-- ===== src/Framework/EventLog.antt =====
-- eventlog_windows.go: the slog handler that writes to the event log. A value is what %v prints.
pub mod Lines
use winsvr.Base.{ℕ, Bool, List, [], ◌∷◌, ◌++◌, if◌then◌else◌}
use winsvr.Base.Int.{ℤ, pos, leb_ℤ, negsuc}
use winsvr.Base.Bytes.{Bytes, text, bytes_eq}
use winsvr.Framework.Text.{event_text}

-- slog.LevelInfo, LevelWarn and LevelError.
abbrev pub level_debug : ℤ
level_debug = negsuc 3

abbrev pub level_info : ℤ
level_info = pos 0

abbrev pub level_warn : ℤ
level_warn = pos 4

abbrev pub level_error : ℤ
level_error = pos 8

abbrev pub eid_info : ℕ
eid_info = 1

abbrev pub eid_warning : ℕ
eid_warning = 2

abbrev pub eid_error : ℕ
eid_error = 3

pub record Attr : Type 0 where
  pub key : Bytes
  pub value : Bytes

pub record LogRecord : Type 0 where
  pub level : ℤ
  pub message : Bytes
  pub attrs : List Attr

pub record EventLogHandler : Type 0 where
  pub attrs : List Attr
  pub prefix : Bytes

-- The handler of NewEventLogger.
abbrev pub new_handler : EventLogHandler
new_handler = record { attrs = []; prefix = text "" }

-- The calls of the event log: Error, Warning and Info.
pub data Severity : Type 0 where
  as_error as_warning as_info : Severity

pub record Entry : Type 0 where
  pub severity : Severity
  pub event_id : ℕ
  pub line : Bytes

unfoldable pub is_enabled : ℤ → Bool
is_enabled l = leb_ℤ level_info l

abbrev pub qualify : Bytes → Attr → Attr
qualify prefix a = record a { key = prefix ++ a.key }

-- The loop of WithAttrs.
unfoldable pub append_attrs : Bytes → List Attr → List Attr → List Attr
append_attrs prefix attrs [] = attrs
append_attrs prefix attrs (a ∷ more) = append_attrs prefix (attrs ++ (qualify prefix a ∷ [])) more

unfoldable pub with_attrs : List Attr → EventLogHandler → EventLogHandler
with_attrs [] h = h
with_attrs (a ∷ more) h = record h { attrs = append_attrs h.prefix h.attrs (a ∷ more) }

unfoldable pub with_group : Bytes → EventLogHandler → EventLogHandler
with_group name h =
    if bytes_eq name (text "") then h else record h { prefix = h.prefix ++ name ++ text "." }

-- Handle's two loops, which write behind `b`.
unfoldable pub write_attrs : List Attr → Bytes → Bytes
write_attrs [] b = b
write_attrs (a ∷ more) b = write_attrs more (b ++ text " " ++ a.key ++ text "=" ++ a.value)

unfoldable pub write_record_attrs : Bytes → List Attr → Bytes → Bytes
write_record_attrs prefix [] b = b
write_record_attrs prefix (a ∷ more) b =
    write_record_attrs prefix more (b ++ text " " ++ prefix ++ a.key ++ text "=" ++ a.value)

-- The switch over the level.
unfoldable pub entry_for : ℤ → Bytes → Entry
entry_for level msg =
    if leb_ℤ level_error level
    then record { severity = as_error; event_id = eid_error; line = msg }
    else if leb_ℤ level_warn level
    then record { severity = as_warning; event_id = eid_warning; line = msg }
    else record { severity = as_info; event_id = eid_info; line = msg }

unfoldable pub handle : EventLogHandler → LogRecord → Entry
handle h r =
    entry_for r.level
      (event_text (write_record_attrs h.prefix r.attrs (write_attrs h.attrs r.message)))
