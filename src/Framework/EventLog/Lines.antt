-- ===== src/Framework/EventLog/Lines.antt =====
-- What the handler of eventlog_windows.go writes, against the calls that made it.
use winsvr.Base.{List, [], ◌∷◌, ◌++◌, if◌then◌else◌}
use winsvr.Base.Bytes.{Bytes, text, bytes_eq}
use winsvr.Framework.EventLog.{Attr, EventLogHandler, qualify, with_attrs, with_group}

-- The calls by which slog derives a handler from another.
pub data Derive : Type 0 where
  attrs : List Attr → Derive
  group : Bytes → Derive

unfoldable pub derive : EventLogHandler → List Derive → EventLogHandler
derive h [] = h
derive h (attrs more ∷ steps) = derive (with_attrs more h) steps
derive h (group name ∷ steps) = derive (with_group name h) steps

-- What a group puts in front of a key.
abbrev pub dotted : Bytes → Bytes
dotted name = if bytes_eq name (text "") then text "" else name ++ text "."

-- The attributes of a record, each behind the groups that were open when it was added.
abbrev pub qualified : Bytes → List Attr → List Attr
qualified groups [] = []
qualified groups (a ∷ more) = qualify groups a ∷ qualified groups more

abbrev pub all_attrs : Bytes → List Derive → List Attr → List Attr
all_attrs groups [] last = qualified groups last
all_attrs groups (attrs more ∷ steps) last = qualified groups more ++ all_attrs groups steps last
all_attrs groups (group name ∷ steps) last = all_attrs (groups ++ dotted name) steps last

-- Attributes as they are printed.
abbrev pub printed : List Attr → Bytes
printed [] = []
printed (a ∷ more) = text " " ++ a.key ++ text "=" ++ a.value ++ printed more
