-- ===== src/Framework/Text.antt =====
-- `truncate` and `eventText` of winsvr.go, and the panic that `runRecovered` turns into an error.
pub mod Cut
pub mod Fits
use winsvr.Base.{ℕ, Option, none, some, [], ◌∷◌, ◌++◌, ◌==◌, leb, if◌then◌else◌, length, take}
use winsvr.Base.Bytes.{Bytes, text}
use winsvr.Go.Error.{Error, errorf, bytes}
use winsvr.Framework.Utf8.{to_valid_utf8}

abbrev pub max_panic_value : ℕ
max_panic_value = 4096

abbrev pub max_panic_stack : ℕ
max_panic_stack = 16384

abbrev pub max_event_len : ℕ
max_event_len = 31000

-- " …(truncated)" in UTF-8.
abbrev pub marker : Bytes
marker = text " " ++ (0xE2 ∷ 0x80 ∷ 0xA6 ∷ []) ++ text "(truncated)"

unfoldable pub truncate : Bytes → ℕ → Bytes
truncate s n = if leb (length s) n then s else to_valid_utf8 (take n s) ++ marker

-- strings.ReplaceAll(s, "\x00", `\x00`)
unfoldable pub show_nul : Bytes → Bytes
show_nul [] = []
show_nul (b ∷ s) = let rest = show_nul s in if b == 0 then text "\\x00" ++ rest else b ∷ rest

unfoldable pub event_text : Bytes → Bytes
event_text s = truncate (show_nul s) max_event_len

-- How a call of a service's Run ends: it returns, or it panics with a value, as fmt.Sprint prints it,
-- and a stack.
pub data RunEnd : Type 0 where
  finished : Option Error → RunEnd
  panicked : Bytes → Bytes → RunEnd

unfoldable pub run_recovered : RunEnd → Option Error
run_recovered (finished e) = e
run_recovered (panicked value stack) = some (
    errorf "winsvr: the service panicked: %s\n%s"
      (bytes (truncate value max_panic_value) ∷ bytes (truncate stack max_panic_stack) ∷ []))
