-- ===== src/Tests/Handlers.antt =====
-- The service's handler and the texts of the event log on concrete data.
use winsvr.Base.{
  ℕ, ◌+◌, ◌≤◌, ◌≡◌, ◌↔◌, refl, arith, true, false, some, List, [], ◌∷◌, ◌++◌, length, take, All,
}
use winsvr.Base.Int.{pos}
use winsvr.Base.Bytes.{Bytes, text, bytes_eq}
use winsvr.Base.Decimal.{format_uint}
use winsvr.Framework.Config.{Service, state_name}
use winsvr.Framework.Utf8.{
  is_valid_utf8, is_valid_behind, rune_length, rest_of_rune, completes, to_valid_utf8, keep_valid,
  rune_size, is_second, all_continue, is_continuation,
}
use winsvr.Framework.Text.{
  truncate, show_nul, event_text, marker, max_event_len, panicked, run_recovered,
}
use winsvr.Framework.Text.Fits.{IsNotNul, event_text_fits}
use winsvr.Framework.Text.Cut.{truncate_cuts}
use winsvr.Framework.Handler.{
  interrogate, stop, other, Handler, Input, done, request, timed_out, Action, sent, cancel, exited,
  first_status, running_status, stopping_status, milliseconds, execute, execute_loop, run_ended,
}
use winsvr.Framework.Handler.Exits.{
  replies, IsCleanEnd, FailsFirst, execute_stop, execute_fails_iff,
}
use winsvr.Framework.EventLog.{LogRecord, level_warn}
use winsvr.Framework.EventLog.Lines.{Derive, attrs, group, all_attrs, printed}

-- Two letters and a euro sign.
abbrev price : Bytes
price = text "ab" ++ (0xE2 ∷ 0x82 ∷ 0xAC ∷ [])

-- Cut inside the euro sign, only the letters stay.
price_cut : truncate price 4 ≡ text "ab" ++ marker
unfolding truncate to_valid_utf8 keep_valid rune_length rest_of_rune rune_size completes is_second
    all_continue
price_cut = refl

truncate_cuts_example :
    (m : ℕ) × (m ≤ 4)
    × (4 ≤ m + 3)
    × (is_valid_utf8 (take m price) ≡ true)
    × (truncate price 4 ≡ take m price ++ marker)
    × (length (truncate price 4) ≡ m + 15)
unfolding is_valid_utf8 is_valid_behind rune_length rest_of_rune rune_size completes is_second
    all_continue is_continuation
truncate_cuts_example = truncate_cuts price 4 refl (omega arith)

abbrev with_nul : Bytes
with_nul = text "a" ++ (0 ∷ text "b")

nul_shown : event_text with_nul ≡ text "a\\x00b"
unfolding event_text truncate show_nul
nul_shown = refl

event_text_fits_example :
    All IsNotNul (event_text with_nul)
    × (length (event_text with_nul) ≤ max_event_len + length marker)
    × (max_event_len + length marker ≤ 31838)
event_text_fits_example = event_text_fits with_nul

abbrev quiet_service : Service
quiet_service = record { logged = some (some (record { id = 1; enabled_error = false })) }

abbrev handler : Handler
handler = record { svc = quiet_service; stop_timeout = pos 20_000_000_000 }

-- The service manager asks for the status, and pauses in vain.
abbrev idle : List Input
idle = request interrogate running_status ∷ request (other 2) running_status ∷ []

execute_stop_example :
    (reported : List Action) × (execute handler
        (idle ++ (request stop running_status ∷ []))
        timed_out
      ≡ (
        exited false 0,
        sent first_status
            ∷ sent running_status
            ∷ ((replies idle ++ (sent (stopping_status handler) ∷ cancel ∷ reported))
                ++ (cancel ∷ [])),
      ))
    × ((reported ≡ []) ↔ IsCleanEnd timed_out)
execute_stop_example = execute_stop handler idle [] stop running_status timed_out (tt, (tt, tt)) tt

execute_fails_iff_example :
    ((execute handler (idle ++ (done (panicked (text "boom") (text "main.go:1")) ∷ [])) timed_out).0
      ≡ exited true 1)
    ↔ FailsFirst (idle ++ (done (panicked (text "boom") (text "main.go:1")) ∷ []))
execute_fails_iff_example =
    execute_fails_iff handler (idle ++ (done (panicked (text "boom") (text "main.go:1")) ∷ []))
      timed_out

panic_fails :
    (execute handler (idle ++ (done (panicked (text "boom") (text "main.go:1")) ∷ [])) timed_out).0
    ≡ exited true 1
unfolding execute execute_loop run_ended run_recovered
panic_fails = refl

stopping_hint : (stopping_status handler).wait_hint ≡ 20_000
unfolding stopping_status milliseconds
stopping_hint = refl

unknown_state : state_name 9 ≡ text "unknown(9)"
unfolding state_name format_uint
unknown_state = refl

-- One attribute before a group is opened, and one behind it.
abbrev steps : List Derive
steps =
    attrs (record { key = text "host"; value = text "pc" } ∷ [])
    ∷ group (text "net")
    ∷ attrs (record { key = text "port"; value = text "80" } ∷ [])
    ∷ []

abbrev lost : LogRecord
lost = record {
  level = level_warn;
  message = text "lost";
  attrs = record { key = text "try"; value = text "2" } ∷ [];
}

printed_line : printed (all_attrs [] steps lost.attrs) ≡ text " host=pc net.port=80 net.try=2"
unfolding bytes_eq
printed_line = refl
