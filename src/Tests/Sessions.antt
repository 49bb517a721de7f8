-- ===== src/Tests/Sessions.antt =====
-- A session of Windows on concrete data.
use winsvr.Base.{
  ℕ, ◌+◌, ◌≡◌, refl, arith, true, false, none, some, Option, [], ◌∷◌, leb, if◌then◌else◌,
}
use winsvr.Base.Int.{ℤ}
use winsvr.Base.Bytes.{text, bytes_eq}
use winsvr.Go.Error.{Error, errorf, Result, ok, err}
use winsvr.Go.World.{World, next}
use winsvr.Go.Exec.{◌>>=◌, continue}
use winsvr.Go.Os.{emit, ctx_err}
use winsvr.Elevation.{choose_elevation}
use winsvr.Supervisor.Config.{LaunchOptions, Process}
use winsvr.Supervisor.Run.{returned, run}
use winsvr.Session.Windows.{
  Windows, Call, create_process_as_user, ask, read, acquire, create_process, release, closing,
  or_release, clean_up, or_kill, kill, rename, named,
}
use winsvr.Session.Handles.{Trades, owned}
use winsvr.Session.Token.{user_token, primary_token, chosen_primary, elevated_primary, primary_of}
use winsvr.Session.Launch
use winsvr.Session.Launch.{launch_in_session}
use winsvr.Session.Launch.Accounts.{handles, launch_in_session-Keeps}
use winsvr.Session.Launch.Errors.{IsTrue}
use winsvr.Session.Rights.Launches.{IsRightful, launched-IsRightful}
use winsvr.Session.Launch.Outcome.{launch_errors}
use winsvr.Session.Console.{
  no_session, settled, has_signed_in_user, checked_user, active_console_session,
  wait_for_active_console, first_signed_in, search_sessions, other_session,
}
use winsvr.Session.Console.Finds.{IsFound, active_console_session-IsFound, is_listed}
use winsvr.Session.Console.Complete.{active_console_session_complete}
use winsvr.Session.Process.{wait_process, after_event, exit_code_of, settle}
use winsvr.Session.Process.Ends.{IsExitResult, wait_process-IsExitResult}
use winsvr.Session.Service.{windows_session, supervision_ends}
use winsvr.Session.Tidy.{supervision_leaks_nothing}
use winsvr.Tests.Data.{calm, calm_stops, codec, helper, before}
use winsvr.Tests.Services.{agent}

-- Session 1 is at the console, and an administrator is signed in there. The payload is seen running
-- until tick 30, and ends with code 7.
abbrev pub windows : Windows
windows = record {
  answer = λ t c. none;
  handle = λ t. t + 1;
  console = λ t. 1;
  sessions = λ t. record { session_id = 1; is_active = true } ∷ [];
  elevation_type = λ t. 3;
  is_elevated = λ t. false;
  process_id = λ t. 4242;
  wait_event = λ t. if leb 30 t then 0 else 258;
  exit_code = λ t. 7;
  command_line = λ path args. path.base;
}

abbrev needs_administrator : Call → Option ℕ
needs_administrator (create_process_as_user c) = some 740
needs_administrator _ = none

-- The payload's manifest requires administrator.
abbrev refusing : Windows
refusing = record windows { answer = λ t c. needs_administrator c }

-- Nobody is at the console, and the user of session 2 works remotely.
abbrev remote : Windows
remote = record windows {
  console = λ t. no_session;
  sessions = λ t.
      record { session_id = 0; is_active = false }
      ∷ record { session_id = 2; is_active = true }
      ∷ [];
}

abbrev options : LaunchOptions
options = record { path = helper; args = []; dir = text ""; elevated = true; hidden = true }

launch : Windows → World → Result Process × World
unfolding launch_in_session Launch.launch_checked Launch.launch_with_token Launch.launch_with_block
    Launch.launch_in_job Launch.create_in Launch.limit_job Launch.start Launch.put_in_job
    Launch.let_run Launch.refuse_options Launch.path_utf16 Launch.utf16 Launch.has_nul
    Launch.creation Launch.create_error Launch.is_empty_path Launch.launch_dir user_token
    primary_token chosen_primary elevated_primary primary_of choose_elevation ask read acquire
    create_process release closing or_release clean_up or_kill kill rename named next emit ◌>>=◌
    continue bytes_eq
launch os w = launch_in_session os 1 options w

search : Windows → World → Option ℕ × World
unfolding active_console_session other_session search_sessions first_signed_in has_signed_in_user
    checked_user acquire release next emit
search os w = active_console_session os w

abbrev launch_error : Result Process → Error
launch_error (ok p) = errorf "" []
launch_error (err e) = e

launched_pid : (launch windows before).0 ≡ ok (record { pid = 4242; handle = 11; job = 9 })
unfolding launch
launched_pid = refl

-- The launched payload, and the state after its launch.
abbrev payload : Process
payload = record { pid = 4242; handle = 11; job = 9 }

launch_in_session-Keeps_example :
    Trades []
      (owned handles (launch_in_session windows 1 options before).0)
      before
      (launch_in_session windows 1 options before).1
launch_in_session-Keeps_example = launch_in_session-Keeps windows 1 options before

launched-IsRightful_example : IsRightful windows 1 options payload
unfolding launch
launched-IsRightful_example =
    launched-IsRightful windows 1 options before (launch windows before).1 payload refl

launch_errors_example : IsTrue refusing 1 true (launch_error (launch refusing before).0)
unfolding launch
launch_errors_example =
    launch_errors refusing 1 options before (launch refusing before).1
      (launch_error (launch refusing before).0) refl

active_console_session-IsFound_example : IsFound remote (remote.console before.tick) 2
unfolding search
active_console_session-IsFound_example = active_console_session-IsFound remote before 2 refl

active_console_session_complete_example :
    (s : ℕ) × ((active_console_session remote before).0 ≡ some s)
unfolding is_listed
active_console_session_complete_example =
    active_console_session_complete remote 2 (λ t. refl) (λ t. refl) (λ t. refl) (omega arith)
      before

wait_process-IsExitResult_example : IsExitResult windows calm payload (ok 7)
unfolding wait_process after_event exit_code_of settle read named rename ctx_err next
wait_process-IsExitResult_example =
    wait_process-IsExitResult windows calm payload 16 before (ok 7) refl

supervision_ends_example :
    ((v : World) (poll : ℤ)
      → (r : Result ℕ) × ((wait_for_active_console windows calm 101 poll v).0 ≡ settled r))
    × ((v : World) (p : Process)
        → (r : Result ℕ) × ((wait_process windows calm 101 p v).0 ≡ settled r))
    × ((r : Option Error) × ((run calm codec
            (windows_session windows calm 101)
            agent
            101
            (ok helper)
            before).0
          ≡ returned r))
supervision_ends_example =
    supervision_ends windows calm 100 101 calm_stops (λ t late. refl) (omega arith) codec agent
      (ok helper) before

supervision_leaks_nothing_example :
    Trades [] [] before
      (run calm codec (windows_session windows calm 101) agent 101 (ok helper) before).1
supervision_leaks_nothing_example =
    supervision_leaks_nothing windows calm (λ t. omega arith) 101 codec agent (ok helper) before
