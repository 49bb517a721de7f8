-- ===== src/Tests/Services.antt =====
-- The supervisor and the choice of elevation on concrete data.
use winsvr.Base.{ℕ, ◌≡◌, refl, ◌⊎◌, arith, Bool, true, false, none, Option, [], ◌∷◌, if◌then◌else◌}
use winsvr.Base.Int.{ℤ, pos}
use winsvr.Base.Bytes.{text, bytes_eq}
use winsvr.Go.Error.{
  Error, sentinel, wrap, err_elevation_required, cause_eq, errors_is, Result, ok, err,
}
use winsvr.Go.World.{Env, World, FilePath, next, launched, closed, slept}
use winsvr.Go.Os.{ctx_err, wait_timer, emit, now, log_record, os_stat, syscall, existing}
use winsvr.Go.Files.{find}
use winsvr.Go.World
use winsvr.Backoff.{sleep, grow}
use winsvr.Elevation.{should_auto_elevate}
use winsvr.Supervisor.Config.{
  Supervisor, LaunchOptions, Process, Session, say, bin_dir, bin_path, min_delay, max_delay,
}
use winsvr.Supervisor.Round.{
  pause, wait_failed, launch_failed, after_run, log_ended, payload_ended, payload_running,
  after_launch, launch, after_wait, round,
}
use winsvr.Supervisor.Run.{
  Outcome, returned, run_loop, launch_and_supervise, after_update, run_at, run,
}
use winsvr.Supervisor.Bounds.{HasInt64Delays, IsDelay}
use winsvr.Supervisor.Rounds.{Rounds, begin, backoff_bounded}
use winsvr.Supervisor.Elevates.{IsAskedFor, elevated_needs_permission}
use winsvr.Supervisor.Ends.{IsForward}
use winsvr.Supervisor.Whole.{run_ends}
use winsvr.Supervisor.Stops.{run-IsDone}
use winsvr.Supervisor.Cancelled.{IsDone}
use winsvr.Tests.Data.{calm-IsLasting, calm, calm_stops, codec, helper, before}

-- A user is signed in, and the payload's manifest requires administrator; it ends with code 1.
abbrev launch_elevated_only : LaunchOptions → Result Process
launch_elevated_only o =
    if o.elevated
    then ok (record { pid = 12; handle = 1; job = 2 })
    else err (wrap "%w" [] (sentinel err_elevation_required))

abbrev pub desk : Session
desk = record {
  wait_for_active_console = λ d w. (ok 1, w);
  launch_in_session = λ sid o w. (launch_elevated_only o, w);
  wait = λ p w. (ok 1, w);
  close = λ p w. w;
}

abbrev pub agent : Supervisor
agent = record {
  bin = text "helper.bin";
  update_url = [];
  launch_elevated = false;
  disable_auto_elevate = false;
  hidden = true;
  min_backoff = pos 0;
  max_backoff = pos 0;
  has_logger = false;
  dir = text "C:\\svc";
}

agent-HasInt64Delays : HasInt64Delays agent
agent-HasInt64Delays = record { min_fits = omega arith; max_fits = omega arith }

desk-IsForward : IsForward desk
desk-IsForward = record {
  forward_console = λ d w. omega arith;
  forward_launch = λ sid o w. omega arith;
  forward_wait = λ p w. omega arith;
  forward_close = λ p w. omega arith;
}

-- All that a run without updates runs, opened.
service : ℕ → World → Outcome × World
unfolding run run_at after_update launch_and_supervise run_loop round after_wait launch after_launch
    payload_running payload_ended log_ended after_run launch_failed wait_failed pause min_delay
    max_delay bin_path bin_dir say sleep grow wait_timer ctx_err now emit log_record next
    should_auto_elevate errors_is cause_eq os_stat existing syscall find World.path_eq bytes_eq
service fuel w = run calm codec desk agent fuel (ok helper) w

-- The first launch is refused, the second one is elevated, and so are the later ones.
launches :
    (service 3 before).1.events
    ≡ launched 1 false
      ∷ launched 1 true
      ∷ closed 12
      ∷ slept (pos 2_000_000_000)
      ∷ launched 1 true
      ∷ closed 12
      ∷ slept (pos 4_000_000_000)
      ∷ []
unfolding service
launches = refl

-- The service is stopped at tick 100.
stops : (service 40 before).0 ≡ returned none
unfolding service
stops = refl

abbrev second_round : World
second_round = (round calm desk agent helper false (min_delay agent) (ctx_err calm before).1).1

reached : Rounds calm desk agent helper before true (pos 2_000_000_000) second_round
unfolding service
reached = Rounds.next begin refl refl

backoff_bounded_example : IsDelay agent (pos 2_000_000_000)
backoff_bounded_example = backoff_bounded calm desk agent helper agent-HasInt64Delays reached

elevated_needs_permission_example :
    (◌≡◌ {A = Bool} false true)
    ⊎ ((◌≡◌ {A = Bool} false false)
        × ((b : ℤ) × (w : World) × Rounds calm desk agent helper before false b w)
        × IsAskedFor calm desk agent helper)
elevated_needs_permission_example = elevated_needs_permission calm desk agent helper reached refl

run-IsDone_example : IsDone calm (service 40 before).1
unfolding service
run-IsDone_example =
    run-IsDone calm codec desk agent calm-IsLasting 40 (ok helper) before (service 40 before).1 refl

run_ends_example :
    (r : Option Error) × ((run calm codec desk agent 101 (ok helper) before).0 ≡ returned r)
run_ends_example =
    run_ends calm codec desk agent 100 calm_stops desk-IsForward 101 (omega arith) (ok helper)
      before
