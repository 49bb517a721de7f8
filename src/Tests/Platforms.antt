-- ===== src/Tests/Platforms.antt =====
-- The supervisor with an update, on another platform and under Execute, the sweep, the helper and the
-- run command's logger, on concrete data.
use winsvr.Base.{◌+◌, ◌*◌, ◌≡◌, refl, ◌↔◌, arith, true, false, none, some, Option, [], ◌∷◌, ◌++◌}
use winsvr.Base.Int.{pos}
use winsvr.Base.Bytes.{text, bytes_eq}
use winsvr.Go.Error.{Error, wrap, errors_is, err_unsupported, ok}
use winsvr.Go.World.{Env, World, FilePath, Node, next}
use winsvr.Go.World
use winsvr.Go.Files.{find}
use winsvr.Go.Os.{ctx_err, os_stat, syscall, existing}
use winsvr.Go.Steps.Kinds.{launches}
use winsvr.Update.Sweep.{sweep_temps}
use winsvr.Update.Sweep.Safety.{IsAbandoned}
use winsvr.Update.Sweep.Complete.{IsFaultless, sweep_exact}
use winsvr.Supervisor.Config.{Supervisor, say, bin_dir, bin_path}
use winsvr.Supervisor.Round.{round, after_wait, wait_failed}
use winsvr.Supervisor.Run.{returned, run_loop, launch_and_supervise, run_at, run}
use winsvr.Supervisor.Updates.{IsLasting}
use winsvr.Update.Fetch.Outcome.{IsSane}
use winsvr.Supervisor.Payloads.{IsWhole, update_loop-IsWhole}
use winsvr.Supervisor.Run.{update_loop, updater}
use winsvr.Supervisor.Vouched.{LaunchesVouched, run_launches_only_vouched}
use winsvr.Supervisor.Errors.{IsRunError, run_gives_up}
use winsvr.Supervisor.Served.{unasked_end_fails}
use winsvr.Framework.Config.{service_logger, own_logger}
use winsvr.Framework.Handler.{Handler, done, timed_out, exited, execute}
use winsvr.Framework.Text.{finished}
use winsvr.Unsupported.{unsupported, unsupported_session, wait_for_active_console}
use winsvr.Unsupported.Runs.{run_unsupported}
use winsvr.Helper.{User, main}
use winsvr.Helper
use winsvr.Helper.Beats.{ticks, Beat, heartbeat_exact}
use winsvr.Agent.Desk.{Host, standard_error, logger_of, agent_service}
use winsvr.Agent.Logs.{run_logger}
use winsvr.Agent.Diagnostics.{HasNoLog, run_logger_exact}
use winsvr.Tests.Data.{calm-IsLasting, calm, codec, helper, before, plain_file}
use winsvr.Tests.Data
use winsvr.Tests.Services.{agent, desk}
use winsvr.Tests.Agents.{administrator}

abbrev updating : Supervisor
updating = record agent { update_url = text "https://dl.example.com/helper.bin" }

updating-IsSane : IsSane calm (updater calm codec updating helper)
updating-IsSane = record { finite = λ t m url resp e. ground (arith, e); limit_fits = omega arith }

run_launches_only_vouched_example :
    LaunchesVouched calm codec desk updating 101 before
      (run calm codec desk updating 101 (ok helper) before)
run_launches_only_vouched_example =
    run_launches_only_vouched calm codec desk updating calm-IsLasting 101
      (λ bin. record { finite = λ t m url resp e. ground (arith, e); limit_fits = omega arith })
      (λ e. absurd (cc)) (ok helper) before

update_loop-IsWhole_example :
    IsWhole calm codec updating helper before.files
      (update_loop calm codec updating helper 101 1 (pos 2_000_000_000) before).1.files
update_loop-IsWhole_example =
    update_loop-IsWhole calm codec updating helper updating-IsSane 101 1 (pos 2_000_000_000) before

calm-IsFaultless : IsFaultless calm
calm-IsFaultless = record { lists = λ t. refl; stats = λ t. refl; removes = λ t. refl }

abbrev left_over : FilePath
left_over = record { dir = text "C:\\svc"; base = text "helper.bin.tmp-42" }

sweep_exact_example :
    (find left_over (sweep_temps calm Data.updater before).files ≡ none)
    ↔ IsAbandoned calm Data.updater 7_200_000_000_000 before.files left_over
unfolding find World.path_eq bytes_eq
sweep_exact_example =
    sweep_exact calm Data.updater calm-IsFaultless before left_over (plain_file (text "ne")) refl
      refl

-- Nothing stops the service.
abbrev unstopped : Env
unstopped = record calm { ctx_err = λ t. none }

abbrev cannot_wait : Error
cannot_wait = wrap "winsvr: waiting for a user session: %w" [] unsupported

run_unsupported_example :
    (launches (run unstopped codec unsupported_session agent 1 (ok helper) before).1.events
      ≡ launches before.events)
    × ((e : Error) × ((run unstopped codec unsupported_session agent 1 (ok helper) before).0
          ≡ returned (some e))
        × (errors_is e err_unsupported ≡ true))
unfolding bin_path bin_dir find World.path_eq bytes_eq
run_unsupported_example =
    run_unsupported unstopped codec agent (λ t. refl) (λ t. refl) refl (λ e. absurd (cc)) 0
      (ok helper) helper (plain_file (text "old")) before refl refl

unstopped-IsLasting : IsLasting unstopped
unstopped-IsLasting t t' later e over = absurd (cc)

run_gives_up_example : IsRunError agent (ok helper) cannot_wait
unfolding run run_at launch_and_supervise run_loop round after_wait wait_failed
    wait_for_active_console ctx_err say next bin_path bin_dir os_stat existing syscall find
    World.path_eq bytes_eq
run_gives_up_example =
    run_gives_up unstopped codec agent unstopped-IsLasting unsupported_session (ok helper) 1 before
      (run unstopped codec unsupported_session agent 1 (ok helper) before).1 cannot_wait refl

abbrev handler : Handler
handler = record { svc = record { logged = none }; stop_timeout = pos 20_000_000_000 }

unasked_end_fails_example :
    (e : Error) × (◌≡◌ {A = Option Error} (some cannot_wait) (some e))
    × ((execute handler ([] ++ (done (finished (some cannot_wait)) ∷ [])) timed_out).0
        ≡ exited true 1)
unfolding run run_at launch_and_supervise run_loop round after_wait wait_failed
    wait_for_active_console ctx_err say next bin_path bin_dir os_stat existing syscall find
    World.path_eq bytes_eq
unasked_end_fails_example =
    unasked_end_fails unstopped codec unsupported_session agent handler unstopped-IsLasting 1
      (ok helper) before (run unstopped codec unsupported_session agent 1 (ok helper) before).1
      (some cannot_wait) refl refl [] [] timed_out tt

abbrev someone : User
someone = record { temp_dir = text "C:\\tmp"; name = text "ann"; pid = 7; format_time = λ t. [] }

heartbeat_exact_example :
    (((main calm someone (ticks 2 ++ (Helper.done ∷ [])) before).0 ≡ true)
      × Beat calm someone before.files
          (main calm someone (ticks 2 ++ (Helper.done ∷ [])) before).1.files
          (before.tick + 3 * 2)
          helper)
    × (((main calm someone (ticks 2) before).0 ≡ false)
        × Beat calm someone before.files
            (main calm someone (ticks 2) before).1.files
            (before.tick + 3 * 2)
            helper)
unfolding World.path_eq bytes_eq
heartbeat_exact_example =
    heartbeat_exact calm someone (λ t. refl) (λ t. refl) 2 [] before helper refl

abbrev started_by_scm : Host
started_by_scm = record administrator {
  svc = record administrator.svc { is_windows_service = (true, none) };
}

run_logger_exact_example :
    ((run_logger started_by_scm ≡ standard_error) ↔ HasNoLog started_by_scm)
    × (service_logger (agent_service (run_logger started_by_scm))
        ≡ own_logger (logger_of (run_logger started_by_scm)))
run_logger_exact_example = run_logger_exact started_by_scm refl
