-- ===== src/Lib.antt =====
-- Verification of winsvr, a Go library that turns a program into a Windows service which keeps a
-- payload up to date and runs it in the signed-in user's session.
--
-- The program. A Supervisor (supervisor.go) is the service's Run. It first updates the payload
-- through an Updater (update.go), trying again until a check passes, then launches it in the session
-- of the active console (session_windows.go) and restarts it, with a growing delay, until the service
-- is stopped.
-- elevation.go decides whether a failed launch is tried again as administrator. winsvr.go and
-- service_windows.go run a service under the service control manager, and eventlog_windows.go is
-- the slog handler that it logs with. manager_windows.go installs, removes, queries and controls the
-- service, and example/agent is a service program that does all this by its commands; example/helper
-- is a payload for it. On other platforms stubs stand in for the Windows calls.
--
-- The files:
--   Base        names of the library, tests, lists, int64, bytes, and strconv's decimal numerals
--   Go          what the program uses of Go: errors, the state and its environment, the monad of
--               fallible effects, files, and the calls of os, io, net/http, context, time and slog;
--               Steps is about relations between states that every step of an update keeps
--   Backoff     sleep, grow and healthyAfter of supervisor.go
--   Update      update.go: Config (Updater, payloadInfo, the bounds), Redirect
--               (refuseTLSDowngrade), Checksum (fileCRC64), Sweep (isGeneratedTemp, sweepTemps),
--               Fetch (do, head, fetch), Install (install, download), Check (loadState, saveState,
--               matchesInstalled, check, EnsureLatest); Steps shows what all of their effects keep
--   Elevation   elevation.go: chooseElevation, shouldAutoElevate
--   Supervisor  supervisor.go: Config (Supervisor, log, binPath, the delays), Round (one round of
--               the loop of Run), Run (Run, updateBeforeLaunch). The others are about them: Bounds
--               and Rounds about the states of the loop, Elevates about when it launches elevated,
--               Updates and Keeps about what Run keeps, Ends, Whole, Cancelled, Stops, Fatal and
--               Errors about how it ends, Vouched and Payloads about what it launches, and Served
--               about Run under Execute
--   Framework   Utf8 (unicode/utf8), Text (truncate, eventText, runRecovered of winsvr.go), Config
--               (serviceLogger, displayName, ServiceState of winsvr.go), Handler (Execute of
--               service_windows.go), Service (Run of service_windows.go, ServiceLogger of
--               supervisor.go), EventLog (eventlog_windows.go)
--   Session     session_windows.go: Windows (the Windows calls), Token (userToken, errnoText), Launch
--               (LaunchInSession), Console (ActiveConsoleSession, WaitForActiveConsole), Process
--               (Wait, Close), Service (the four of them as the supervisor's Session); Handles
--               and Verdicts are the rules that effects on handles go by, Rights is about the token of
--               a launch, Leaks and Tidy put the supervisor on top
--   Manager     Calls (the service control manager's answers), Install (Install), Remove
--               (stopAndWait, Uninstall), Control (Status, Start, Stop) and Elevate (Elevate) of
--               manager_windows.go
--   Agent       Desk (the constants of example/agent/main.go, and what it runs in), Interact
--               (interact_windows.go), Logs (runLogger, fileLogger), Program (main, dispatch,
--               ensureAdmin); Admin, Honest and Diagnostics are about it
--   Helper      example/helper/main.go
--   Unsupported session_other.go, manager_other.go, service_other.go, eventlog_other.go and
--               interact_other.go
--   Tests       runs on concrete data
--
-- The state. An effect is a function from World to a result and a World (Go/Exec). A World holds the
-- files by path, the log records, the events outside the process and a tick that every effect
-- advances. What the program does not decide is asked of an Env by the tick: which call of the
-- operating system fails and how, the clock, random numbers, ctx.Err(), which arm of a select wins,
-- and what the server answers. An Env may be any sequence of failures, answers and cancellations.
-- An error keeps its format string, its arguments and what it wraps, so that
-- errors.Is is a function on it; the status line in an error of `do` is kept as its code.
--
-- The handler. Execute is a function of the sequence that its first select receives and of what its
-- second one receives after a request to stop; its result is how it returns, with the statuses it
-- sends, the cancellation of the context and the records it writes, in order.
--
-- The manager. The calls to the service control manager are recorded with what they answer, which an
-- Scm decides by the tick, as it does the reported state and the time. ERROR_ numbers are those of
-- Windows.
--
-- The session. What a Windows call answers is asked of a `Windows` by the tick: the number of its error
-- if it fails, else the handle, the number or the list that it gives. A call that hands out a token,
-- an environment block, a job, a process, a thread or a list of sessions leaves the event `acquired`,
-- and giving it back leaves `released`, so that what is open can be counted. A `defer` is `closing`
-- around the rest of the function. The errors that the source drops are those of closing calls.
--
-- Parameters. encoding/json on payloadInfo is a Codec; where a theorem needs its round trip, only
-- records whose ETag is valid UTF-8 are taken to be read back as they were. What the supervisor
-- calls of the session is the interface Session, so its theorems hold of any; Session/Service fills
-- it with session_windows.go. ComposeCommandLine and EscapeArg, svc.IsWindowsService, svc.Run and
-- debug.Run, strings.ToLower, the texts of messages and the form of a time are parameters.
-- os.Executable is an argument of run. A path is a directory and a base name; a time is in
-- nanoseconds and never negative; a Duration is an integer, with the sum that grow takes wrapped to
-- 64 bits.
--
-- Fuel. The loops of Run and of updateBeforeLaunch take fuel, one unit a round, and their outcome is
-- `running` where it is used up: the source does not bound them either. A round takes at least one
-- tick, so one unit for each tick until the context is done, and one more, is enough. The loop of
-- stopAndWait takes fuel as well: 20 s in steps of 300 ms are at most 68 rounds; with less, Uninstall
-- goes on past the wait. WaitForActiveConsole, Wait and Elevate poll, one unit a round, and are
-- `unsettled` where the fuel is used up; one unit for each tick until the context is done, and one
-- more, is enough for them too. Every other loop counts down a constant of the source or goes down a
-- list.
--
-- Not modelled: the Go tests, and the build files and resources. HTTP bodies are not closed, the
-- client's timeout is one of the errors that a request may answer, and the wait of a timer takes no
-- time of its own, only the tick of its answer; so the five seconds of the helper's ticker are not
-- modelled either, only that it ticks. os.WriteFile fails at its open or at its write, which then
-- writes nothing; a failing Close and a partial write are left out. Bin is taken for the base name
-- of a file, as the doc of the field has it, and not split at separators. errors.Is compares causes
-- and does not ask syscall.Errno.Is, so an errno is none of the errors of package os. The three
-- recovery actions have one delay, which is kept once. A listing of a directory has each name once.
pub mod Base
pub mod Go
pub mod Backoff
pub mod Unsupported
pub mod Update
pub mod Elevation
pub mod Supervisor
pub mod Framework
pub mod Helper
pub mod Manager
pub mod Session
pub mod Agent
mod Tests
