-- ===== src/Lib.antt =====
-- A model of the backend of the Jitterentropy analysis dashboard, in the folder app.
--
-- Parts. The page and the backend exchange flat JSON objects (app/bridge_json.h). The backend reads
-- random bytes from the jitterentropy library through a wrapper (app/rng_wrapper.c) that holds one
-- collector, and the wrapper reports each event to a monitor of counters and of two rings of samples
-- (app/health_monitor.c). The bytes and the times of the reads are judged by statistics
-- (app/entropy_stats.c). A benchmark (app/benchmark.c) times runs of the wrapper, and a program for the
-- command line (app/main.c) uses all of these. So does the program with the window (app/main_gui.cpp):
-- its page sends messages, a job runs on a worker thread, one at a time, and a timer sends the page a
-- frame of telemetry, which takes the result of the last job with it.
--
-- Files.
--   Prelude, Double: shared names, lists and integers over the native numbers; what the code does with
--     `double`, as an interface without laws, instantiated by whole numbers in the examples.
--   Bridge: app/bridge_json.h. Bridge/Text has `SkipWs`, `ParseString` and `JsonEscape`, Bridge/Object
--     has `ParseFlatObject`, Bridge/Getters has `GetString`, `GetBool` and `GetInt`, Bridge/Numbers has
--     `Finite`. A position in a text is the rest of the text; a `false` result is `none`.
--   Ring, Monitor: app/health_monitor.c. `history_ring` and `jitter_ring` are one model of a ring; the
--     static variables are the record `Monitor`, a function `health_monitor_f` is `f`. Each holds the
--     lock from its first access to its last and is one step. Monitor/Account is what it promises.
--   Stats: app/entropy_stats.c, a module for each test.
--   Library, Rng: app/rng_wrapper.c. The jitterentropy library and the performance counter are the
--     record `Library` of functions on a world; the static variables are the record `Rng`.
--   Benchmark: app/benchmark.c, with the cancel flag at each poll as an argument.
--   Cli: app/main.c. Cli/Args has the loop over the arguments, Cli/Text and Cli/Errors what it prints,
--     Cli/Run what `main` does with the arguments, and the two together as `program`.
--   Print: numbers and bytes as text.
--   Gui: app/main_gui.cpp. Gui/State has the static variables as the record `Gui` with
--     `PublishRejection`, `ReapWorkerHandle`, `TryAdmitJob`, `PublishWorkerStartFailure` and
--     `RecordTimeline`; Gui/Jobs the bodies of the two workers; Gui/Threads the worker threads, one
--     phase from each visible change to the next, and `WM_DESTROY`; Gui/Messages the handler `Invoke`;
--     Gui/Telemetry `BuildTelemetryJson`: the values of a frame, and in Gui/Telemetry/Text their text
--     (how the stream prints a `double` is an argument); Gui/Events the program as a list of events,
--     in any order; Gui/Window `main`, the callbacks of the browser and `WndProc`, Gui/Place where
--     `main` puts the window, Gui/Page `LoadGuiHtmlFile`, Gui/Counted the counts of references to the
--     handlers.
--   Examples: the theorems at concrete inputs.
--
-- Integers and loops. `uint64_t`, `size_t` and `unsigned int` counters that can wrap do so in the
-- model; `int64_t` counts of bits are plain numbers. Loops over data are recursion on the data. Five
-- run on fuel: the members of an object and the arguments of the command line (any amount above the
-- length gives the same result), the windows of a test (one round for each sample), the reads of
-- `get_random_bytes` (one round for each byte asked for, since each round but the last adds one) and the
-- chunks of a "generate" job (likewise).
--
-- Threads. What a worker does between two points where another thread sees the difference is one step.
-- The work itself is one step: a Cancel that arrives meanwhile is an argument, the poll that first sees
-- it, and what the window's thread does to the monitor meanwhile comes before or after the work. So the
-- moment at which `shutdown_rng` has freed the collector and has not yet told the monitor is no state of
-- the model, and nothing is stated of what a frame shows of the monitor during a job. The steps of
-- workers between the taking of a result for a frame and the timeline of that frame are an argument of
-- `build_telemetry`.
--
-- The library. What the reads of the jitterentropy library give is compared with a log, a function of the
-- world to which each read appends its bytes; Rng/Journal keeps one beside any library.
--
-- The window. The loop over the messages takes its inputs in any order. Behind `PostQuitMessage` it ends
-- at the end of the inputs: those queued are for a window that is gone, but for a callback of the
-- browser, behind which the program is not followed. What Windows and the browser answer to a call is an
-- argument.
--
-- Not modelled: wiping memory, the folder for the data of the browser and the messages that
-- app/main_gui.cpp shows, the page (app/gui), tests, and the library itself (jitterentropy-library),
-- which is another project's.
pub mod Prelude
pub mod Bridge
pub mod Double
pub mod Print
pub mod Ring
pub mod Monitor
pub mod Stats
pub mod Library
pub mod Rng
pub mod Examples
pub mod Benchmark
pub mod Cli
pub mod Gui
