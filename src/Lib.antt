-- ===== src/Lib.antt =====
-- The sidecar copies ConfigMaps and Secrets of a Kubernetes cluster into files. It lists them, and
-- then watches or polls them. Each data key of a resource becomes a file in a folder; a key that ends
-- in `.url` is replaced by what a GET of its value answers. Keys and resources that vanish lose their
-- files. When files have changed, a script is run and a URL is called.
--
-- The parts, and the files that model them (paths are those of the repository):
--
-- src/kubeapi.rs is Kubeapi. Items has `Kind`, `Item` and its making from the API's objects, Retry has
-- `with_transport_retry`, Api has `list_page` and `read_named`, Watch has `watch_items`, and
-- Client has `kubeconfig_path`, `init_client` and `server_version`.
-- src/files.rs is Files: `write_data_to_file`, `remove_file` and `unique_filename`. The modules below
-- it hold the theorems: Write, Remove, Names, and Frame for what the operations leave alone.
-- src/http.rs is Http. Auth has the configuration and the basic-auth header, Request has `request` and
-- `body_if_ok`; Frame, Status and Attempts hold the theorems.
-- src/script.rs is Script, with `bytes_repr` and `execute`; Script/Repr reads a rendering back.
-- src/health.rs is Health: Status has the state, its updates and `status_body`, Server has `handle`,
-- and Listen has `bind_listener` and `start_health_server`. Live, Requests and Families hold the
-- theorems.
-- src/logger.rs is Logger: Level and Format have the levels, `logfmt_value` and the line, Init has
-- `init`, and Emit has `emit` with the rollover. Logfmt, Backups, Rollover and Bounds hold the theorems.
-- The other modules' model hands a line to the logger as an event of the trace.
-- src/resources.rs is Resources. Cache has `CachedItem` and `Maps`, Update has `Ctx`,
-- `get_destination_folder`, `update_file` and `iterate_data`, Process has `process_resource`, List has
-- `list_resources`, and Watch has `watch_resource_iterator` and `watch_task`. The theorems are in
-- Frame, Fetch and Maps (what is kept), Removal, Content, Stale, Pass, Gate and Paging (a sync pass),
-- and Events, Skips and Watcher (a connection). Replay has an abstract replay of events on the maps as
-- functions, and Connection compares a whole connection with it. Refine and the modules below it
-- compare a sync with an abstract specification: a store from file names to digests, into which the
-- values of an item are put and from which its vanished keys are taken. Edits and Touches describe all
-- that a watcher task does to the state that the tasks share as a sequence of steps.
-- src/main.rs is Main. Flags has the arguments, Version the version gate, Settings and Run the setup
-- and the first passes, Program `run` up to the watch loop, Monitor a round of that loop, and System
-- the running program as a step relation. Spelling, Gate, Setup, Passes, Turns, Tasks, Safety and
-- Handover hold the theorems.
-- Base holds what all share: texts and bytes as lists of numbers, results, maps as association lists,
-- UTF-8, numbers. Host is the outside world. Examples has the theorems at concrete inputs.
--
-- How state is modelled: a function of the program is a function of `World`, which holds the disk, the
-- rest of the outside (`Net`), the maps that all watcher tasks share, the health state, and the trace
-- of log lines and sleeps. A function that returns a `Result` is an `Act`, and `?` is `>>=?`. One run
-- of a function is that of one task; another task's steps are not mixed in. Theorems about one call or
-- one delivery hold in every world, and so in the one that other tasks have left. Interleavings are in
-- Main/System: the steps there are the sections in which a task changes the shared state, the lowering
-- of `alive` flags, the rounds of the monitor, and SIGTERM, in any order. Main/Tasks relates a run of
-- `watch_task`, with the lowering of its flag, to these steps. What a task reads between its own
-- sections is not followed there.
--
-- What is outside is a parameter: `Kube` has the configuration calls of the kube crate, `Sockets` those
-- of socket2 and tokio, `Payloads` and `LogHost` serde_json and serde_yaml, `LogFiles` the logger's own
-- files. `Host` has the file system, the environment, SHA-256, base64, JSON,
-- floats, the HTTP client, the child process and the API calls, and `Streams` the watch calls.
-- Host/Disk has the laws of std::fs that theorems about files take, and Host/Memory a disk that
-- satisfies them; Host/Smooth describes a folder in which nothing goes wrong, and Logger/Backups has
-- the laws for the logger's files. The order in which a `HashMap` is walked is a parameter too.
--
-- Loops and fuel: the retry loops recurse on the number of attempts left, and loops over lists on the
-- list. The paging loop takes fuel, and as much as there are pages is enough. The watcher's loop has
-- no end in the code; its fuel is the number of rounds to run.
--
-- Integers: `retry_total + 1` is taken modulo 2^32, as in a release build; the watch timeout and the
-- number of backups are cut to 32 bits and the health clock to 64.
--
-- The delay between two attempts is recorded in the trace as the number that the code computes. That
-- `attempt as i32` changes its sign from 2^31 attempts on is not followed, nor is the panic of
-- `Duration::from_secs_f64` for a negative REQ_RETRY_BACKOFF_FACTOR, which ends the process: what is
-- stated of the retry loops is stated of runs in which the sleep returns.
--
-- Not modelled: the asynchronous runtime (`main` only starts it, and the crypto provider), `timestamp`,
-- whose answer is a parameter of `emit`, the accept loop of the health server, and JSON and YAML
-- themselves. A watcher task that panics is not modelled: its handle is taken to be finished exactly
-- when its flag is down. The texts of errors from outside are carried as they are given, and what the
-- program prints before it exits is not kept. `to_lowercase` and `to_uppercase` are exact as far as the
-- comparisons made can tell.
pub mod Base
pub mod Logger
pub mod Main
pub mod Kubeapi
pub mod Resources
pub mod Health
pub mod Host
pub mod Files
pub mod Http
pub mod Script
pub mod Examples
