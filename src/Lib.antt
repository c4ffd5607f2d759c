-- ===== src/Lib.antt =====
-- Stelliberty: the Rust core of a desktop client for the Clash proxy (native/hub) and its background
-- service (native/stelliberty_service).
--
-- The application asks the hub to make the configuration that the Clash core runs. A subscription is
-- parsed, the user's overrides are applied one after the other (YAML that is merged, or JavaScript),
-- the user's chains of proxies become relay groups, and the runtime parameters are injected last. The
-- hub also tests the delay of proxies, one or many at a time, each request being a session that can be
-- cancelled. The service starts and stops the core on commands that come over IPC, and stops it when
-- the application has been silent for too long. The hub talks to the core over HTTP on a pipe or socket,
-- with a pool of connections, shows its streams of traffic, log lines, memory and connections, and looks
-- for newer versions of the application and of the core. Without the service it runs the core as a
-- process of its own; with it, it installs, asks and removes the service.
--
-- Which file models which part:
-- - Base and its children: types, tests on numbers and lists, results, texts; no code of the
--   repository but the `as i32` of tester.rs (Base/Int).
-- - Yaml: the values of serde_yaml_ng; the library's operations are the fields of the record `Yaml`,
--   what the program relies on is `Laws`, and Yaml/Assoc is a concrete library that meets them.
-- - Override/Merge: native/hub/src/atoms/override_processor/yaml_merger.rs (`deep_merge`, `apply`). The
--   loop over an override's entries is `merge_entries`, one round is `merge_entry`, and the tests on
--   the key are `directive`.
-- - Override/Script: js_executor.rs beside it (`apply`); serde_json and QuickJS are the record
--   `Scripting`.
-- - Override/Processor: processor.rs beside it and native/hub/src/atoms/shared_types.rs.
-- - Override/Request: native/hub/src/molecules/overrides/processor.rs (the two `handle`s, as the response
--   that they send). The subscription parser is an argument there.
-- - Override/Download: downloader.rs beside it; what the HTTP client does is the record `Http`.
-- - Config/ChainProxy: native/hub/src/molecules/clash_config/chain_proxy.rs.
-- - Config/Params, Config/Injector, Config/Dns: runtime_params.rs and injector.rs beside it. Each block of
--   `inject_runtime_params` is a function of its own, composed in the order of the source.
-- - Config/Generator: generator.rs beside it.
-- - DelayTest/Node, DelayTest/Sessions, DelayTest/Batch: native/hub/src/molecules/delay_testing/tester.rs:
--   the outcome of one test, the table of sessions with its cancel channels, and the sliding window of
--   a batch. The window's tasks end in any order and a cancellation may come at any time, so the loop
--   is the step relation `Step`.
-- - Service/Manager, Service/Protocol, Service/Handler, Service/Monitor: clash/manager.rs,
--   ipc/protocol.rs, service/handler.rs and the heartbeat loop of service/runner.rs, all under
--   native/stelliberty_service/src. Service/Wire is ipc/client.rs, ipc/server.rs and ipc/error.rs there: the
--   framing, one connection of the server and one command of the client; Service/Logs is the client's
--   subscription to the log.
-- - Subscription: native/hub/src/atoms/proxy_parser/parser.rs, of which molecules/subscription/parser.rs
--   is a copy. Json has the values of serde_json and the record `Libraries` of what the parser calls,
--   Common the query parameters, UrlLinks and TextLinks the links of each protocol, and Parser
--   `parse_subscription` and what it calls. A panic is the outer `none` of an `Option`.
-- - Subscription/Download: native/hub/src/molecules/subscription/downloader.rs: what becomes of the answer
--   to the request, with the decryption by age.
-- - Backup: native/hub/src/molecules/system_operations/backup.rs. Backup/Disk is the part of the file
--   system that it uses, as a state whose calls may each be refused; Content the data of a backup,
--   Create `create_backup`, Restore `restore_backup`, each with what it calls.
-- - Update/Version, Update/Asset, Update/Check:
--   native/hub/src/molecules/system_operations/app_update.rs: `compare_versions`, `find_matching_asset`
--   and the request's `handle`. Update/Core: native/hub/src/molecules/core_update/updater.rs:
--   `find_asset`, `extract_core` and `replace_core`, the disk being what it answers to each call.
-- - Ipc/Utf8, Ipc/Stream: what the client uses of `String::from_utf8` and of the buffered reader.
--   Ipc/Http, Ipc/Pool: native/hub/src/atoms/ipc_client/client.rs: the request text and the reader of a
--   response, and the pool of connections. A request takes a connection in one step, its whole search
--   of the pool included, and gives it back in another.
-- - Network: native/hub/src/molecules/clash_network. Retry, Connect and Request are the requests of
--   handlers.rs with the pool of connections and connection.rs, Http is ipc_client.rs, Socket is
--   ws_client.rs, Streams the streams of handlers.rs. A task that reads a stream is a number in
--   the list of those that run.
-- - Control: native/hub/src/molecules/clash_process. Process is process_manager.rs, with the start on Windows
--   in Process/Windows; Manager and Install are service_manager.rs, where a command to the service is a
--   function of the service's state, so that the handler of Service/Handler can stand for it.
-- - SystemProxy: native/hub/src/atoms/system_proxy/manager.rs, with Linux and Mac for the two platforms and
--   Commands for the commands that they run. What a command makes of the system is a function of the
--   system's state.
--
-- Numbers: an `i32` or `i64` is an integer of Base/Int, and `as i32` keeps the low 32 bits; `as u32` of a
-- list's length is taken modulo 2 ^ 32; times are natural numbers of milliseconds, and an elapsed time
-- stops at 0 as `Instant` does. Loops over lists are structural recursion, and the batch's loop is a
-- relation whose steps lower a measure. Loops that read from a stream run on fuel, one unit for
-- each round: for the header lines more fuel than the stream has bytes is enough, and for a
-- chunked body one unit for each chunk and one more; one that is cut off ends with no fuel. For the log
-- lines of Service/Logs it is one unit for each line and one more. In Network/Request one fuel is given
-- to every exchange, and an exchange that it does not end is a request without an answer.
--
-- A round of the heartbeat loop reads the clock once here. The wait for a killed process, and the forced
-- kills behind it, change nothing of the manager and are left out.
--
-- Where tasks share a pool or a table, a step is what one task does while it holds the lock; the search of
-- the pool for a connection and the start of a stream are one step each.
--
-- Not modelled: log lines, sockets, HTTP requests and the calls of the operating system, but for what
-- their answers are in each place; the system's proxy on Windows, and the autostart and loopback settings, the
-- service's installation on its own side, and the listeners.
pub mod Base
pub mod Yaml
pub mod Override
pub mod Config
pub mod DelayTest
pub mod Service
pub mod Subscription
pub mod Update
pub mod Ipc
pub mod Backup
pub mod Network
pub mod Control
pub mod SystemProxy
