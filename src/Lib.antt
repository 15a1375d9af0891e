-- ===== src/Lib.antt =====
-- A model of the browser automation service: the Go code under internal/ that keeps browser sessions
-- and tasks, checks what is asked of it, and drives a browser runtime.
--
-- The program's parts. `AutomationService` (internal/app) takes the calls of the gRPC and HTTP servers.
-- It reads and writes sessions and tasks through a `core.Store`, starts and stops browsers through a
-- `core.Runtime`, chooses proxies through a `core.ProxyController`, and takes the time and new ids from
-- a clock and an id generator. `MemoryStore` is the store that keeps everything in maps; the
-- validators check profiles, inputs and commands before anything is stored.
--
-- Which file models which part:
--   Prelude and its children: shared names; maps with text keys, trimming, decimal text, integers.
--   Core/Errors: internal/core/types.go, errors and their wire form. Core/Status: the status
--     predicates of the same file. Core/Pages: internal/core/pagination.go. Core/Ports:
--     internal/core/ports.go. Core/Messages, Core/Commands: the generated messages, as records with
--     the source's fields; an optional message is an `Option`. Core/Times: times and durations.
--     Core/Reply: the `(value, error)` pairs that Go functions return.
--   App/Validation: internal/app/task_validation.go, selector_validation.go and
--     internal/platform/secretref/secretref.go; Parts and Laws say what is accepted.
--   App/Memory: internal/app/memory.go, memory_session.go, memory_task.go and memory_helpers.go.
--     `Table` is one half of the store, used for sessions and for tasks; Store puts them together.
--   App/Service: internal/app/session_service.go, task_service.go and proto_helpers.go. World has the
--     state and the shapes of early returns; Sessions, Lifetime and Tasks have the methods, under
--     the Go names in snake case; Runs has runs of calls.
--   App/Service/LiveView: internal/app/live_view_service.go, the signing, creating and authorizing of
--     live views; Authorizing says whom a token lets in.
--     Tokens has the way of a token back to its view.
--     Overlap has a stop that another call comes between.
--     Methods gathers the methods for the servers; Frames has the frames and inputs of a view.
--   App/Noop: internal/app/noop_runtime.go.
--   Platform/Urls, Platform/ProxyUrl: internal/platform/proxyurl/proxyurl.go; Collect finds the proxies in
--     a JSON value, as two kinds of lists and a value that hold each other.
--   Adapters/Proxy: internal/adapters/proxyplugin/controller.go; Setup makes the controller.
--   Adapters/ProxyClient: internal/adapters/proxyplugin/proxy_runtime_client.go and
--     proxy_runtime_http.go; Posting has the requests and their repetition, Leasing the leases.
--   Adapters/Camoufox: internal/adapters/runtime/camoufox/runtime_core.go, the parts of its methods that
--     run under the lock, as steps that interleave. Its children Config, SafeId and
--     TailBuffer: config.go, safe_id.go and tail_buffer.go beside it.
--   Adapters/RuntimeConfig: what the config.go of both runtimes have in common.
--   Adapters/Cloakbrowser: internal/adapters/runtime/cloakbrowser/runtime_core.go, with a start as three
--     steps and a stop and a shutdown as two; Steps has runs of them, Counted and Workers count the workers. Config: config.go beside it.
--   Adapters/Worker: internal/adapters/runtime/camoufox/runtime_worker.go, runtime_session.go,
--     worker_response.go and process_control.go, which the cloakbrowser runtime has with other texts.
--   Adapters/Registry: internal/adapters/runtime/runtimeplugin/registry.go.
--   Adapters/Grpc: internal/adapters/grpc/server.go.
--   Adapters/Http: internal/adapters/http/server.go, and the loops of live_webrtc.go. Dispatch chooses the
--     handler, Routes has the handlers, Live the loops over the frames and inputs of a live view.
--   Platform/Env: internal/platform/envx/env.go.
--   Cmd: cmd/browser-automation-service. Capacity: capacity.go. Settings and Migrations: loadConfig and
--     applyMigrations of main.go.
--   Tests: the theorems at concrete inputs.
--
-- How the state is modelled. A method of the service takes a `World`, which is the state of the store
-- and that of everything else that the service calls, and returns its reply with the next world. The
-- service has no lock; a run is a sequence of whole calls, and only App/Service/Overlap has calls that
-- overlap. A method of the memory store runs under the store's lock, so it is one step from a store to a store.
-- Where the source changes a session through its pointer, the next state of the session is a new
-- value; the store clones what it is given and what it returns, so no value is shared with it.
-- The iteration order of a Go map is the order of the list that models the map; the lists that a
-- caller sees are sorted. `sort.Slice` is a stable insertion sort here.
--
-- What stands outside is a parameter: the runtime, the proxy controller, the clock and the ids are an
-- `Environment`, and the service is stated over any store, with the laws that it relies on named in
-- `StoreLaws`. The servers are stated over any service. `KeepsSession` says that a proxy controller changes nothing of a session but its
-- profile. A time is the number of nanoseconds after the zero time.
--
-- Bounds. An `int` is 64 bits wide: page tokens are read up to `max_int`, and a theorem on them says
-- where it needs the bound; the numbers of a query are read as a Go `int`, which wraps. The loop of the proxy
-- client's requests counts its attempts, three at most, and never runs out of them. No definition of the
-- code needs fuel, except `walk`, which follows a client through the pages; it is given one page more
-- than there are entries.
--
-- Not modelled: the console and the scripts of the workers, which are input and output; the listeners and
-- signals of the entry point; the making of WebRTC peers, which is the WebRTC library's; the Postgres
-- repository, which is SQL; the protobuf encoding. The start of a runtime's processes is not modelled
-- either.
pub mod Prelude
pub mod Core
pub mod App
pub mod Platform
pub mod Cmd
pub mod Adapters
pub mod Tests
