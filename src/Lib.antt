-- ===== src/Lib.antt =====
-- The asynchronous client of stdio_bus for Python: JSON-RPC requests, streams and notifications over a
-- backend that carries lines of JSON.
--
-- The parts and their files, with paths from the repository's root:
--
--   Client/Pending.antt        stdiobus/client.py, `_PendingRequest`
--   Client/Subscription.antt   stdiobus/client.py, `NotificationSubscription`
--   Client/State.antt          stdiobus/client.py, the attributes that message handling uses
--   Client/Dispatch.antt       `_handle_notification_on_loop`, the response branch of
--                              `_handle_message_on_loop`, `_remove_subscription`, `close`, `_deliver`
--   Client/Loop.antt           `_handle_message_on_loop` whole, `_handle_message`
--   Client/Teardown.antt       `_on_backend_closed`, and the client's share of `stop` and `destroy`
--   Client/Bus.antt            `send`, `_build_request`, the message of `notify`
--   Client/Requests.antt       `request`, `notify`
--   Client/Stream.antt         `stream_request`
--   Client/Lifecycle.antt      `start`, `stop`, `destroy`, `hello`, `subscribe_notifications`
--   Client/Run.antt            histories of calls, messages and wakes in any order
--   Client/Resolve.antt        `_resolve_backend` and its helpers; stdiobus/_resolve_binary.py
--   Client/Construct.antt      `AsyncStdioBus.__init__`, `StdioBusBuilder`
--   Errors.antt, Errors/       stdiobus/errors.py
--   Types/                     stdiobus/types.py
--   Client/Session.antt        `request`, `hello` and `connect` as wholes
--   Client/Queries.antt        `get_stats`, `get_backend_type`, `get_listen_mode` and the counts, and the
--                              defaults of stdiobus/backends/base.py
--   Client/Sync.antt           `StdioBus`
--   Backends/Ring.antt         stdiobus/backends/subprocess.py, `StderrRingBuffer`
--   Backends/Subprocess.antt   stdiobus/backends/subprocess.py, `SubprocessBackend`
--   Backends/Subprocess/Spawning.antt  `_spawn_process`
--   Backends/Docker.antt       stdiobus/backends/docker.py, `DockerBackend`; Backends/Utf8.antt its decoder
--   Backends/Docker/Engine.antt        the calls of the container engine, `_wait_for_ready`
--   Backends/Native/           stdiobus/backends/native.py: State.antt the object and its callbacks,
--                              Starting.antt `start`, Operations.antt the other methods and the wakes by
--                              the loop, Questions.antt the queries, Events.antt histories, Contract.antt
--                              the C library's contract as an automaton
--   Backends/Introspection.antt        what each backend tells of itself
--   Backends/Subprocess/Interleaved.antt  the turns that `start`, the calls of `stop` and the read task take
--   Backends/Docker/Interleaved.antt   the turns that `start`, `stop` and the read loop take
--   Backends/Bindings.antt     stdiobus/native/build_ffi.py, up to what it hands over to cffi
--   System/Carrier.antt        what the client needs of a backend, and its messages over one; System/Carriers/
--                              has the process, the container and the C library as such backends
--   System.antt                the client over `SubprocessBackend`, wired as the constructor wires them
--   Json.antt                  Python's decoded JSON values; Base.antt and Base/ the shared helpers
--
-- The other files hold theorems about the file that their first lines name. A backend calls the client's
-- message handler; the client's table maps identifiers to addresses, the addresses stand for the objects,
-- and the subscribers' queues are kept in the same way, so that the aliases of the source are there. A
-- coroutine is cut at its waits: what a wait comes to is an argument of the step that follows, and a
-- history is any sequence of such steps on the owning loop.
--
-- Two loops of the source end by what the system answers and run on fuel here: the loop that writes the
-- configuration has a round for each byte, and `_wait_for_ready` one for each millisecond of its time-out
-- and one more; both are enough, as their theorems state. The drain of the native `stop` has the bound of
-- the source. Every other function recurses on its data. Python's integers are unbounded, and so are those
-- here.
--
-- Parameters: `json.loads`, `json.dumps` and `str` are a record `Runtime`; a backend is a record
-- `BackendOps` over its own state; what the machine offers (binaries, bindings, system) is a record
-- `Machine`; the operating system's calls for a spawn are a record `Os`, the container engine a record
-- `Engine`, the C library a record `Library` over the type of its handles; how the waits of a start or a
-- stop end is an argument. A user's handler is a number,
-- and its calls are recorded; it does not call back into the bus.
--
-- Not modelled: cffi and the compiler, the environment that a process is given, the task that captures the
-- process's standard error (its ring of lines is), time in the turns of a backend's coroutines, the
-- cancellation of a task that runs a backend's `start` or `stop`, and logging.
pub mod Backends
pub mod Base
pub mod Client
pub mod Errors
pub mod Json
pub mod System
pub mod Types
