-- ===== src/Lib.antt =====
-- A verification library for Trinity OS: the core system of core_system.py, a simulation of processes,
-- memory and messages, and the HTTP service of trinity_service_main.py with the event routes of
-- trinity_comm_http.py.
--
-- The program. core_system.py holds one class, `CoreSystem`, which keeps a process table, a ready
-- queue, a table of blocked processes, a table of memory regions with a list of region ids per
-- process, and a message queue per process. A client calls `invoke_syscall`, which looks a number up
-- in a call table, counts the call, and runs one of eight handlers; a thread runs `_scheduler_loop`,
-- which gives the process at the front of the ready queue a turn. `initialize`, `start` and `stop` set
-- the system up and let it go. The handlers share all the tables: a process that is created gets
-- memory and a message queue, one that exits gives them up, and messages wake processes that wait for
-- them.
--
-- The service. trinity_service_main.py starts a `TrinityKernel`, which holds a configuration and a
-- flag of readiness, and an HTTP server whose `APIHandler` answers two probes, passes requests under
-- /muscle/ and /events/ on, and lets an authorised client reload the configuration or drain the
-- instance. The handlers of trinity_comm_http.py publish, acknowledge, poll and stream the messages of
-- a broker.
--
-- Which file models which part. The files down to CoreSystem model core_system.py, and those after it
-- the service.
-- - Prelude and its children: shared names, Python's `int` as ℤ over the native numbers, lists.
-- - Dict: Python's `dict`, in insertion order, with the laws of lookup in Dict/Laws.
-- - Enum: an enumeration called on a value. `auto()` counts from 1.
-- - Process, Memory, Ipc, Syscall: the enumerations and data classes `ProcessInfo`, `MemoryRegion`,
--   `IPCMessage`, `SyscallResult`, the entries of the call table and the keyword arguments of a call.
-- - Host: floats, `Any`, the text of an exception and of a number, as parameters.
-- - CoreSystem: the attributes of the class as the record System, `__init__` as init, and
--   `_register_syscalls` as builtin_syscalls and reset_stats.
-- - CoreSystem/Boot: `_detect_capabilities`, `_init_memory`, `initialize`, `start`, `stop`.
-- - CoreSystem/Processes: `_syscall_process_create`, `_syscall_process_exit`, `_syscall_process_wait`.
-- - CoreSystem/Regions: `_syscall_memory_allocate`, `_syscall_memory_free`, `_syscall_memory_map`,
--   `_init_process_memory`, `_free_process_memory`.
-- - CoreSystem/Messages: `_syscall_ipc_send`, `_syscall_ipc_receive`.
-- - CoreSystem/Scheduler: `_scheduler_loop`, `_run_scheduler`, `_execute_process`; its children are about
--   one pass, a round of passes, and the part of priorities.
-- - CoreSystem/Dispatch: `invoke_syscall`, with the binding of keyword arguments and the exceptions.
-- - CoreSystem/Actions: steps that several methods make, such as the blocking of a process.
-- - CoreSystem/Queries: `get_process_info`, `get_memory_info`, `get_syscall_stats`, `get_process_list`
--   and `get_memory_map`; in its child Totals, `get_system_info`.
-- - CoreSystem/Scheduling and CoreSystem/Accounting: the two invariants, and that each step keeps them.
-- - CoreSystem/Reach: histories of a system as a relation.
-- - CoreSystem/Tests: a small history at concrete values, and the theorems applied there.
-- - Json: JSON documents, `dict.get` and `bool` of them.
-- - Web: what the service takes from outside, the state that a request works on, and the monad of code
--   that can raise; in its children, rules for what such code keeps, how it ends, and what it does when
--   no operation fails.
-- - Http: `_json` and `_read_body` of trinity_comm_http.py, `_json` and `_body` of `APIHandler`.
-- - Events: `BROKER` with `_DeadBroker`, and `handle_events_POST`; in its child Consume,
--   `handle_events_GET`. The files under Events are about them: who is let in, what is answered,
--   what is published, polled and streamed, and when a subscription is given back.
-- - Kernel: `TrinityKernel` with `handle_reload` and `handle_drain`.
-- - Api: `do_GET`, `do_POST` and `_scopes_for_path` of `APIHandler`.
-- - Service: the start of the service in `main`; in its child Run, the service from there on, and in
--   Service/Tests a small web and broker at concrete values, and the theorems applied there.
--
-- Conventions. A handler is a function from the state to an outcome and a state: it returns a
-- SyscallResult or it raises, and what was written before an exception stays written. Process ids are
-- natural numbers. Each keyword argument has the type that the handler's signature states, and is
-- absent or given; a keyword that is missing or not known is a TypeError. The texts that stand as
-- region ids are the data type RegionId, so that ids of different kinds differ, and a uuid is given by
-- a number; where a new uuid has to be in no use yet, that is a hypothesis. The reasons in
-- `blocked_processes` are the data type Reason. Every number in the call table has an entry in the
-- statistics from `__init__` on; for one without, invoke_syscall would end with a KeyError, and the
-- model counts nothing. Where the source puts `.name` of an enumeration member into a dictionary, the
-- model keeps the member. Times come from outside: a call takes the clock's readings as an argument,
-- and psutil's answer is an argument of initialize.
--
-- Steps are atomic: a call holds `_syscall_lock` from beginning to end, a pass of the scheduler holds
-- `_proc_lock`, and the handlers are called by invoke_syscall only. A pass that falls between two
-- statements of a call is not modelled.
--
-- The service. A request is a function of the path, the headers, the body and the clock's answers, on
-- a world that holds what the client has received, the broker, the rate limits, the files and the
-- kernel. Code that can raise returns a value or a fault with the world as it is then. The world also
-- holds how the next operations on the connection and on files end, so a theorem for every world is
-- one for every pattern of failures. http.server keeps the status line and the headers of a response
-- in a buffer and writes them at end_headers(), so they are one operation, which fails or not as a
-- whole; so is each write or flush of a body, and the whole of send_error(). Python's conversions,
-- JSON encoding, `authorize_bearer`, the broker and the muscle routes are parameters, as the records
-- Web and Broker and as arguments. A broker's call returns the message's attributes as JSON. An
-- encoded document is ASCII, so its length in characters is its length in bytes. The action log,
-- logging and tracing are taken to raise nothing. Requests are whole steps, one after the other,
-- although the server has a thread for each.
--
-- Bounds and fuel. Every loop of the core runs over a list, so no definition there needs fuel. The
-- loop of the event stream goes on until the clock passes a timeout: stream_loop runs for at most so
-- many rounds and says whether it has ended. Each round reads the clock once, so as many rounds as it
-- takes the clock to reach the timeout are enough. The scheduler's loop has no end of its own:
-- scheduler_loop takes the rounds that are observed, each with what `_stop_event` shows. Sizes,
-- addresses and counters are Python's, without a bound.
--
-- Not modelled. That the file of a descriptor, which `handle_reload` opens for a number as
-- `config_path`, is closed afterwards. Logging, sleeping, the directories that `__init__` makes, and
-- the demonstration `main`. `ProcessContext`, `MemorySegment`, `contexts`, `pending_responses` and the
-- exception classes, which nothing uses. The parsing of the command line, the set-up of logging and
-- tracing, the signal handler and `serve_forever` of the service. test_run_simulation.py, a script;
-- and the C++ prototypes under src, which nothing builds.
pub mod Prelude
pub mod Dict
pub mod Host
pub mod Enum
pub mod Process
pub mod Memory
pub mod Ipc
pub mod Syscall
pub mod CoreSystem
pub mod Json
pub mod Web
pub mod Http
pub mod Events
pub mod Kernel
pub mod Api
pub mod Service
