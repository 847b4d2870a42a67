-- ===== src/Lib.antt =====
-- PyZMQ, the Python binding of ZeroMQ: a verification library for the parts of it that carry logic
-- of their own over the libzmq binding. Each part is a module with its state as a record, one
-- definition for each method, and child modules with the proofs.
--
-- The parts, and how they interact:
-- - Poller (zmq/sugar/poll.py): the list of registered sockets and the dictionary of positions.
-- - Z85 (zmq/utils/z85.py): the text form of keys; Auth uses it for CURVE.
-- - Auth (zmq/auth/base.py): the configuration of `Authenticator` and the check of each mechanism;
--   Auth/Zap is the handler of ZAP requests, which screens the address, calls the mechanism's check
--   and replies. The reply is appended to the messages that `zap_socket` has sent. Text decoding is
--   a parameter (`Codec`), as is the loader of certificates.
-- - Stream (zmq/eventloop/zmqstream.py): `ZMQStream`. The zmq socket is a parameter (`Driver`), the
--   user's callbacks are another (`World`): they may call any method of the stream. The event loop is
--   the list of the calls that were scheduled. Stream/Flush is `flush`; its loop runs on fuel, and
--   Stream/Flush/Bound shows how much is enough where a limit is given.
-- - Async (zmq/_future.py): `_AsyncSocket`, the queues of futures of the asyncio and tornado sockets.
-- - Context (zmq/sugar/context.py): the global instance, the sockets of a context and its defaults;
--   `close_socket` is `Socket.close` (zmq/sugar/socket.py, over zmq/backend/cffi/socket.py). The calls of
--   the backend are parameters, and each may raise; one that blocks for ever, as `term` may while sockets
--   are open, has no result here.
-- - Device (zmq/devices/basedevice.py): the queued socket operations and the run of a device;
--   Device/Proxy adds the monitor socket (zmq/devices/proxydevice.py), and Device/Monitored is the queue
--   in Python (zmq/devices/monitoredqueue.py).
-- - Socket (zmq/sugar/socket.py, with the setters of zmq/sugar/frame.py): sending and receiving messages
--   of several frames over the backend's socket, which is a parameter (`Driver`) over a state of the
--   network; Socket/Ports binds to random ports, Socket/Marks has the high-water marks, and
--   Socket/Monitoring the monitor socket. The receiving loop runs on fuel.
-- - Monitor (zmq/utils/monitor.py): the messages that arrive on a monitor socket.
-- - Tracker (zmq/sugar/tracker.py): the tree of trackers. Trackers and events are objects with an
--   identity; Tracker/Wait is `wait`, with the events and the clock as parameters.
-- - Select (zmq/sugar/poll.py): `Poller.poll` and `select` over the backend's `zmq_poll`.
-- - Cffi (zmq/backend/cffi): the backend over the functions of libzmq, which are parameters. Cffi/Poll is
--   `zmq_poll`, which Select takes as a parameter; Cffi/Calls repeats calls that a signal interrupts;
--   Cffi/Options converts the values of options by the types of Constants; Cffi/Socket counts the
--   messages that are alive; Cffi/Context is the context. Loops that wait for libzmq run on fuel, and
--   Cffi/Poll/Retries says how much is enough.
-- - Errors (zmq/error.py): the exceptions by error number, and the check of return codes and versions.
-- - Constants (zmq/constants.py): the enumerations and the names that the module binds.
-- - Auth/Thread (zmq/auth/thread.py): the messages from `ThreadAuthenticator` to its thread, which
--   calls the `Authenticator` of Auth.
-- - Certs (zmq/auth/certs.py): the text of certificate files, over a `Codec` that has Python's decoding,
--   encoding and `str.format`. Its `load_certificates` is what Auth takes
--   as a parameter.
-- - Garbage (zmq/utils/garbage.py): the references that are held while libzmq uses the memory.
-- - Attributes (zmq/sugar/attrsettr.py): options of sockets and contexts as attributes, by the names of
--   Constants, which are a parameter there.
-- - Base: shared names. Base/Exec is the monad of methods, which mutate an object and may raise, and
--   what was written before a raise stays written; Base/Post, Base/Gives, Base/Leads and `Keeps` of Base/Exec
--   are postconditions and invariants of methods. Base/Mask has poll masks as sets of the
--   events that are used here, without POLLPRI (zmq/constants.py), checked against their bits. Base/Dict is a `dict` as an association list,
--   and Base/Int has integers over the native numbers.
--
-- Sockets, contexts, futures and callbacks are numbers. Numbers of Python are unbounded; the 32-bit
-- words of Z85 and its refusal of larger ones are written out. Logging is left out everywhere.
--
-- Not modelled: the Cython backend and the frames of the other one (bindings to libzmq), the copy of
-- Tornado (zmq/eventloop/minitornado), gevent variants, ssh tunnels, log handlers, decorators, the
-- build, and the glue that runs an authenticator or a device in a thread or a process: they do I/O or
-- only pass calls on.
pub mod Base
pub mod Async
pub mod Attributes
pub mod Auth
pub mod Certs
pub mod Cffi
pub mod Constants
pub mod Context
pub mod Device
pub mod Errors
pub mod Garbage
pub mod Monitor
pub mod Poller
pub mod Select
pub mod Socket
pub mod Stream
pub mod Tracker
pub mod Z85
