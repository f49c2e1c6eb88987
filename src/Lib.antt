-- ===== src/Lib.antt =====
-- Tateyama is the base of a database server. This library models five parts of it: the shared-memory
-- wires between clients and the server, the queue that gives clients a slot for a session, the
-- endpoints that talk to the clients, the sessions with their variables, and the task scheduler.
--
-- How the parts interact. A client asks the connection queue for a slot, and the server answers it
-- with a session id. The session then has a request wire, which the client writes and the server
-- reads, a response wire in the other direction, and result set wires that the server writes records
-- to. A client may also come over a TCP stream. A session begins with a handshake, and ends when the
-- client goes, when it is shut down, or when its time is over. The session component keeps the
-- sessions, and its service looks at them and changes them. The server runs the requests as tasks of
-- the scheduler.
--
-- Base: strings, lists, options and numbers, for all the other modules. A `std::size_t` is a number
-- with its wrap-around written out (Base.Words).
--
-- Wire, of src/tateyama/endpoint/ipc/wire.h:
-- Wire.Ring has the copies in and out of the ring (`write_in_buffer`, `read_from_buffer`); Ring.Stream
--   and Ring.Copy say what a copy does to the bytes seen as a stream.
-- Wire.Header has `message_header`, `response_header` and `length_header`, and the interface
--   HeaderKind, which `simple_wire<T>` takes its `T` from; Header.Kinds fills it.
-- Wire.SimpleWire has `simple_wire`. A blocking call is one step for each chunk it moves, and a step
--   is `none` while the call has to wait. SimpleWire.Valid is the invariant, SimpleWire.Chunks what a
--   chunk does, SimpleWire.PayloadView the view that `payload` gives.
-- Wire.Transfer has a writer and a reader of one wire whose steps interleave in any order.
-- Wire.RequestWire, Wire.ResponseWire and Wire.ResultWire have the three wires made from it.
-- Wire.ConnectionQueue has `connection_queue`; ConnectionQueue.Desk is the history of slots that are
--   handed out and returned.
--
-- Endpoint, of src/tateyama/endpoint:
-- Endpoint.Stream has `stream_socket` of stream/stream.h, Stream.Await its loop `await`, one round for
--   each answer of `poll`, Stream.Receive the receive loops on any cutting of the bytes, and
--   Stream.Slots what is sent for the slot of a result set that the client has closed.
-- Endpoint.Handshake has `worker_common::handshake` of common/worker_common.h, with its data in
--   Handshake.Message, Endpoint.Expiration the expiration of a session and of its authentication,
--   Endpoint.AliveTimer `alive_timer`, and Endpoint.Requests the table of the requests with cancel and
--   shutdown.
-- Endpoint.WireWriter has `resultset_wire_container_impl` of ipc/bootstrap/server_wires_impl.h, with the
--   annexes and the thread that moves them to the wire; WireWriter.View is what the wire comes to hold,
--   and WireWriter.Steps what the writer promises. Endpoint.EndOfRecords has the end of the records of
--   `resultset_wires_container_impl`, and Endpoint.ResponseWriter `response_wire_container_impl`, both
--   of the same file.
--
-- Session, of src/tateyama/session and include/tateyama/session:
-- Session.Variables has the variable sets and the declaration sets, Session.Context a session and its
--   shutdown request, Session.Container the container, and Session.Bridge the operations of the
--   session resource, which also erase the expired sessions that a search comes to; Bridge.Search is
--   how they come to their session, Bridge.Ownership and Bridge.Changes what they leave of the sessions
--   of others; Session.Numbers has the standard library's conversions that they use.
--
-- Scheduler, of include/tateyama/task_scheduler:
-- Scheduler.Queue is `basic_queue` over the interface of a concurrent queue, Scheduler.Notifier
--   `periodic_notifier`, Scheduler.Selection the choice of a worker, Scheduler.Dispatch the placement
--   of tasks, Scheduler.Worker and Scheduler.Conditional the two kinds of worker.
--
-- Tests has runs on concrete data, and an input for each theorem that has hypotheses.
--
-- Fuel. The loops of `worker::init` and of the conditional worker get one more than the number of
-- tasks in the queue, of which each round removes one. The search for a suspended worker gets the
-- number of workers, each of which it passes once. `to_string` has twenty digits, enough for 64 bits.
-- `drain` runs as many rounds of the writer thread as its number says, and its theorem says how many
-- are enough.
--
-- Parameters. The concurrent queue of TBB is the record ConcurrentQueue, with the laws of a first-in
-- first-out queue. `boost::lexical_cast` is an argument of `set_valiable`. What protobuf reads from a
-- message, what the authentication service and the clock answer, and what `poll` and `::recv` give,
-- are arguments. A -1 of `::recv` makes what follows undefined.
--
-- Not modelled: the wait flags, notifications and timers of condition variables, which only decide
-- when a waiting process looks again; the memory order of atomics; shared memory allocation; the set
-- of result set wires around one wire; the listeners; the status provider; threads; and the other
-- components of the server, which are glue to protobuf, gRPC, HTTP and file services.
pub mod Base
pub mod Wire
pub mod Session
pub mod Endpoint
pub mod Scheduler
pub mod Tests
