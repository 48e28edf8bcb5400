-- ===== src/Lib.antt =====
-- TensorPipe: a verification library of the parts that carry its logic.
--
-- A pipe (tensorpipe/core/pipe_impl.cc) moves messages between two processes: descriptors and
-- payloads over a connection, tensors over channels. Each of its reads and writes is an operation
-- that goes through states, kept in a deque by `OpsStateMachine`
-- (tensorpipe/common/state_machine.h), which every channel uses too. The multiplexed-transport
-- channel cuts a tensor in chunks for its lanes; the shared-memory transport moves bytes through
-- ring buffers.
--
-- Files:
-- - Prelude: shared names; tests, lists and words over the native numbers, and masks.
-- - StateMachine: tensorpipe/common/state_machine.h. A machine is the subject's type, the
--   operation's type and the transitioner; an iterator is a sequence number. Below it: lookups
--   (Find), the two loops (Sweep, AdvanceAll), the no-overtaking law and what it keeps (Order,
--   Counter, Counted, Keeps, Replace).
-- - Pipe: tensorpipe/core/pipe_impl.h and pipe_impl.cc. Types has the data, Actions the actions
--   and the messages of the protocol, Advance the two transitioners, Handlers the user's calls,
--   the completions and the errors, Selection the choice of transport and channels, with the
--   agreement of the two ends, Handshake the server's side of the handshake, together with the
--   listener, with the client's side in its Client and Announced, Reply the round trip of the
--   descriptor's reply.
-- - RingBuffer: tensorpipe/common/ringbuffer.h, ringbuffer_role.h, and two functions of system.h.
--   Areas, Grants and Copies are about one access, Fifo, Refines and Queue about two roles.
-- - Mpt: tensorpipe/channel/mpt/channel_impl.h and channel_impl.cc, with the entry points of
--   tensorpipe/channel/channel_impl_boilerplate.h.
-- - Allocator: tensorpipe/common/allocator.h and allocator.cc.
-- - RearmableCallback: the class of tensorpipe/common/callback.h.
-- - Executor: tensorpipe/common/deferred_executor.h. The threads' steps are a relation; a state
--   is reached by any interleaving. Laws is about the on-demand executor, EventLoop and HandOver
--   about the one with a thread of its own.
-- - Listener: tensorpipe/core/listener_impl.h and listener_impl.cc, on top of RearmableCallback.
--   Line and Accepts are about the accept callbacks, Requests and Answers about the registrations
--   of connection requests.
-- - Connection: tensorpipe/transport/connection_impl_boilerplate.h, up to the implementation of a
--   transport. Requests is about what users ask for.
-- - Context: tensorpipe/core/context_impl.h and context_impl.cc. Priorities is about the
--   registered transports and channels, Enrolled about the listeners and pipes.
-- - Tests, Mpt.Tests, Executor.Tests, Listener.Tests, Connection.Tests, Context.Tests,
--   Pipe.Handshake.Tests: runs at concrete inputs.
--
-- State is passed explicitly: a handler takes the object and gives it back, and what it asks of
-- other objects is appended to a history, `calls`, latest first. An object's handlers run one at
-- a time, as its loop guarantees (see Executor); a callback that the user gives does nothing to
-- the object while it runs. A check that stops the program where it fails is a flag of the state
-- where the comment of the state's record names it, or a part of the operation's result; the
-- others, such as those that the code runs in the loop, are left out. A pointer is a number, and
-- a callback is known by the number of its operation.
--
-- The loops of `OpsStateMachine` run on fuel, as many rounds as there are operations, which is
-- enough: each round goes on to the next number, and a lookup past the last operation ends the
-- loop. The other loops follow a list or the number of lanes. The runs of the executors' threads
-- are iterated as often as a measure of the work left says, which is enough when nobody defers
-- more. Sequence numbers are far below 2 ^ 63; the markers of the ring buffer, the counters that
-- go down and the products of the chunks wrap around as in the code.
--
-- Not modelled: memory orders, logging, the contexts of transports and channels, the other
-- channels and transports, the CUDA parts, the event loops over the kernel's polling, the
-- wrappers of the operating system, the bindings.
pub mod Prelude
pub mod StateMachine
pub mod Pipe
pub mod RingBuffer
pub mod Mpt
pub mod Allocator
pub mod RearmableCallback
pub mod Executor
pub mod Listener
pub mod Connection
pub mod Context
pub mod Tests
