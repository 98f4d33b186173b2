-- ===== src/Lib.antt =====
-- Leaf is a library for network servers in C++: base/ has the data types, threads and logging, net/
-- the event loop of one thread and the connections that it serves.
--
-- Shared/ has what the modules share: Boolean tests with their reflection lemmas, lists, `int` as ℤ
-- with the division of C++ (Int), `size_t` arithmetic modulo 2 ^ 64 (Words), how a call ends
-- (Outcome: a value, a failed assertion, an access outside the memory, std::length_error), copies
-- within an array (Memory) and how often a number stands in a list (Count).
--
-- Net/Endian: net/Endian.h on a little-endian host.
-- Net/Buffer: net/Buffer.h and net/Buffer.cc. A Buffer is the vector and its two indices; the
--   abstract view is the list of readable bytes, `content` in Buffer/Content. Space has what makes
--   room, Integers the integers in network order, Search the line searches, Transfer readFd and
--   shrind.
-- Net/Channel: net/Channel.h and net/Channel.cc. The poller is seen through the flag `added`.
-- Net/TcpConnection: net/TcpConnection.h and net/TcpConnection.cc. A function for each member
--   function; `step` is one call by the loop, the poller or the user, and `run` a sequence of these.
--   A functor that waits in the loop may run at any time, which covers the loop's own order. The
--   abstract view of the output is `stream` (Bytes, Order); Protocol has the order of the user's
--   calls, Steps and Life put both together, Closing has when the close callback is
--   called, which the server and the client build on.
-- Net/Connector: net/Connector.h and net/Connector.cc, with `step` and `run` as above, except that
--   waiting functors run in the loop's order. Sound and Descriptors follow the descriptors, Retry the
--   timers, Handing what the client is given.
-- Net/Acceptor: net/Acceptor.h and net/Acceptor.cc, with sockets::accept of net/SocketsOps.cc. `opened`,
--   `closed` and `handed_over` follow the descriptors (Descriptors).
-- Net/EventLoopThreadPool: net/EventLoopThreadPool.h and net/EventLoopThreadPool.cc; a loop is its
--   number. Turns compares the round robin with a queue.
-- Net/TcpServer: net/TcpServer.h and net/TcpServer.cc, on the connections, the acceptor and the pool.
--   Each loop has a list of functors, run in its order; loops take turns in any order, and a connection
--   may be used at any time. Names has the map and the names, Stages the stage of one connection, Lives
--   the invariant, Accepting and Removals that the calls keep it, Runs the sequences.
-- Net/TcpClient: net/TcpClient.h and net/TcpClient.cc, on the connections and the connector. Lives has
--   the invariant, Calls and Runs that it is kept, Reconnect a client whose connection has closed.
-- Net/EventLoop: net/EventLoop.h and net/EventLoop.cc, the loop from its construction on, its
--   rounds and its pending functors, under all interleavings with other threads. Order has what each
--   step keeps, Functors the runs.
-- Net/TimerQueue: net/TimerQueue.h, net/TimerQueue.cc, net/Timer.h and net/Timer.cc. Expiry has the
--   order of the timers and their split at a time, Agreement the two sets, Insertion what comes in,
--   Cancelling what is cancelled.
-- Net/PollPoller: net/poller/PollPoller.h and net/poller/PollPoller.cc. Entries has lemmas on
--   vectors, Places the invariant and updates, Swapping and Removal the removal, Active the dispatch.
-- Base/AsyncLogging: base/AsyncLogging.h and base/AsyncLogging.cc, on the buffers of Base/LogStream.
--   Lines has `append`, Writer the thread that writes and its turns with the threads that log: the
--   test of `running_`, the exchange after the wait, and the writing (Rounds, Runs, Drain).
-- Base/BoundedBlockingQueue: base/BoundedBlockingQueue.h, with its threads as counts and a step for
--   what one thread does while it holds the mutex. Wakeups has the invariant.
-- Base/Date: base/Date.h and base/Date.cc. `int` is ℤ; the lists of all results on the way tell where it
--   overflows.
-- Base/LogFile: base/LogFile.h and base/LogFile.cc. The clock, fopen and fwrite answer through Env.
--   Writes has the loop of fwrite, Rolls the files, Bounds when a new one is started.
-- Base/LogStream: base/LogStream.h and base/LogStream.cc. Fresh has the fixed buffers, Decimal the
--   digits, Rendering the chains of operators that have room.
-- Base/Logging: base/Logging.h and base/Logging.cc, the macros and the line that one prints. Lines has
--   one line, Statements sequences of them. The texts of gmtime_r, snprintf and strerror_r are in Env.
-- Base/ThreadPool: base/ThreadPool.h and base/ThreadPool.cc, in the way of the bounded queue. Waits has
--   the invariant, Stopping what `stop` leaves.
--
-- The system is what the definitions take as arguments: the answers of readv(2), write(2), connect(2),
-- poll(2), accept(2), open(2), fopen and fwrite, errno, the time, and what snprintf prints for a
-- double. Asserts are on, as in the build type of the repository.
--
-- Loops: the searches recurse on the bytes; the conversions of integers run on fuel, 20 rounds in
-- decimal and 16 in hexadecimal, as many as the digits of the longest 64-bit numbers. The loop of
-- fwrite has the length of the line as fuel, which is enough where each fwrite takes a byte.
--
-- Not modelled: the destructor of the client; base/BlockingQueue.h and the latch; base/Timestamp.cc;
-- sockets, threads and clocks, which are calls of the system; base/StringPiece.h, which is another
-- project's; the formatting of dates, addresses and events as text; the parts of the repository that
-- only start or print.
pub mod Base
pub mod Net
pub mod Shared
