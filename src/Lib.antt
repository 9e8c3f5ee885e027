-- ===== src/Lib.antt =====
-- network_ydxlib: a C++ network library for Linux. One thread runs one event loop; connections, timers
-- and client code register channels with the loop's poller and are called back when their descriptors
-- are ready. Other threads reach a loop only by queueing functors for it.
--
-- - Base: helpers. Base.Tests (Boolean tests), Base.Lists (lists on native numbers), Base.Slices
--   (memcpy into an array), Base.Int (signed numbers), Base.Words (size_t modulo 2^64, int).
-- - Buffer (buffer.h, buffer.cpp): the growing byte buffer of a connection. `Buffer.contents` is the
--   readable part, a queue of bytes.
-- - Stream (stream_buffer.h, stream_buffer.cpp): StreamBuffer, a ring of `size + 1` bytes that holds
--   messages with a length before each.
-- - Channel (channel.h, channel.cpp): the events that an owner wants of a descriptor, and the dispatch
--   of the events that came.
-- - Poller (epoller.h, epoller.cpp): registration of channels by epoll_ctl. Poller.Kernel reads the
--   calls made the way epoll_ctl(2) documents them.
-- - Loop (epoller.h, epoller.cpp): the functors that wait for the loop, its wakeup descriptor, and the
--   rounds of `poll`. Loop.Wakeup interleaves the loop with other threads.
-- - Connection (tcp_connection.h, tcp_connection.cpp): TcpConnection, over Buffer, Channel and Poller.
--   Connection.Events joins it to the dispatch of Channel; Connection.Told says what a user is told.
-- - Connector (connector.h, connector.cpp): the client's connects and retries, over Channel and Poller.
--   What the system gives for each connect is a list of attempts; a call that has used them up is
--   `trying`.
-- - Log (log_stream.h, log_stream.cpp): FixedBuffer, and the conversion of integers to text. Fuel 20 is
--   enough for the digits of 64 bits, and fuel 16 for hexadecimal ones. Log.Numeral says what a numeral
--   is, which the texts are read as.
-- - Receiver (ydx_receiver.h, ydx_receiver.cpp): from the Buffer of a connection to messages on a
--   Stream. Its loop runs on as much fuel as there are readable bytes, and one. Receiver.Wait
--   interleaves it with the threads that wait for a message.
-- - LoopPool (epoller_thread_pool.h, epoller_thread_pool.cpp): the choice of a loop for a connection.
-- - Tasks (thread_pool.h, thread_pool.cpp): ThreadPool, a bounded queue of tasks for workers; the calls
--   are steps in any order, since each holds the mutex. Tasks.Workers is the workers' loop.
-- - Timers (ydx_timer_set.h, ydx_timer_set.cpp, ydx_timer.cpp): TimerSet, the timers in the order of
--   their expiry, with the deletion of timers. Timers.Posted is its calls from any thread, and
--   Timers.Descriptor the channel of its timerfd.
-- - LogFile (file_util.h, file_util.cpp, log_file.h, log_file.cpp): AppendFile and LogFile, on a thread
--   of their own or under their mutex.
-- - AsyncLog (async_logging.h, async_logging.cpp): AsyncLogging, the lines that threads append to
--   buffers in memory and the writing thread's rounds, as steps in any order.
-- - Sender (ydx_sender.h, ydx_sender.cpp): from messages on a Stream to a Connection. Sender.Pipe joins
--   it to Receiver; Sender.Wait interleaves its loop with calls of send, one at a time, within
--   write_buffer and read_buffer too.
-- - Timestamp (timestamp.h, timestamp.cpp): times in microseconds.
-- - TimerWheel (ydx_timer_wheel.h, ydx_timer_wheel.cpp): a ring of buckets of shared nodes, over an
--   interface for the ring; TimerWheel.Deadline is the countdown that specifies it.
-- - Server (tcp_server.h, tcp_server.cpp): TcpServer, the map of its connections and what their loops
--   are asked to run, over LoopPool.
-- - Address (inet_address.h, inet_address.cpp, ydx_endian.h, socket_ops.cpp): addresses and their text,
--   over an interface for the C library.
-- - Threads (thread.h, thread.cpp, ydx_atomic.h, ydx_current_thread.h, ydx_current_thread.cpp): the handle
--   of a thread, and atomic integers.
-- - Acceptor (acceptor.h, acceptor.cpp, socket_ops.cpp): accepting, with the descriptor that is kept
--   for want of descriptors, over Channel and Poller.
-- - Service (tcp_server.cpp, tcp_connection.cpp): a TcpServer and one of its connections, with the tasks
--   that go between their loops.
-- - Client (tcp_client.h, tcp_client.cpp): TcpClient, the life of its one connection.
-- - Logger (logging.h, logging.cpp): a line of the log, over Log.
-- - Launch (ydx_countdown_lauch.h, ydx_countdown_lauch.cpp, epoller_thread.h, epoller_thread.cpp): threads
--   that wait on a condition variable, as steps in any order, with waits that end for no reason.
--   Launch.Close is the end of a loop's thread.
--
-- State is passed explicitly: an operation takes the object's record and gives the new one. What a system
-- call, malloc or a callback gives is an argument of the operation that makes the call, in the order of
-- the calls. A failed assertion and a std::length_error are `none`. size_t is a number below 2^64 with
-- wrap-around written out; lengths of arrays are below 2^63. Loops are structural recursion on lists,
-- with fuel where the list above says so.
--
-- Not modelled: the system calls themselves, threads and locks as objects (their effect is the
-- interleaving of steps), printing, floating point, the text of times (strftime), socket options, the
-- queue of BlockingQueue.h, which does not compile, and the copies of other projects' code (linux_list.h,
-- string_piece.h).
pub mod Base
pub mod Buffer
pub mod Stream
pub mod Channel
pub mod Poller
pub mod Loop
pub mod Connection
pub mod Connector
pub mod Log
pub mod Receiver
pub mod LoopPool
pub mod Tasks
pub mod Timers
pub mod LogFile
pub mod AsyncLog
pub mod Sender
pub mod Timestamp
pub mod TimerWheel
pub mod Server
pub mod Acceptor
pub mod Address
pub mod Client
pub mod Logger
pub mod Launch
pub mod Threads
pub mod Service
