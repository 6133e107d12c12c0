-- ===== src/Lib.antt =====
-- npoller: the buffers, the queue, the locks, the connections, the event loop, the thread
-- pool and the logger of a network library in C++.
--
-- The program. Sockets (src/io) are read and written by an event loop, and their bytes stand in
-- `io_buffer`s (src/iobuffer): an `io_buffer` is a deque of pages of 2 MiB with a first and a past
-- position, and its pages come from and go back to one `mem_container`, a store of free pages that
-- all buffers share. Tasks for the event loop and log records pass through an `mpsc_queue`
-- (src/queue), which many threads fill and one empties. Short sections are guarded by the two spin
-- locks of src/spinlock. A `tcp` is a socket; an `event_processor` watches sockets with epoll, hands them
-- their events and runs tasks between them. The pools of src/coroutine_pool run tasks and coroutines on
-- threads of their own, and src/sulog writes the log.
--
-- Files and code:
--   Base, Base/*         lists, words of 64 bits, tests, and `Outcome`: what a C++ call comes to
--   PageStore            what `io_buffer` asks of the store of pages: operations and their laws
--   Pages, Pages/*       pages, the cached page pointer and the copy loops of src/iobuffer/io_buffer.cpp
--   MemContainer         `mem_container` of src/iobuffer/buffer.h; its children: pages are given out
--                        once, the count of free pages, and the pages of all users over any calls
--   IoBuffer/Block       `control_block`, `check`, `__size`, `__shrink_size` of src/iobuffer/io_buffer.h
--   IoBuffer/Push, Pop, Access
--                        the operations of src/iobuffer/io_buffer.cpp; the children of each compare
--                        them with the list of bytes that a buffer holds
--   IoBuffer/View        that list (`Represents`), and what it means that a call returns (`Becomes`,
--                        `Delivers`)
--   IoBuffer/Shrink      `__shrink_size` against the list
--   IoBuffer/Move, Move/Start, ToBack, ToFront, SelfBack, SelfFront, Either
--                        `pop_front_to_other_back_n`, `pop_back_to_other_front_n` and the four functions behind
--                        them; Frame, Span, Owned, Beside and Turning have what their proofs share
--   MpscQueue, MpscQueue/*
--                        `mpsc_queue` of src/queue/mpsc_queue.h: alone, as a list (Fifo), and under
--                        interleaving threads (Threads, Progress)
--   SpinLock/Plain, Reentrant, Backoff
--                        `spin_lock`, `reentrant_spin_lock` and the pauses of their waiting loops, of
--                        src/spinlock/spin_lock.h
--   Tcp, Tcp/*           the status of a `tcp` of src/io/tcp.cpp and src/io/tcp.h: its changes and the
--                        events asked for (Bits), and all calls in any order (Invariant, Lifecycle)
--   Writes, Writes/*     the accounting of waiting writes in src/io/io.cpp: `write_flush`, the bytes
--                        that `direct_write` counts, and `process_write`
--   Tcp/Process, Answer, HalfClosed
--                        `process_event`, `direct_read` and `direct_write` of src/io/tcp.cpp, as they
--                        change the status
--   EventProcessor/Watch, Watched
--                        what `event_processor` of src/io/event_processor.cpp watches, over an
--                        interface of sockets, which Tcp/Ops fills
--   EventProcessor/Tasks, Events
--                        its task queue, and what it does with one event
--   EventProcessor/Shutdown, Destroy
--                        its loop and its destructor as two threads
--   Logger, Logger/*     `simple_logger` of src/sulog: times (Clock, Names), the format string (Format),
--                        and the file with its lines (File, Handles)
--   ThreadPool, ThreadPool/*
--                        `thread_pool` of src/coroutine_pool/threadpool.h as interleaved steps: no task is
--                        lost (Complete), and the destructor that waits (Wait)
--   CoroutinePool/Callback, Waiters
--                        `execute_callback` and the waiters of a `coroutine_task` of
--                        src/coroutine_pool/coroutine_pool.h
--   Reads, Reads/*       `do_register`, `process_read`, `write_flush` and `clean_write` of
--                        src/io/io.cpp
--   Tests/*              concrete inputs
--
-- State. A buffer is its `ControlBlock` and the `Memory` that all buffers share: the bytes of all
-- pages as one map from address and offset, and the store. A call takes both and returns both, or an
-- `Error`: an exception, or `undefined_behaviour` where the code would read past the end of a deque
-- or convert and count beyond what an `int` holds.
-- `size_t` is a native number below 2^64 with its wrap-around written out (`add64`, `sub64`, `mul64`).
--
-- Loops. The copy loops recur on the bytes to copy. Loops that add or give back pages run on fuel, one
-- more than the bytes or pages that they can need; the theorems show that the fuel is enough, since
-- they say that the calls return; so do the rounds of `add_io` and the loops over the tasks, whose fuel is
-- one more than the tasks there are. The bounds of 2^63 keep the additions of the code from wrapping;
-- those of 2^31 and of 2^31 - 1 pages keep what the code holds in an `int` in it.
--
-- Parameters. System calls are given by what they come to. `boost::lockfree::queue` (FreeQueue) and
-- `tbb::concurrent_queue` (ConcurrentQueue) are records of operations and their documented behaviour;
-- Tests/* fills both with lists. Sockets (IoOps) and operations on them (IoOp) are interfaces. What the C
-- library and epoll answer is an argument of the calls.
--
-- Threads. Where several threads work on one object, their accesses are steps in one order, any order
-- (Threads, Plain, Shutdown, ThreadPool, Callback); elsewhere calls follow one another.
--
-- Not modelled: the bytes that sockets read and write, the set-up of sockets and of epoll, the acceptor
-- and the factory (src/io), the futures and handles of coroutines (src/coroutine_pool), the wrapper class
-- `logger` (src/sulog/logger.h), `locally_queue`, `concurrent_buffer` (declarations only) and
-- `io_buffer::page` (unused). Atomic operations are single
-- steps in one order, so that the memory order given to them has no part.
pub mod Base
pub mod PageStore
pub mod Pages
pub mod MemContainer
pub mod IoBuffer
pub mod MpscQueue
pub mod SpinLock
pub mod CoroutinePool
pub mod EventProcessor
pub mod Logger
pub mod Reads
pub mod Tcp
pub mod ThreadPool
pub mod Writes
pub mod Tests
