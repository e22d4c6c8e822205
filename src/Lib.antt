-- ===== src/Lib.antt =====
-- Verification of the timer containers, the thread pool, the request parser and the small
-- servers of high-performance-linux-server-programming, a collection of the building blocks of
-- a Linux server in C++.
--
-- The program's parts. The timer containers (a sorted list, a wheel, a heap) keep the
-- connections' timeouts; a server adds a timer per connection, moves or deletes it when the
-- connection is used or closed, and calls `tick` on a signal. The request parser is a server of
-- its own that reads an HTTP request from a socket into a buffer and parses it line by line as
-- it arrives. The thread pool hands requests to worker threads through a queue behind a lock
-- and a semaphore. The other programs each show one system call or one way to wait for events.
--
-- Which file models which part.
-- - Base: shared names, Boolean tests, lists over the native numbers, and chains of accesses
--   that may be undefined behaviour.
-- - Nodes: the heap memory of the two intrusive timer containers, a map from addresses to
--   nodes. A read, a write or a delete through a null or freed pointer is the result `fault`;
--   `Nodes.Returns.Returns` is total correctness: the command ends, without a fault and with a
--   postcondition.
-- - SortTimerList: include/sort_timer_list.h and src/sort_timer_list.cc, one function per
--   method with the method's name (`add_timer_after` is the private overload of `add_timer`,
--   `destroy` the destructor). `SortTimerList.Client` is a program that calls them in any
--   order.
-- - TimeWheel: include/time_wheel.h and src/time_wheel.cc, likewise. `IsWheel` says that the 60
--   slots are disjoint lists; `TimeWheel.Agenda` reads a wheel as the number of ticks that each
--   timer has left, the abstract view that `tick` refines.
-- - TimeHeap: include/time_heap.h and src/time_heap.cc. The array is a list of pointers, a
--   timer is looked up in a map of live timers, and `none` is undefined behaviour.
--   `percolate_down` is modelled with the precedence that its loop condition has in C++.
--   `TimeHeap.Pop.popped` describes what `pop` comes to, and `TimeHeap.Built` is a client that
--   adds timers to a new heap.
-- - Locker: include/locker.h and src/locker.cc, over a parameter that gives the result of each
--   POSIX call after the calls made before.
-- - ThreadPool: include/thread_pool.h and src/thread_pool.cc. The constructor is a function;
--   `append`, `run` and the destructor are the constructors of the relation `Step`, one for
--   each access to the shared state, and `Steps` are their interleavings, until the members are
--   destroyed.
-- - SystemCalls: the calls that the programs make and how a program runs over the list of the
--   system's replies; `SystemCalls.Descriptors` reads the open descriptors off the calls. A run
--   may end, abort in an assert, wait in a call that does not return, or be undefined
--   behaviour.
-- - Servers: the `main`s of src/tcp_recv.cc, src/tcp_send.cc, src/tcp_recv_buffer_size.cc,
--   src/tcp_send_buffer_size.cc (Servers/Tcp), src/accept_connection.cc, src/listen_backlog.cc,
--   src/dup.cc, src/sendfile.cc, src/splice.cc, src/timeout_connect.cc (Servers/Files),
--   src/select.cc (Servers/Select), src/get_server_by_name.cc (Servers/Daytime) src/sigurg.cc
--   (Servers/Urgent) and src/writev.cc (Servers/Writev, with the text of the header in
--   Servers/Header), named after their files, `_main` where the name is taken.
-- - Epoll and EpollOneShot: src/epoll.cc and src/epoll_one_shot.cc, with `lt`, `et` and
--   `worker` under their names; `EpollOneShot.Threads` has `main` and its workers as steps that
--   interleave.
-- - IpcPrivate: src/ipc_private.cc, the calls of the parent and of the child as the
--   constructors of the relation `Step`; a run begins behind `semget`.
-- - SendFd: src/send_fd.cc, over the layout of a control message.
-- - Processes: src/guid.cc and src/sigmask.cc. CheckEndian: src/check_endian.cc.
-- - UnblockConnect: `set_non_blocking`, `unblock_connect` and `main` of src/unblock_connect.cc,
--   over a record of what the system calls return.
-- - HttpParse: src/http_parse.cc, with `parse_line`, `parse_request_line`, `parse_headers`,
--   `parse_content` under their names, `HttpParse.Server.receive` and `serve` for the loop of
--   `main`, and `HttpParse.Main.http_main` for the whole of it over the system's replies. The
--   buffer is a list of bytes and an access outside it is `none`.
--
-- Bounds and fuel. A loop takes its number of rounds at most as a first argument, and the
-- theorems are stated for every number that is large enough (the length of a list, or of the
-- buffer): they prove that the loop ends. Times and sizes are natural numbers; they are
-- compared and counted up by one, and no width is reached by the sizes of the buffers. Where
-- the source's index can step out of its buffer the model says so.
--
-- What a callback does is not modelled: it is recorded, and taken not to change the container
-- that calls it. Log output is left out. The library functions on strings are defined by their
-- documented behaviour on the bytes up to the NUL. Signals are modelled where src/sigurg.cc and
-- src/listen_backlog.cc handle them; that they end a call early elsewhere is a reply of that
-- call.
pub mod Base
pub mod Nodes
pub mod CheckEndian
pub mod Epoll
pub mod EpollOneShot
pub mod HttpParse
pub mod IpcPrivate
pub mod Locker
pub mod Processes
pub mod SendFd
pub mod Servers
pub mod SortTimerList
pub mod SystemCalls
pub mod ThreadPool
pub mod TimeHeap
pub mod TimeWheel
pub mod UnblockConnect
