-- ===== src/Lib.antt =====
-- The C programs of the seminars, modelled from their sources.
--
-- The repository holds small programs, one or more a seminar, that share no library. The ones
-- modelled here carry state from call to call and have to survive what the system may answer:
--
-- * input and output through descriptors (sem03-lowlevel-io-fs). Io/ReadRetry is `read_retry` of
--   smart_reprinter.c and Io/Reprinter its `main`; Io/WriteRetry and Io/BufferedWriter are
--   `write_retry`, `struct BufferedWriter`, `buffered_write` and `write_impl` of buffered_perf.c;
--   Io/CopyFile is the pair of loops of error_handling_io.c and of sized_io.c.
-- * the echo server on epoll (sem10-net-sockets/snippets/epoll/server_epoll.c). Epoll/Connection
--   is `fd_data` with `read_buff` and `write_buff`; Epoll/Event is `disable_io_block`,
--   `close_connection` and `process_epoll_event`; Epoll/Loop is `main`. Epoll/Invariant says how
--   the program's objects, its descriptors and the interest list fit together.
-- * the echo servers over TCP and their client (sem10-net-sockets/snippets/tcp/tcp_server.c,
--   tcp-fork/tcp_server.c and tcp/tcp_client.c). Net/Socket is `server_socket_init`, which the
--   three servers have in the same words; Net/Message is `read_message` and `write_message`;
--   Net/Session is the loop over the messages of a client; Net/TcpServer and Net/ForkServer are
--   the `main`s of the servers, the second with the handler of SIGCHLD; Net/Client is `main` of
--   the client, on a list of bytes for its standard input.
-- * the echo server over UDP and its client (sem10-net-sockets/snippets/udp/udp_server.c and
--   udp_client.c) are Net/UdpServer and Net/UdpClient, on the calls of Net/Datagrams. Net/UdpEcho
--   is about the two together.
-- * processes (sem07-processes/snippets). Process/Descriptors is the table of descriptors of a
--   process, Process/Pipe is pipe.c with its three processes, and Process/Shell is how
--   simple_shell.c makes the arguments of `execvp` of a line.
-- * signals (sem09-signals/snippets). Signal/Masked is masks/sigprocmask_demo.c; Signal/Suspended
--   is masks/sigsuspend_demo.c and sigaction/sigaction_demo.c. A schedule is the list of the steps
--   of `main` and of the signals sent to it, in order. Signal/Queued is realtime/sigqueue_demo.c,
--   with the steps of the parent, of the child and of its handlers, which may interrupt each
--   other.
-- * threads (sem08-pthread-sync/snippets). Sync/Litmus is faulty/atomic.c, Sync/Deadlock is
--   mutex-problem/problem.c, Sync/Counter is no-sync/no-sync-fix.c, Sync/Racing is
--   no-sync/no-sync.c, Sync/Condvar is condvar/condvar.c, Sync/LockFree is lock-free/stack.c, and
--   Sync/StoreBuffer is faulty/faulty.c and faulty/mutex.c on a machine whose writes are delayed.
--   A schedule is the list of the threads in the order in which they take their steps; one step is
--   one access of a shared variable, or one call on a mutex, on `malloc` or on `free`. The nodes
--   of the stack are a family by address, and `malloc` may return any address with no node.
-- * memory (sem06-memory/snippets). Memory/CacheLine is latency/cache_line_benchmark.cpp, whose
--   array faults at an access outside of it; Memory/Matmul is matmul/naive.cpp; Memory/Traversal
--   is `time` and `main` of latency/list_traversal.cpp. The clock, `rand`, `pow` and
--   `std::shuffle` are parameters or left out.
-- * Encoding/PrintBits is `printBits` of sem02-data-encoding/print_int.c, as the text that it
--   prints.
--
-- Prelude has the lemmas on lists, options and numbers, and Bytes those on the parts of an array
-- that `read` and `write` touch. Tests has concrete kernels, runs on them and examples.
--
-- The system. System calls are not the repository's code, so they are fields of the records
-- `Posix.Files` (`read` and `write`) and `Kernel.Kernel` (the rest), on a state of any type. What
-- a program relies on is a hypothesis of its own: `Posix.Streams` and `Kernel.Effects` say what
-- the manual pages promise of each call, for every result that it may return; `Posix.Patient` and
-- `Posix.Reliable` say besides that a call is not interrupted for ever, or does not refuse bytes
-- for good; Epoll/Loop takes besides that `socket` gives the lowest descriptor that is not open.
-- Tests/Slow and Tests/Loopback satisfy them. The calls `fork`, `sigaction` and
-- `waitpid` are parameters of Net/ForkServer and `connect` is one of Net/Client; `recvfrom` and
-- `sendto` are the record `Datagrams`, with the laws `Traffic`; `pipe`, `dup2` and `close` on the
-- descriptors of one process are the record `Process.Descriptors.Calls`, with the laws `Laws`.
-- `strtok` in Process/Shell, `fgets` in Net/Client and the `%s` of `scanf` in Net/UdpClient are
-- written out as the C standard describes them.
--
-- State. A buffer is the list of its bytes, as natural numbers, with its full length; `blit` and
-- `take` write and read parts of it. A return value of type `ssize_t` is an integer, and -1 with
-- `errno` is a result of its own. The objects that the epoll server allocates are a family by
-- address; a use of an address with no object is the result `fault`. `epoll_data` is one 64-bit
-- word, read as a pointer or, in its low 32 bits, as a descriptor.
--
-- Loops. A loop that ends by itself runs on fuel: `write_message` takes a round for each byte and
-- two more, and the loop over `read_buff` one for each byte of the buffer and two more, since each
-- round but the last moves a byte or more; the retry loops and those of Io/CopyFile take the size
-- and the number of interruptions that the descriptor has left, since each round moves a byte,
-- ends the loop or uses up an interruption; the loop of the TCP client takes a round for each line
-- of its input and one more, that of the UDP client one for each word and one more, and that over
-- `strtok` one for each byte of the line and one more. The loops of the servers do not end, so
-- they take the number of rounds to run, and the results say how the state stands whenever the
-- rounds are over.
--
-- A string of C is the bytes of its array before the first NUL, `cstring`. Where the C standard
-- defines nothing, as for a pop of the empty stack in Sync/LockFree, the model ends with a result of
-- its own, `undefined`, and the results reach up to there.
--
-- Not modelled: what the other programs print, the parsing of arguments and the byte order of the
-- port, the peer's address that `accept` reports, the waiting of pipe.c for its children, the loop
-- of simple_shell.c over its lines, the other programs on signals, the sources in assembly and
-- Python, the notebooks, and the programs of a few lines that only show a call.
pub mod Prelude
pub mod Bytes
pub mod Posix
pub mod Io
pub mod Kernel
pub mod Net
pub mod Epoll
pub mod Process
pub mod Signal
pub mod Sync
pub mod Memory
pub mod Encoding
pub mod Tests
