-- ===== src/Lib.antt =====
-- TSSX replaces the traffic of a local domain socket by two byte rings in shared memory.
--
-- The parts and how they interact. A connection is a segment of shared memory: a count of its users
-- and two buffers, the server's, which the server writes and the client reads, and the client's.
-- Each process keeps its connections in the bridge, a table by file descriptor of FD_SETSIZE
-- sessions. The overridden system calls look a descriptor up in the bridge and go to a buffer, or on
-- to the real call where there is no connection. The growing arrays behind the lists of free keys
-- and of epoll entries are vectors.
--
-- Buffer (source/tssx/buffer.c, include/tssx/buffer.h, timeouts.h): one ring. The state is the
-- header of the shared memory and its bytes; `write_available`, `finish_write`, `wrap_write` and
-- their counterparts for reading are the parts of `buffer_write` and `buffer_read` between the early
-- returns. The peer runs in another process: a wait takes the list of what happens between two loads
-- of the size, a round for each load, with the peer's calls in it, and gives none where the rounds end
-- before there is space. The rounds are the only fuel; the theorems about a call that waits say after
-- which round it returns.
-- Vector (include/tssx/vector.h): the growing array, with the answer of `malloc` as an argument.
-- Connection (source/tssx/connection.c, connection-options.c): segments and their counts of users.
-- The memory of the system is a function from segment identifiers; `malloc` and `shmget` answer as
-- arguments.
-- Bridge (source/tssx/session.c, session-table.c, bridge.c): the table of sessions of a process, the
-- lazy setup, fork and exit. Bridge/Users counts the sessions on a segment. Bridge/Signals has the
-- handlers of signals and of exit, with the room on the stack as the only fuel.
-- Overrides (source/tssx/common-overrides.c, server-overrides.c, client-overrides.c,
-- socket-overrides.c): from a descriptor to a buffer or to the socket, for both sides, and the flag of
-- `fcntl`. The calls of the next library are arguments. A descriptor is a natural number.
-- Handshake (`_setup_tssx` of source/tssx/server-overrides.c and client-overrides.c): accept and connect
-- as the steps of two processes, each with its own bridge, that share the memory and a socket. Any order
-- of the steps is a run, and each call on the socket may fail.
-- FreeList (source/tssx/free-list.c): the free keys of epoll, a vector used as a stack.
-- HashTable (source/tssx/hashtable.c): the chained table of connections by key, for keys that the
-- arithmetic of the hash in an int does not overflow. HashTable/Refinement has the runs of its calls
-- against a finite map, which is a function from keys.
-- StringSet (source/tssx/string-set.c): the chained set of strings, with the addresses that removal
-- compares.
-- Selective (source/tssx/selective.c): the paths of USE_TSSX and the choice of a socket.
-- Poll (source/tssx/poll-overrides.c, common-poll-overrides.c): the rounds of a wait are a list, each
-- with what the process reads in it and the clock behind it, and a wait gives none where they end
-- before it does. Poll/Start and Poll/Threads have the start of the two threads of a mixed poll and
-- their run, as relations on what they share.
-- Epoll (source/tssx/epoll-overrides.c): an instance and its descriptors; Epoll/Waiting has the waits, in
-- rounds as for `poll`, Epoll/Table the instances of a process with `epoll_ctl` and with `close` of
-- source/tssx/socket-overrides.c, and Epoll/Concurrent the join of the two threads of a mixed wait, whose
-- steps are those of Poll/Threads.
-- ReverseMap (source/tssx/reverse-map.c): the array of keys by socket.
-- Select (source/tssx/select-overrides.c): the sets, the way through `poll` and the waits.
-- Base: Boolean tests, lists, and the arithmetic of size_t (2^64) and of int (2^31) that the others
-- share.
--
-- Not modelled: printing; the masks of ppoll, pselect and epoll_pwait and the set-up of poll and select at
-- a first call; what the build leaves out, that is, timeouts of buffers; `strtok`, an argument. The
-- assertions are on in the build: a definition gives none, or ends in a constructor for the end of the
-- process, where one fails, or its file says which it leaves out.
pub mod Base
pub mod Buffer
pub mod Vector
pub mod Connection
pub mod Bridge
pub mod Overrides
pub mod FreeList
pub mod HashTable
pub mod Poll
pub mod ReverseMap
pub mod Epoll
pub mod Select
pub mod StringSet
pub mod Selective
pub mod Handshake
