-- ===== src/Lib.antt =====
-- Comfirm DMARC report server
--
-- An SMTP server that takes DMARC aggregate reports by mail (src/connection.c, src/request.c,
-- src/response.c), queues them in a memory-mapped file (src/lib-pq), and a second process, the mail
-- handler (src/mailhandler), that takes them out, checks them, and turns the zipped XML report into
-- JSON for a web service. The library models the parts in which this logic lives, and proves what
-- they do. The paths are from the root of the repository.
--
-- Common       Lists, C strings, `int` conversions, and the outcome of code that may touch memory it
--              does not own (`fault out_of_bounds`, `fault null_deref`, `fault unset_pointer`) or never
--              return (`blocked`), or uses what was freed (`use_after_free`).
-- Data         src/base.h: the sizes, `hdr` and `mail`.
-- Queue        src/lib-pq/persisted_queue.c: `pq_enqueue`, `pq_dequeue`, `pq_header_sync`, `pq_close`
--              on the header, the slots and the length of the mapping, with the semaphore as a
--              number. Queue/Spec is the abstract queue, Queue/Open is `pq_init` and `pq_open` with
--              the answers of the system as a record. Queue/Callers is the same two functions cut
--              into their accesses to the shared memory, which any number of processes make in any
--              order: a step relation on that memory and where each process stands.
--              Queue/Callers/Crash has a process that dies at one of them. Queue/View takes together
--              the queues that no caller can tell apart.
-- Request      src/request.c: `request_parse_commands` (Request/Commands), byte by byte on the bytes
--              received and what stands behind them in the read buffer, and `request_parse_data`
--              (Request/Headers), on the data and what stands behind it in memory.
-- Response     src/response.c: `response_append`; Response/Uuid is `response_build_uuid`.
-- Socket       src/socket.c: the calls of the system that set up the listening socket.
-- Connection   src/connection.c: Connection/Send is the loop around `send`, Connection/Mails makes
--              the mail and queues it, Connection/Handle is `connection_handle`, one block after the
--              other, on a world of the connection, the queue and what was sent.
-- Events       src/events.c with epoll: the array of pointers that epoll writes events to, in words
--              of 32 bits, and the addresses that are allocated.
-- Worker       src/worker.c: the main loop of a worker, a fold over the events that `epoll_wait` gives
--              it, on the table that `connection_setup` makes, the queue, and what was sent to each
--              client. Each event goes through `connection_handle` as Connection/Handle has it.
--              Worker/Loop is the whole of `worker_server`, with this loop on the array of Events, wait by
--              wait, and
--              Worker/Start is `worker_init` up to the start of the mail handler.
-- Master       src/master_server.c: Master/Init is `master_server_init`, Master/Start is `main` up to
--              its loop, and Master with Master/Serve is the loop that accepts clients.
-- Log          src/lock.c, src/safe.c: the lock and the warnings of one process.
-- Base64       src/base64.c: the decoder.
-- Cache        src/cache.c: the trie, its arrays as lists of 256 pointers. Cache/Free is the list of
--              the calls of `free` in `cache_free`, each named by where its pointer is in the trie, and
--              Cache/Free/Pointers is about these pointers themselves.
-- Config       src/config_file.c: the defaults, the file, and the values.
-- Mailhandler  src/mailhandler: the string buffer, `json_escape`, `base64_wrap`, `unzip`, the
--              conversion of XML to JSON, what is done with a mail from the queue
--              (Mailhandler/Reports: `validate_dkim`, `decode_content`), the start of `main`
--              (Mailhandler/Start) and its loop (Mailhandler/Loop), round by round.
-- Delivery     The whole way of a mail, from the client's events to its report.
-- Tests        The theorems at concrete inputs.
--
-- State and errors. A C array is the list of its bytes or elements, and an access out of its bounds
-- is a fault; a text in a buffer that grows is the list of the bytes written, with the size
-- allocated beside it. A pointer that may be NULL is an option. Memory that nothing has set yet is an
-- argument. Functions that only free memory are left out, but those of the cache and of the events,
-- and `malloc` is taken to work.
--
-- Loops are recursions on the bytes or events that they read. The sending of a response in pieces
-- has fuel for one round more than the response has bytes, which is enough if the write buffer holds
-- a byte, and `base64_decode` has fuel for as many rounds as there are bytes, of which each round
-- takes four. The loops that never end, of the workers and of the mail handler, are taken for
-- any number of rounds.
--
-- What is not defined in C. The comparisons of `request_parse_commands` are faults where they read
-- past the read buffer. `srv->config` of src/master_server.c is set by nothing: what it happens to
-- point to is an argument of Master/Start. `error`, which the source calls where a descriptor cannot
-- be added to the events, is the C library's and ends the process.
--
-- Processes. The worker and the mail handler share one queue and one semaphore. An access is one
-- step: the wait, the test of the count, the copy of a mail, the change of an offset, the change of
-- the count, the post. The other state of a process is its own. A process that dies gives
-- the semaphore back, as SEM_UNDO has it, and is then outside of the calls. No signal interrupts
-- a wait. The semaphore is that of one queue; the source has one key
-- for the queues of all workers, so that a call may also wait for a call on another queue.
--
-- Machine integers. The sizes in `pq_init` wrap to a 32-bit `int` and go through 64-bit conversions
-- as in the source (Common/Int). The counters of the parsers and buffers are natural numbers: they
-- stay below the configured sizes. A `char` from 128 on is negative, which the cache depends on.
--
-- Parameters. The answers of `stat`, `lseek`, `write`, `mmap`, `semget`, `read` and `send`, and the
-- functions of zlib, libxml, OpenSSL, the resolver and firm-dkim, and `atoi`, are arguments. What
-- they give is not limited in any way. What is sent is what is handed to `send`: how many of these
-- bytes one call takes is not looked at by the source, and is no part of the model.
--
-- Not modelled: how the processes are made and ended (`worker_spawn`, `worker_free`, the end of
-- `worker_init`, the shutdown in `main`), which are calls of the system; the web service, which gets what
-- `post_data` hands to curl, and the functions of src/socket.c that are one call of the system each; the branch for
-- kqueue of src/events.c, which does not compile; and the library in firm-dkim-extended, a copy of
-- another project.
pub mod Common
pub mod Data
pub mod Queue
pub mod Response
pub mod Mailhandler
pub mod Request
pub mod Connection
pub mod Cache
pub mod Config
pub mod Worker
pub mod Master
pub mod Base64
pub mod Socket
pub mod Events
pub mod Log
pub mod Delivery
mod Tests
