-- ===== src/Lib.antt =====
-- memxy, a proxy between memcached clients and servers.
--
-- A program of two gates. The text gate (gate_memtext*.cc) accepts memcached clients: its handler
-- reads into an mp::stream_buffer, runs the parser over the unread bytes, and the parser calls back
-- the request functions, which ask the client library and write the reply through wavy. The control
-- gate (gate_control.cc) sets the servers of the client library. wavy (mpsrc/) is the event loop with
-- the output queue of each descriptor; mp (mp/) holds the buffers; memproto (memproto/) the parsers.
--
-- Files, with the paths of the sources from the repository's root:
--   Prelude      tests on numbers, lists and integers that the other files share
--   Memproto     src/memproto/memproto.c and memproto.h, the parser of the binary protocol:
--                execute is memproto_parser_execute, dispatch is memproto_dispatch, and switch its
--                switch statement. A packet is the list of its bytes; the callback is a value that
--                says which one is called with which arguments.
--   Memtext      src/memproto/memtext.rl and memtext.h, the parser of the text protocol: step_in is
--                what the grammar's machine does with one byte, in a state that stands for all that
--                the bytes so far may begin; request builds what the do_ actions hand to a callback,
--                and execute is memtext_execute. An error keeps no parser, since the source closes the
--                connection then; a write behind the array of the keys is a result of its own.
--   Store        malloc, realloc, free and the reference counts of src/mp/stream_buffer_impl.h
--   StreamBuffer src/mp/stream_buffer.h and stream_buffer_impl.h: reserve_buffer, expand_buffer,
--                buffer_consumed, data_used, release. A pointer is the number of a block and an
--                offset in it. grow is the doubling loop, over grow_fuel = 64 steps: 64 doublings of
--                a positive size pass every size up to 2^63.
--   SharedBuffer src/mp/shared_buffer.h and shared_buffer_impl.h: reserve and allocate, over Store
--   SparseArray  src/mp/sparse_array.pre.h and sparse_array_impl.pre.h: set is set_value, whose
--                parameters are what calloc answers and what the constructor of a T gives.
--   Source       src/mp/source.h and source_impl.h: malloc and free of the pool, over a ring of chunks
--                with room and one of chunks that are spent
--   Xfer         core::xfer of src/mp/wavy/core.pre.h and xferimpl of src/mpsrc/wavy_out.cc: the
--                records of pending output. A record is a value with its encoded size beside it;
--                execute runs the records against a kernel. misread says that it came upon a list of
--                no vectors, whose tag is that of a sendfile; the model stops there.
--   Out          class out and the output functions of core in src/mpsrc/wavy_out.cc: commit_raw,
--                commit, write, write_event and their callers. An operation holds the descriptor's
--                mutex all along, so that operations are steps.
--   Gate         src/gate_memtext_retrieval.cc, gate_memtext_storage.cc, gate_memtext_delete.cc and
--                gate_memtext_impl.cc: the request handlers. The vectors of a reply hold the bytes
--                that the source points to. Gate/Handler is src/gate_memtext.cc: handler is the
--                constructor, read_event the handler's, over StreamBuffer and Memtext, and parse_all
--                its loop, with fuel; one step is enough, since the parser reads all that is unread.
--                Gate/Handler/Service has the requests as the callbacks; when one throws, the
--                machine stops, and the state holds the exception.
--   Control      src/gate_control.cc and src/proxy_client.cc: read_event is the control handler's,
--                over StreamBuffer, read_frames its loop, process_servers its process_body, and
--                set_servers the function of the client pool. A connection is a
--                sequence of events of read_event. The loop has fuel; one step more than
--                there are unread bytes is enough, since a frame takes four bytes at least.
--   Loop         the event loop: coreimpl of src/mpsrc/wavy_base.cc and wavy_core.h, with the one-shot
--                registrations of src/mpsrc/wavy_port_epoll.h. A system is the shared state of the
--                core with one place in the code for each thread; a step is what one thread does
--                between two operations on the mutex, the condition or the kernel, so that the
--                sections under the mutex are one step each. turn is one pass of operator() from
--                its label retry, and a condition may wake without a signal.
--   Connect      src/mpsrc/wavy_connect.cc: connect_task is the task of connect_thread, on_descriptor and
--                on_timeout are the functions of connect_handler. A run of the handlers is a list of
--                calls, since the exchange of m_done orders them. The loop around poll has fuel; as
--                many steps as poll is called are enough.
--   Listen       src/mpsrc/wavy_listen.cc: listen_event, and accept_all is read_event of the listening
--                handler. The loop has fuel; one step more than accept gives sockets is enough.
--
-- Bounds: the host is little-endian with 64 bits; sizes wrap at 2^64, counts and protocol fields at
-- their width. The allocator is a parameter; it grants no size above the user address space, below
-- 2^62. The theorems on the growth of a buffer are for a size up to 2^63 with what is used; above, the
-- source's doubling wraps to 0. File offsets and addresses of data that is sent do not wrap, and
-- neither do the sums of the lengths of objects in memory. strtoul and strtoull are those of 64 bits,
-- and are given digits.
--
-- Parameters: the kernel (a reply to each call of writev, sendfile or write, which never claims
-- more bytes than were given; what memcpy leaves of vectors that it moves within one buffer, where
-- source and destination may overlap, Kernel.copied, which the theorems on execute take to be the
-- vectors as they were; a reply to each call of read, which gives no more than were asked for;
-- its answers to socket, connect, poll, getsockopt, bind, listen and accept), the allocator, and
-- the client library (libmemcached) over a state of its own, with the result codes that the source
-- names. What is asked of it stands with the theorems: Holds, that it has a value for a key now, and
-- FetchesInPlace, that memcached_fetch gives back no key longer than the one of the request that it
-- writes it to. A longer one is the result overran, since it overwrites the keys behind it.
--
-- Not modelled: the other ports of the event loop and the start and join of its threads, timers and
-- signals, the set-up of connections and threads, the command line, and the wrappers of pthread,
-- smart pointers and log output. The copy constructors and swaps of the references are left out of
-- the models of the buffers.
pub mod Prelude
pub mod Memproto
pub mod Memtext
pub mod Store
pub mod StreamBuffer
pub mod SharedBuffer
pub mod SparseArray
pub mod Source
pub mod Xfer
pub mod Out
pub mod Gate
pub mod Control
pub mod Loop
pub mod Connect
pub mod Listen
