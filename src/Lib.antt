-- ===== src/Lib.antt =====
-- The core of pg_rest, an HTTP server inside PostgreSQL, as definitions that run and theorems about
-- them. The server listens on sockets, takes each request through a parser of its header and body,
-- looks its path up in a tree of URLs and calls the handler found there. Numbers are natural; a C
-- integer keeps its wrap-around, written out. A byte is a number and a text a list of bytes, without
-- its final zero. A pointer into a block is an offset, and NULL is `none`.
--
-- Base: names of the libraries, Boolean tests, lists over the native numbers, signed integers.
-- Text: src/pg_rest_string.c and include/pg_rest_string.h (pgrest_strlchr, pgrest_strtolower,
--   pgrest_count_params, pgrest_atoof, pgrest_atotm, pgrest_atoi). An `off_t` has 64 bits.
-- Array: src/pg_rest_array.c and include/pg_rest_array.h (init, create, push, push_head, copy). The
--   allocator is pgrest_util_alloc_ with PostgreSQL's bound on a block; whether the memory context
--   has the block is a parameter, a function of its size.
-- Buffer: src/pg_rest_memory.c and include/pg_rest_memory.h (pgrest_buffer_create, free_size, reset,
--   consume, reserve, extend, and pgrest_chain_update_sent). A buffer is a window of its block. What
--   the memory context and the system calls answer is the record `Os`. The loop that doubles the
--   capacity has 64 rounds of fuel, one for each bit of a `size_t`, which suffices below 2^63.
-- Conn: the pool of connections of src/pg_rest_conn.c (pgrest_conn_worker_init, get, drain, reusable,
--   free, close): an array whose free entries are linked by indices.
-- Cqueue: src/pg_rest_cqueue.c (create, push, pop) against a bounded list.
-- Sort: pgrest_util_sort of src/pg_rest_util.c; the comparison is a parameter.
-- Inet: the socket addresses of src/pg_rest_inet.c (pgrest_inet_ntop, cmp_sockaddr, get_port,
--   set_port, inet_addr, and inet6_addr in Inet/Parse6).
-- Url: pgrest_inet_parse_url and what it calls. Url/Unix, Url/Bracket and Url/Parse are its three
--   forms, Url/Resolve is pgrest_inet_resolve_host, where `getaddrinfo` of the system and
--   `evutil_inet_ntop` of libevent are parameters. Parsing uses Text and Inet.
-- Rtree: the URL tree of src/pg_rest_rtree.c (pgrest_rtree_create, walker), and pgrest_rtree_find in
--   Rtree/Find, a recursion on the tree, and pgrest_rtree_child_insert in Rtree/Insert.
--   Rtree/Add has pgrest_rtree_child_priority, and its Loop pgrest_rtree_add, whose rounds are one
--   more than the nodes on the longest way down, since a round steps down by a node. A node records
--   whether its indices are a block of palloc or of realloc, and the capacity of its children; what
--   realloc answers is a parameter, and its misuse is a result.
-- Http/Body: pgrest_http_body_length, pgrest_http_body_chunked and pgrest_http_body_parser of
--   src/pg_rest_http_v1.c, on the buffers of Buffer. picohttpparser's phr_decode_chunked is a
--   parameter.
-- Http/Token: the table of header names of src/pg_rest_http_header.c, its search (find_token) in
--   Http/Token/Find. Http/Header: pgrest_http_header_add, and pgrest_http_init_headers and
--   pgrest_http_process_header of src/pg_rest_http_v1.c, which use Array, Text and Http/Token; and
--   pgrest_http_test_expect of src/pg_rest_http_request.c.
-- Http/Request: how a request ends in src/pg_rest_http_request.c: pgrest_http_close_request,
--   free_request, create_request and buffer_left; Http/Request/Keepalive has set_keepalive, which
--   moves bytes between the buffers of Buffer, Http/Request/Finalize the lingering close and
--   finalize_connection, and Http/Request/Extend extend_header_buffer. What libevent, the sockets and
--   the memory context answer is `World`.
-- Event: pgrest_event_add and pgrest_event_del of src/pg_rest_event.c, on what libevent has pending
--   of what is asked for. Http/Request takes a connection whose pointers `rev` and `wev` are not NULL,
--   as pgrest_conn_worker_init leaves them; pgrest_conn_get clears them. The setup in Ipc has the
--   NULL as a case.
-- Ipc: the channel between workers of src/pg_rest_ipc.c (send_notify, setup_handler, set_conn, and
--   the write and read handlers), on Buffer and Event. The socket is a stream of bytes. At most 2^18
--   commands wait, so that the buffer stays on the heap.
--
-- Not modelled: log messages, which change no state; freeing memory, but for pfree of a block of realloc in Rtree; and src/pg_rest_slab.c,
-- pg_rest_shm.c, pg_rest_listener.c, pg_rest_acceptor.c, pg_rest_worker.c, pg_rest_conf.c,
-- pg_rest_guc.c, the HTTP core and the handlers, which are for the most part calls of the operating
-- system, of libevent, of PostgreSQL and of jansson. jansson and picohttpparser are copies of other
-- projects' libraries.
pub mod Base
pub mod Text
pub mod Array
pub mod Buffer
pub mod Conn
pub mod Cqueue
pub mod Sort
pub mod Event
pub mod Inet
pub mod Ipc
pub mod Url
pub mod Rtree
pub mod Http
