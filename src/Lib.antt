-- ===== src/Lib.antt =====
-- libmongo-client: a client library for MongoDB in C. This is a model of its BSON documents
-- (src/bson.c, src/bson.h), of the wire protocol (src/mongo-wire.c, src/mongo-wire.h), of the address
-- parser and the object ids (src/mongo-utils.c), of the client's connections and packets
-- (src/mongo-client.c), of the synchronous connection, its reconnecting and its commands
-- (src/mongo-sync.c), of the connection pools (src/mongo-sync-pool.c), of the cursor over replies
-- (src/mongo-sync-cursor.c) and of the files of GridFS (src/sync-gridfs.c, src/sync-gridfs-chunk.c,
-- src/sync-gridfs-stream.c).
--
-- The parts and how they interact. A BSON object is built by appending elements to an open object and
-- is closed by `bson_finish`; cursors look elements up in a closed object by walking over their bytes.
-- The wire commands put closed objects behind a namespace into the payload of a packet; the reader of
-- a reply cuts documents out of a payload, as open objects that the caller closes. The client sends and
-- receives packets on a socket; what it asks of the system is the record `Net` over a state `W` of all
-- sockets and what is behind them. A synchronous command makes a packet by a wire command, sends it by
-- the client, on a connection that is made anew where the old one is lost, takes the reply to it, and
-- looks for an error in its first document; the state is the connection and `W`. Commands that may
-- reconnect have `mongo_sync_reconnect` as a parameter, since it runs commands itself. Pools hand out
-- connections and take them back; the hosts of a replica set are parsed as addresses. A stream of
-- GridFS gathers bytes into chunks, inserts each as a BSON document, and at its end a document of the
-- file; another one finds that document, asks for the chunks by their number, and cuts the bytes out of
-- the replies. Both use a connection only through an insert and a query, the record `Server`; the law
-- `Storage` of Gridfs/Stored says what a server does with them where files are read back: chunks are
-- answered by their number, and a file by the query for a field that no other file has.
--
--   Base            lists, tests, bytes, C strings, machine integers, the results of calls, memcpy
--   Bson/Types      the element types of src/bson.h
--   Bson/Object     `struct _bson` (src/libmongo-private.h), bson_new, bson_new_sized,
--                   bson_new_from_data, bson_finish (finish), bson_size (size), bson_data (contents),
--                   bson_reset, bson_validate_key, bson_stream_doc_size
--   Bson/Append     the bson_append functions and their helpers
--   Bson/Element    the format: values, elements and their bytes, independent of the code
--   Bson/Build      bson_build, bson_build_full and the macro _bson_build_add_single; Build/Appends
--                   has what the appends do to the bytes of an open object, Build/Frozen to a
--                   finished one
--   Bson/Cursor     `struct _bson_cursor`, bson_cursor_new, _bson_get_block_size, bson_cursor_next,
--                   _bson_cursor_find (find_from), bson_cursor_find, bson_cursor_find_next, bson_find
--                   (find), bson_cursor_type, bson_cursor_key; its children have the theorems
--   Bson/Get        the bson_cursor_get functions
--   Wire/Packet     mongo_packet and the mongo_wire_packet functions; Wire/Rebuilt has a theorem
--   Wire/Commands   the mongo_wire_cmd functions; Wire/Layout and Wire/Batches have the theorems
--   Wire/Reply      the mongo_wire_reply_packet functions; Wire/Documents has the theorems
--   Util/Address    mongo_util_parse_addr; Util/Hosts has the theorems
--   Util/Oid        mongo_util_oid_init (oid_init) and mongo_util_oid_new_with_time
--   Pool            mongo_sync_pool_pick and mongo_sync_pool_return (give_back); Pool/Slots and
--                   Pool/Turns have the theorems
--   Pool/Create     mongo_sync_pool_new; Pool/Made has the theorems
--   Gridfs/Server   what GridFS uses of a connection, and `struct _mongo_sync_gridfs`
--   Gridfs/Document the documents of a chunk and of the query for it
--   Gridfs/Writer   mongo_sync_gridfs_stream_write (stream_write) with _stream_chunk_write
--                   (chunk_write); Writer/Close has mongo_sync_gridfs_stream_close on a stream that
--                   writes; Writer/Feed and Writer/Chunks are the independent description, and
--                   Writer/Holding, Writer/Refines and Writer/Closed have the theorems
--   Gridfs/Reader   mongo_sync_gridfs_stream_read (stream_read) with _stream_seek_chunk
--                   (seek_chunk); Reader/Seek has mongo_sync_gridfs_stream_seek; its other children
--                   have the theorems
--   Gridfs/File     the files of all kinds, and src/sync-gridfs.c on them
--   Gridfs/Find     mongo_sync_gridfs_stream_find and mongo_sync_gridfs_chunked_find; Find/Found has
--                   the theorem
--   Gridfs/Stream   mongo_sync_gridfs_stream_new, and the calls on a stream of any kind, with their
--                   guards (file_read, file_write, file_seek, file_close)
--   Gridfs/Upload   mongo_sync_gridfs_chunked_file_new_from_buffer (new_from_buffer); Upload/Metadata
--                   has the document that it stores, Upload/Document and Upload/Stored the theorems
--   Gridfs/Stored   the law, and the files on a server that keeps it; Gridfs/RoundTrip: what is
--                   written is read back
--   Client          `struct _mongo_connection` (Conn), mongo_packet_send, mongo_packet_recv,
--                   mongo_connection_get_requestid; Client/Open has mongo_connect,
--                   mongo_tcp_connect, mongo_unix_connect and mongo_disconnect; Client/Exchange and
--                   Client/Descriptors have the theorems
--   Sync/Connection `struct _mongo_sync_connection` (SyncConn), _mongo_sync_conn_init (conn_init), the
--                   accessors and mongo_sync_conn_seed_add; Connection/Cache has the recovery cache,
--                   mongo_sync_connect and mongo_sync_disconnect, Connection/Recovered a theorem
--   Sync/Reply      _mongo_sync_packet_recv (packet_recv), _mongo_sync_check_ok,
--                   _mongo_sync_get_error, _mongo_sync_packet_check_error (check_error);
--                   Reply/Accepted and Reply/Errors have the theorems
--   Sync/Members    what mongo_sync_cmd_is_master reads; Sync/Master has that command,
--                   mongo_sync_cmd_ping and _mongo_sync_cmd_custom without reconnecting
--   Sync/Send       _mongo_cmd_ensure_conn, _mongo_cmd_verify_slaveok, _mongo_sync_packet_send and
--                   mongo_sync_cmd_custom; Sync/Nonce and Sync/Authenticate have
--                   mongo_sync_cmd_authenticate
--   Sync/Reconnect  mongo_sync_reconnect with _mongo_sync_connect_replace; its children have the
--                   theorems; Sync/Recover has mongo_sync_connect_recovery_cache
--   Sync/LastError  mongo_sync_cmd_get_last_error, mongo_sync_cmd_reset_error and
--                   _mongo_sync_cmd_verify_result
--   Sync/Insert     mongo_sync_cmd_insert_n and mongo_sync_cmd_insert; Insert/Batch, Insert/Kept and
--                   Insert/Rounds have the theorems
--   Sync/Commands   the other commands with one packet; Commands/Collections has count, create, exists
--                   and drop, Commands/Users and Commands/Indexes those of users and indexes
--   Sync/Cursor     mongo_sync_cursor_new, mongo_sync_cursor_next and mongo_sync_cursor_get_data, with
--                   mongo_sync_cmd_get_more as a parameter; Cursor/Walk has the theorems
--   Examples        in Bson, Wire, Util, Pool, Gridfs, Client and Sync: the theorems at concrete inputs
--
-- The machine. The host is little-endian with 64-bit pointers, so the byte order macros are the
-- identity. A byte is a number below 256, and a signed integer that is computed with is its bit
-- pattern: an overflow wraps around, as two's complement does. A pointer into a buffer is the list of
-- bytes from there to its end, and a read past that end is the result `fault`. `Result` is what a call
-- without `errno` comes to, `Call` what one with `errno` comes to. The bytes of a fresh buffer
-- (`junk`) are a parameter, as are `strtol` and, where a pool is made, mongo_sync_connect,
-- mongo_sync_cmd_is_master and the list of hosts that it leaves. `Run` is what a call comes to that
-- works on a state and sets `errno`: the state comes back after a failure too, and a failure with
-- `no_error` leaves `errno` as it was. The functions of a synchronous connection are on one that is not
-- NULL; `connected` of Client is the test for NULL that they start with. GLib's printing of an address
-- and of a number, its MD5 sum, `strerror` and the conversion of a double to an integer are
-- parameters. In GridFS the MD5 sum is a function of the bytes that it was updated with, and the date
-- of an upload is a parameter.
--
-- Bounds and fuel. The loop of `_bson_cursor_find` runs on fuel, one more than the bytes of the
-- document; `spins` is the result without enough of it. Each round moves on by at least two bytes in a
-- document, and the theorems on searches have other results than `spins`, so the fuel is enough there.
-- On bytes that are no document the loop of the code may run forever. The loops of a read and of a
-- write have one round more than bytes are asked for, since each round moves at least one byte; the
-- theorems on them have other results than `loops`. `mongo_sync_reconnect` is on fuel, one for each
-- connection that it reconnects in its turn: there is none that is enough for all servers, and `loops`
-- is the result without enough of it. The rounds of an insert have as many as documents, since each
-- sends one at least. Sizes stay below 2^31, which the predicates IsValue and IsDocument say, and
-- lengths of files below 2^63.
--
-- Not modelled. A cursor holds the object as it was when the cursor was made, so appending under an
-- open cursor is outside the model, as are the NULL destinations of the getters, allocation and
-- `free`. bson_type_as_string, mongo_util_oid_as_string, mongo_connection_set_timeout, which only passes
-- its argument on to the system, what GridFS does with a cursor
-- (mongo_sync_gridfs_list, mongo_sync_gridfs_remove and the cursors over chunks),
-- mongo_sync_gridfs_new, which makes an index by such a command, mongo_sync_gridfs_file_get_chunks,
-- which divides doubles, and src/compat.c are not modelled.
pub mod Base
pub mod Bson
pub mod Wire
pub mod Util
pub mod Pool
pub mod Gridfs
pub mod Client
pub mod Sync
