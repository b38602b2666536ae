-- ===== src/Lib.antt =====
-- gobeansdb: a model of the storage engine of a memcache-like key-value server, and what holds of it.
--
-- The server keeps the records of a bucket in append-only data files of 256-byte blocks. A record has
-- a header with a CRC, a key and a value. A tree of hashes finds the position of a key's newest
-- record: its inner nodes are arrays, and its leaves are byte arrays of packed items. Keys that share
-- a 64-bit hash are told apart by the collision table, by hint buffers and by hint files.
--
-- Base            numbers, integers with wrap-around, bits, bytes and lists; models no code
-- Config          config/mc_config.go, store/config.go: the settings; size checks; `init_tree` is InitTree
-- Cmem            cmem/cmem.go, cmem/beansdb.go: the limiters and CArray; malloc is a parameter, 0 when
--                 memory is short; `alloc`, `free`, `copy` are the methods of CArray
-- Crc             store/crc32.go: the table, the C loop, and the length it is given
-- Hash            utils/hash.go and Getvhash of store/item.go
-- Record          store/item.go, store/datafile.go: `append` writes a record to the bytes of a file,
--                 `read_record_at` is readRecordAt; a file is the list of its bytes; the counters of
--                 cmem are passed through as BeansdbRl
-- Compress        store/item.go: TryCompress and Decompress, over a record of what they call outside
-- Data            store/datachunk.go: a data file, the records that wait for it, and the search in them;
--                 `flush` is told how many records there were when it began
-- Data.Store      store/data.go: `append_to_store`, `flush_store` and `get_record_by_pos` are AppendRecord,
--                 flush and GetRecordByPos; the flush that AppendRecord starts is named in its result
-- Record.Stream   store/datafile.go: DataStreamReader, `next` and `next_valid`
-- Key             store/key.go: validity of keys, paths of digits, `prepare` is KeyInfo.Prepare
-- Leaf            store/leaf.go: Set, Get and Remove on the bytes of a leaf
-- HTree           store/htree.go: `new_htree`, `tree_set`, `tree_get` and `tree_remove` are newHTree, set,
--                 get and remove; `set_node` and `remove_node` are what they do to the node of a leaf
-- Collision       store/collision.go and CmpKey of store/item.go: `get` and `compare_and_set`
-- Hint            store/hint.go: `set_hint` and `get_hint` are Set and Get of HintBuffer
-- Bucket          store/bucket.go: `check_and_update_verison`
--
-- Memcache        memcache/protocol.go: the types; Memcache.Text has Go's functions on text
-- Memcache.Token  memcache/token.go: the limiter, with the fields Token and Working of the requests
-- Memcache.Receive, Send, Reply, Process
--                 memcache/protocol.go: Request.Read; Request.Write and Response.Write; Response.Read;
--                 Process and Check over a record of the methods of StorageClient
-- Memcache.MapStore  memcache/store.go: the client that keeps the items in a map
-- Memcache.Serve  memcache/server.go: ServeOnce and the loop of Serve; the delays are parameters
--
-- A request comes in through Memcache.Serve, which reads it, with a token of the limiter and the counters
-- of cmem, gives it to the client that stands for the store, and writes the answer. A record that is
-- stored is compressed, appended to the buffer of the newest data file, found there until a flush writes
-- it, and read from the file after that; the tree of the bucket keeps its position.
--
-- How the state of a part corresponds to the code: each struct is a record with the fields in the
-- same order, less those that only the operating system sees (file handles, paths, locks). An int32
-- or int64 is a ℤ kept in range, an unsigned integer a ℕ below its bound, with the wrap of every sum
-- written out. A call that changes a global changes an argument and returns it.
--
-- Loops on fuel: `find_go` has the length of the leaf, and every round takes at least eleven bytes
-- off it; `depth_loop` has the number of buckets, which every round divides by 16; `next_valid_loop`
-- has one round for each 256 bytes of the file, and one more, and every round goes 256 bytes on;
-- `search_loop` has the length of the range, which every round makes shorter; `reply_loop` has one
-- round for each byte of the input, and one more, and every round but the last takes a byte or more.
-- A panic of an index out of range is `none` where the code can reach it. These details are left out:
-- `find_in_bytes` takes the number of items of a leaf as it is, which the code makes an int of C;
-- `read_kv` does not see the panic where the sizes of key and value have a sum beyond 2 ^ 32;
-- `is_meta_key` is false of an empty key, where the code panics; and `release` leaves the limiter as it is
-- where Put panics.
--
-- The length of the data of a CRC is an int of C, so that `crc32_write` covers strings of fewer than
-- 2 ^ 31 bytes, and leaves the register as it is from there to 2 ^ 32.
--
-- Not modelled: quicklz, a copy of another project's compression library, whose calls are parameters;
-- murmur hash, YAML, ZooKeeper and HTTP, which are other projects' code; locks, files as the operating
-- system keeps them, and logging; garbage collection, hint files and their manager, the buckets above a
-- tree, and the server's table of connections. Goroutines are seen as calls that follow each other. The
-- buffer that successive bodies of a stream share is not modelled, since a body is used before the next
-- one is read.
pub mod Base
pub mod Config
pub mod Cmem
pub mod Crc
pub mod Hash
pub mod Record
pub mod Compress
pub mod Data
pub mod Key
pub mod Leaf
pub mod HTree
pub mod Collision
pub mod Hint
pub mod Bucket
pub mod Memcache
