-- ===== src/Lib.antt =====
-- A verification library for eblob, an append-only store of records under 64-byte keys.
--
-- The store is a list of bases. Each base is a file of data and a file of headers, its index; an
-- index that has been sorted is searched on disk, through a Bloom filter and a table of blocks, and
-- the records of the other bases are found through a cache in memory. A thread sorts and merges
-- bases in the background. The parts are modelled as follows, with paths from the root of the
-- repository:
--
--   Base                 names of the libraries passed on, Boolean tests on numbers, lists by
--                        numbers, and `Outcome`, what a function returns: 0 or a negated errno.
--   Key                  include/eblob/blob.h: `struct eblob_key`, `eblob_id_cmp`, and its order
--                        in Key/Order.
--   Record               include/eblob/blob.h, library/blob.h, library/blob.c: headers on disk and
--                        in memory, `eblob_get_index_fd`, and what `pread` of a header gives.
--   Rbtree               the walks and links over library/rbtree.h that hash.c and l2hash.c write
--                        themselves. A path from the root stands for a `struct rb_node **`.
--   Hash                 library/hash.c, library/hash.h: the cache by whole keys, every function.
--   L2hash               library/l2hash.c, library/l2hash.h: the cache by 64-bit hashes of keys, every
--                        function; L2hash/Murmur has the two hash functions, and L2hash/Flavours
--                        `_eblob_l2hash_insert`, which is `l2hash_insert_flavor` and, for its
--                        branches, `insert_resident`, `insert_collides` and `insert_collided`.
--   History              what either cache owes its callers, by the calls that succeeded.
--   Cache                library/mobjects.c: `eblob_cache_insert`, `eblob_cache_remove_nolock`,
--                        `eblob_cache_remove`, the memory half of `eblob_cache_lookup`,
--                        `eblob_blob_iter`, and the counter EBLOB_GST_CACHED; Cache/Flush has `indexsort_flush_cache` of
--                        library/index.c.
--   Bloom                library/blob.h: the Bloom filter, `eblob_bloom_ll` and what it calls.
--   Index                library/index.c: the comparisons, `eblob_index_blocks_destroy`,
--                        `eblob_bloom_size`, `eblob_bloom_func_num`, and the loops of
--                        `eblob_index_blocks_fill`, which is in Index/Fill; library/blob.c:
--                        `eblob_check_record`.
--                        Index/Search has the search of a key, `eblob_find_on_disk` (its loops are
--                        `forward` and `backward`), and Index/Lookup `eblob_disk_index_lookup`;
--                        Cache/Lookup joins that with memory to `eblob_cache_lookup`. Index/Apply has
--                        `indexsort_binlog_apply`, and Cache/Generate `eblob_generate_sorted_index`,
--                        whose parts are `sort_logged`, `apply_and_flush` and `install`.
--   Defrag               library/defrag.c: `eblob_want_defrag` and the first loop of `eblob_defrag`;
--                        Defrag/Groups has the second loop and the function around both,
--                        Defrag/Requests the requests and the thread, with `datasort_force_sort`
--                        of library/datasort.c.
--   Binlog               library/datasort.h: the list of keys removed while a base is sorted; Binlog/
--                        Replay has the loop over it of `indexsort_binlog_apply`.
--   Files                library/blob.c: `__eblob_write_ll`, `__eblob_read_ll` and `eblob_copy_data`
--                        over files of bytes; Files/Headers has the bytes of a header of a record.
--   Store                library/blob.c: the requests that write, read and remove records, as steps
--                        over a record of the backend's fields. Store/Control has the sizes, the
--                        checks and the bounds of vectors, Store/Writes the parts of a write and
--                        `eblob_mark_entry_removed`, Store/Prepare the reservation of space
--                        (`eblob_write_prepare_disk_ll` is `open_base`, `account_old` and
--                        `reserve_in`), Store/Commands the requests that write or remove and
--                        `eblob_fill_write_control_from_ram`, Store/Reads those that read,
--                        Store/Iterate `eblob_check_disk` of the iterators. The cache
--                        is the interface `KeyCache`, which Store/Cached fills with the caches in
--                        memory; the other files below Store are about these steps.
--   Datasort             library/datasort.c: `datasort_merge` and what it calls, as steps of Store.
--   Range                library/range.c: `eblob_read_range` in memory, and `eblob_bsearch_fuzzy`.
--   Holds                library/blob.c: `eblob_bctl_hold`, `eblob_bctl_release` and
--                        `eblob_base_wait_locked`, as steps of threads.
--   Tests                the definitions at concrete inputs.
--
-- Numbers are natural numbers; a 64-bit word has its remainder by 2 ^ 64 written out, and the
-- signed counters of a base are the integers of Defrag/Signed. Memory that may run out is a Boolean
-- argument for each allocation, and a read from disk is a function of the descriptor and the
-- offset. In Files and Store the disk is the bytes of its files, and what the system answers, short
-- counts and errors among them, is a list in the state; a base that is added is given by what
-- `eblob_add_new_base` opens. The digest, `sha512_file`, is a parameter. The rebalancing and the
-- erasure of the red-black tree, a copy of the kernel's, are a parameter (`Rebalance`) whose law is
-- that they keep the order of the entries; Rbtree/Plain is an instance.
--
-- Fuel: the loops that destroy a tree and the loop over a binlog take one round more than there are
-- entries, the loop of `eblob_copy_data` as many as there are bytes, of which each moves one at
-- least, the loop of `datasort_merge` as many as there are entries, and the outer loop of
-- `eblob_index_blocks_fill` one more than the index has bytes, of which each round passes at least
-- 96. Either loop of `eblob_find_on_disk` takes two rounds for each header and four more, one to
-- pass it and one to read its block, and that of `eblob_bsearch_fuzzy` one for each header and one
-- more. The other loops are structural recursion.
--
-- `bsearch` of the C library is a parameter, `Bsearch`, with the laws that its manual states, and
-- so is `qsort`. What other threads do while `eblob_generate_sorted_index` holds no lock is a
-- function on its state.
--
-- Not modelled: locks but for those of Holds, the calls being taken to be sequential; log lines,
-- timestamps and the counters of handystats; the threads and the ranges of the iterators, and the
-- start and shutdown of library/blob.c, which are made of calls of the system, and its copies by
-- splice(2); what library/datasort.c does around its merge; the loops of library/range.c over a
-- sorted index, which read a header over a pointer on the stack; library/stat.c; the vendored red-
-- black tree, list and SHA-512; bindings, examples and tests.
pub mod Base
pub mod Key
pub mod Rbtree
pub mod History
pub mod Hash
pub mod Record
pub mod L2hash
pub mod Bloom
pub mod Cache
pub mod Defrag
pub mod Index
pub mod Binlog
pub mod Files
pub mod Store
pub mod Datasort
pub mod Range
pub mod Holds
mod Tests
