-- ===== src/Cache/Generate.antt =====
-- library/index.c: `eblob_generate_sorted_index`, which sorts the index of a base while it is in use,
-- over the parts of it in Binlog, Index/Apply, Index/Fill and Cache/Flush.
--
-- `qsort` of the C library is a parameter. What the system answers to each call is a field of
-- `Answers`, and what other threads do to the base while its lock is not held is a function on the
-- state. Locks, the names of the files and log lines are not modelled.
use eblob.Base.{
  ℕ, zero, suc, ◌+◌, ◌*◌, ◌/◌, ◌%◌, ◌^◌, ◌==◌, Ordering, Bool, true, false, if◌then◌else◌, not,
  ◌&&◌, Option, none, some, List, [], ◌∷◌, length, get_elem?, Outcome, ok, err, Errno, einval,
  enomem,
}
use eblob.Record.{DiskControl, RamControl, Disk, Pread, full, short, hdr_size}
use eblob.Rbtree.{Rebalance}
use eblob.Hash.{HashEntry}
use eblob.L2hash.{L2hashEntry, L2hashCollision}
use eblob.Binlog.{BinlogCfg, binlog_start, binlog_stop}
use eblob.Index.{IndexCtl, disk_control_sort_with_flags}
use eblob.Index.Fill.{index_blocks_fill}
use eblob.Index.Search.{Bsearch}
use eblob.Index.Apply.{indexsort_binlog_apply}
use eblob.Cache.{Backend}
use eblob.Cache.Flush.{indexsort_flush_cache}
pub mod Switched
pub mod Generated

-- The base, the parts of the backend that the sort uses, and the file that it writes, with the name
-- that the file has got at the end; `world` is the rest, the data file among it.
pub record Sorting (W : Type 0) : Type 0 where
  pub backend : Backend
  pub defrag_generation : ℕ
  pub binlog : BinlogCfg
  pub sort_fd : Option ℕ
  pub ctl : IndexCtl
  pub sorted_file : List DiskControl
  pub is_renamed : Bool
  pub is_closed : Bool
  pub world : W

-- What the system answers, call by call.
pub record Answers : Type 0 where
  pub malloc_file : Bool
  pub malloc_dst_file : Bool
  pub has_sorted : Bool
  pub fd : Outcome ℕ
  pub index_size : Outcome ℕ
  pub preallocated : Outcome (Unit {0})
  pub malloc_index : Bool
  pub headers : Outcome (List DiskControl)
  pub written : Outcome (Unit {0})
  pub synced : Outcome (Unit {0})
  pub locked : Outcome (Unit {0})
  pub rewritten : Outcome (Unit {0})
  pub resynced : Outcome (Unit {0})
  pub calloc_bloom : Bool
  pub calloc_blocks : Bool

-- A read of one header of the sorted file.
abbrev pub pread_of : List DiskControl → ℕ → Pread
pread_of dcs offset = elim (get_elem? dcs (offset / hdr_size)) [
  | none ↦ short 0
  | some dc ↦ full dc
]

module _ {W : Type 0} where
  -- `err_out_close`, and what it falls through to.
  abbrev pub close_it : Outcome ℕ → Sorting W → Outcome ℕ × Sorting W
  close_it res s = (res, record s { is_closed = true })

  -- `err_out_stop_binlog`, and what it falls through to.
  unfoldable pub stop_and_close : Outcome ℕ → Sorting W → Outcome ℕ × Sorting W
  unfolding binlog_stop
  stop_and_close res s = close_it res (record s { binlog = (binlog_stop s.binlog).1 })

  -- The end, after the blocks have been filled: the file gets its name and the binlog is stopped.
  unfoldable pub rename_and_stop : Sorting W → Outcome ℕ × Sorting W
  unfolding binlog_stop stop_and_close
  rename_and_stop s =
      let stopped = binlog_stop s.binlog in
      let named : Sorting W = record s { is_renamed = true; binlog = stopped.1 } in
      elim stopped.0 [ err e ↦ stop_and_close (err e) named | ok u ↦ (ok 0, named) ]

module _ {W : Type 0} (disk : Disk) (h : Rebalance (HashEntry RamControl))
    (r : Rebalance L2hashEntry) (s : Rebalance L2hashCollision) (bs : Bsearch)
    (mark : ℕ → W → Outcome (Unit {0}) × W) (scale : ℕ → ℕ) (index_block_size bloom_length : ℕ)
    (qsort : (DiskControl → DiskControl → Ordering) → List DiskControl → List DiskControl) where
  -- The sorted index becomes that of the base: the blocks are filled.
  unfoldable pub install : Answers → ℕ → ℕ → Sorting W → Option (Outcome ℕ × Sorting W)
  unfolding rename_and_stop stop_and_close
  install a fd index_size st =
      let set : Sorting W = record st {
        sort_fd = some fd;
        ctl = record st.ctl { sort_size = index_size };
        defrag_generation = st.defrag_generation + 1;
      } in
      elim (index_blocks_fill scale (pread_of set.sorted_file) index_block_size bloom_length
        a.calloc_bloom a.calloc_blocks set.ctl) [
          | none ↦ none
          | some (res, ctl) ↦
              let filled : Sorting W = record set { ctl = ctl } in
              elim res [
                | err e ↦ some (stop_and_close (err e) filled)
                | ok n ↦
                    if n == 0
                    then some (rename_and_stop filled)
                    else some (stop_and_close (ok n) filled)
              ]
        ]

  -- What is done with the locks: the binlog is applied, the file written again, and the keys are
  -- flushed from the cache.
  unfoldable pub apply_and_flush :
      Answers → ℕ → ℕ → List DiskControl → Sorting W → Option (Outcome ℕ × Sorting W)
  unfolding install stop_and_close
  apply_and_flush a fd index_size dcs st = elim a.locked [
    | err e ↦ some (stop_and_close (err e) st)
    | ok u ↦
        let applied = indexsort_binlog_apply mark bs st.binlog dcs st.world in
        let marked : Sorting W = record st { world = applied.2 } in
        elim applied.0 [
          | err e ↦ some (stop_and_close (err e) marked)
          | ok u ↦ elim a.rewritten [
            | err e ↦ some (stop_and_close (err e) marked)
            | ok u ↦
                let stored : Sorting W = record marked { sorted_file = applied.1 } in
                elim a.resynced [
                  | err e ↦ some (stop_and_close (err e) stored)
                  | ok u ↦ install a fd index_size (record stored {
                    backend = indexsort_flush_cache disk h r s applied.1 st.backend;
                  })
                ]
          ]
        ]
  ]

  -- From the start of the binlog on. A failed write or sync frees the index and closes the file, but
  -- does not stop the binlog.
  unfoldable pub sort_logged :
      (Sorting W → Sorting W) → Answers → ℕ → ℕ → Sorting W → Option (Outcome ℕ × Sorting W)
  unfolding apply_and_flush stop_and_close binlog_start
  sort_logged meanwhile a fd index_size st =
      let started = binlog_start st.binlog in
      let logging : Sorting W = record st { binlog = started.1 } in
      elim started.0 [
        | err e ↦ some (close_it (err e) logging)
        | ok u ↦ elim a.headers [
          | err e ↦ some (stop_and_close (err e) logging)
          | ok dcs ↦
              let sorted = qsort disk_control_sort_with_flags dcs in
              elim a.written [
                | err e ↦ some (close_it (err e) logging)
                | ok u ↦
                    let stored : Sorting W = record logging { sorted_file = sorted } in
                    elim a.synced [
                      | err e ↦ some (close_it (err e) stored)
                      | ok u ↦ apply_and_flush a fd index_size sorted (meanwhile stored)
                    ]
              ]
        ]
      ]

  -- `eblob_generate_sorted_index`; `null` tells whether one of its two pointers is null. An index
  -- that is empty ends it with 0 and no sorted index.
  unfoldable pub generate_sorted_index :
      (Sorting W → Sorting W) → Bool → Answers → Sorting W → Option (Outcome ℕ × Sorting W)
  unfolding sort_logged
  generate_sorted_index meanwhile null a st =
      if null
      then some (err einval, st)
      else if not (a.malloc_file && a.malloc_dst_file)
      then some (err enomem, st)
      else if a.has_sorted
      then some (ok 0, st)
      else elim a.fd [
        | err e ↦ some (err e, st)
        | ok fd ↦ elim a.index_size [
          | err e ↦ some (close_it (err e) st)
          | ok size ↦ if size == 0 then some (close_it (ok 0) st) else elim a.preallocated [
            | err e ↦ some (close_it (err e) st)
            | ok u ↦
                if not a.malloc_index
                then some (close_it (err enomem) st)
                else sort_logged meanwhile a fd size st
          ]
        ]
      ]
