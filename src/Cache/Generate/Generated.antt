-- ===== src/Cache/Generate/Generated.antt =====
-- library/index.c: what `eblob_generate_sorted_index` leaves where it returns 0.
use eblob.Base.{ℕ, Ordering, true, List, [], Outcome, ok, ◌≡◌}
use eblob.Key.{Key}
use eblob.Record.{DiskControl, RamControl, Disk}
use eblob.Rbtree.{Rebalance}
use eblob.Hash.{HashEntry}
use eblob.L2hash.{L2hashEntry, L2hashCollision}
use eblob.Index.{disk_control_sort_with_flags}
use eblob.Index.Search.{Bsearch}
use eblob.Cache.{Backend}
use eblob.Cache.Counted.{IsReady}
use eblob.Cache.Generate.Switched.{Result, IsSwitched}
use eblob.Cache.Generate.{Sorting, Answers, sort_logged}

module _ {W : Type 0} (disk : Disk) (h : Rebalance (HashEntry RamControl))
    (r : Rebalance L2hashEntry) (s : Rebalance L2hashCollision) (bs : Bsearch)
    (mark : ℕ → W → Outcome (Unit {0}) × W) (scale : ℕ → ℕ) (index_block_size bloom_length : ℕ)
    (qsort : (DiskControl → DiskControl → Ordering) → List DiskControl → List DiskControl) where
  abbrev logged : (Sorting W → Sorting W) → Answers → ℕ → ℕ → Sorting W → Result W
  logged = sort_logged disk h r s bs mark scale index_block_size bloom_length qsort

  -- While the index is sorted other threads log the keys that they remove, and keep the cache sound.
  pub record IsLogging (meanwhile : Sorting W → Sorting W) (keys : List Key) : Type 0 where
    pub logs :
        (st : Sorting W)
        → st.binlog ≡ record { enabled = true; removed_keys = [] }
        → (meanwhile st).binlog ≡ record { enabled = true; removed_keys = keys }
    pub ready : (st : Sorting W) → IsReady disk st.backend → IsReady disk (meanwhile st).backend

  -- How a call that returned 0 has ended: there was a sorted index already, the index is empty, or
  -- the base has a new one.
  pub data Generated (a : Answers) (keys : List Key) (st t : Sorting W) : Type 0 where
    already : a.has_sorted ≡ true → t ≡ st → Generated a keys st t
    empty : a.index_size ≡ ok 0 → t.sort_fd ≡ st.sort_fd → Generated a keys st t
    fresh :
        (fd : ℕ) (dcs : List DiskControl) (b : Backend)
        → a.fd ≡ ok fd
        → a.headers ≡ ok dcs
        → IsSwitched disk h r s bs mark scale index_block_size bloom_length qsort fd
            (qsort disk_control_sort_with_flags dcs)
            keys
            b
            t
        → Generated a keys st t
