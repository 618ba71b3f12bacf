-- ===== src/Cache.antt =====
-- library/mobjects.c: `eblob_cache_insert`, `eblob_cache_remove_nolock` and `eblob_cache_remove`,
-- through which the rest of the program uses one of the two caches, the part of
-- `eblob_cache_lookup` that looks in memory, and `eblob_blob_iter`, through which a scan of an
-- index fills a cache.
--
-- The write lock `root_lock` is held over the whole of each call and leaves no trace in a
-- sequential model; the counters of handystats are not modelled.
use eblob.Base.{
  ℕ, ◌+◌, ◌-◌, ◌%◌, ◌^◌, Bool, true, false, if◌then◌else◌, Option, none, some, Outcome, ok, err,
  Errno, enoent, eagain, einval, ◌||◌, not,
}
use eblob.Key.{Key}
use eblob.Record.{DiskControl, RamControl, Disk}
use eblob.Rbtree.{Rebalance}
use eblob.Hash.{Hash, HashEntry, hash_replace_nolock, hash_remove_nolock, hash_lookup_nolock}
use eblob.L2hash.{L2hash, L2hashEntry, L2hashCollision, l2hash_remove, l2hash_lookup}
use eblob.L2hash.Flavours.{Inserted, l2hash_upsert}
pub mod Counted
pub mod Flush
pub mod Generate
pub mod Lookup

-- `EBLOB_HASH_ENTRY_SIZE`: 32 bytes of `struct eblob_ram_control`, and 88 of
-- `struct eblob_hash_entry`.
abbrev pub hash_entry_size : ℕ
hash_entry_size = 120

-- `EBLOB_L2HASH_ENTRY_SIZE`: a node of 24 bytes, a control of 32, the flag, padded to 8, and the
-- hash of 8.
abbrev pub l2hash_entry_size : ℕ
l2hash_entry_size = 72

-- The fields of `struct eblob_backend` that the caches use: `use_l2hash` tells whether
-- `cfg.blob_flags` has EBLOB_L2HASH, and `cached` is the counter EBLOB_GST_CACHED, a number
-- modulo 2^64.
pub record Backend : Type 0 where
  pub use_l2hash : Bool
  pub hash : Hash RamControl
  pub l2hash : L2hash
  pub cached : ℕ

-- `eblob_stat_add` and `eblob_stat_sub` on the counter.
abbrev pub stat_add : ℕ → ℕ → ℕ
stat_add counter n = (counter + n) % 2 ^ 64

abbrev pub stat_sub : ℕ → ℕ → ℕ
stat_sub counter n = (counter + (2 ^ 64 - n)) % 2 ^ 64

-- The size that the counter is moved by.
abbrev pub entry_size : Backend → ℕ
entry_size b = if b.use_l2hash then l2hash_entry_size else hash_entry_size

-- `if (err == 0 && replaced == 0)`: the counter after an insertion.
abbrev pub bump : ℕ → Outcome Bool → ℕ → ℕ
bump size (ok replaced) cached = if replaced then cached else stat_add cached size
bump size (err e) cached = cached

-- The same after a removal, where the condition is `err == 0`.
abbrev pub unbump : ℕ → Outcome (Unit {0}) → ℕ → ℕ
unbump size (ok u) cached = stat_sub cached size
unbump size (err e) cached = cached

abbrev pub forget : Outcome Bool → Outcome (Unit {0})
forget (ok replaced) = ok tt
forget (err e) = err e

-- `err` and `replaced` of `eblob_l2hash_upsert` in one value; where the function does not write
-- `*replaced` it returns an error.
abbrev pub replaced_of : Outcome (Unit {0}) → Option Bool → Outcome Bool
replaced_of (ok u) (some replaced) = ok replaced
replaced_of (ok u) none = ok false
replaced_of (err e) replaced = err e

-- What `eblob_cache_lookup` finds in memory, before it looks on disk.
unfoldable pub memory_lookup : Disk → Backend → Key → Outcome RamControl
unfolding l2hash_lookup hash_lookup_nolock
memory_lookup disk b key =
    if b.use_l2hash then l2hash_lookup disk false b.l2hash key else hash_lookup_nolock b.hash key

module _ (disk : Disk) (h : Rebalance (HashEntry RamControl)) (r : Rebalance L2hashEntry)
    (s : Rebalance L2hashCollision) where
  -- The call of `eblob_l2hash_upsert` or of `eblob_hash_replace_nolock`; `m1` and `m2` are the
  -- outcomes of the allocations.
  unfoldable pub upsert_or_replace :
      Bool → Bool → Backend → Key → RamControl → Outcome Bool × Backend
  unfolding l2hash_upsert hash_replace_nolock
  upsert_or_replace m1 m2 b key ctl = elim b.use_l2hash [
    | true ↦
        let out = l2hash_upsert disk r s false m1 m2 b.l2hash key ctl true in
        (replaced_of out.status out.replaced, record b { l2hash = out.l2h })
    | false ↦
        let (res, hash) = hash_replace_nolock h m1 b.hash key ctl in (res, record b { hash = hash })
  ]

  -- `eblob_cache_insert`; `null` tells whether one of its three pointers is null.
  unfoldable pub cache_insert :
      Bool → Bool → Bool → Backend → Key → RamControl → Outcome (Unit {0}) × Backend
  unfolding upsert_or_replace
  cache_insert null m1 m2 b key ctl = if null then (err einval, b) else elim ctl.bctl [
    | none ↦ (err einval, b)
    | some c ↦ elim (disk.base c).index_fd [
      | none ↦ (err eagain, b)
      | some fd ↦
          let (res, b') = upsert_or_replace m1 m2 b key ctl in
          (forget res, record b' { cached = bump (entry_size b) res b'.cached })
    ]
  ]

  -- `eblob_cache_remove_nolock`
  unfoldable pub cache_remove_nolock : Backend → Key → Outcome (Unit {0}) × Backend
  unfolding l2hash_remove hash_remove_nolock
  cache_remove_nolock b key = elim b.use_l2hash [
    | true ↦
        let (res, l2h) = l2hash_remove disk r s false b.l2hash key in
        (res, record b { l2hash = l2h; cached = unbump (entry_size b) res b.cached })
    | false ↦
        let (res, hash) = hash_remove_nolock h b.hash key in
        (res, record b { hash = hash; cached = unbump (entry_size b) res b.cached })
  ]

  -- `eblob_cache_remove`: the same under the lock.
  unfoldable pub cache_remove : Backend → Key → Outcome (Unit {0}) × Backend
  unfolding cache_remove_nolock
  cache_remove b key = cache_remove_nolock b key

  -- `eblob_blob_iter`, the callback by which the headers of a base are loaded into the cache.
  unfoldable pub blob_iter :
      Bool → Bool → Backend → DiskControl → RamControl → Outcome (Unit {0}) × Backend
  unfolding cache_insert
  blob_iter m1 m2 b dc ctl = cache_insert false m1 m2 b dc.key ctl
