-- ===== src/Store/Cached.antt =====
-- library/mobjects.c: the caches in memory as the cache of a store that has no sorted base, whose
-- lookups end there.
use eblob.Base.{Bool, true, false, Outcome, ok, err, ap}
use eblob.Record.{RamControl, Disk}
use eblob.Rbtree.{Rebalance}
use eblob.Hash.{HashEntry}
use eblob.L2hash.{L2hashEntry, L2hashCollision}
use eblob.Cache.{memory_lookup, cache_insert, cache_remove}
use eblob.Cache.Counted.{IsReady, cache_remove-Uncached}
use eblob.Store.{KeyCache}
use eblob.Store.Removed.{IsCache}

-- `*diskp` is 0 for what was found in memory.
abbrev in_memory : Outcome RamControl → Outcome (RamControl × Bool)
in_memory (ok ctl) = ok (ctl, false)
in_memory (err e) = err e

module _ (disk : Disk) (h : Rebalance (HashEntry RamControl)) (r : Rebalance L2hashEntry)
    (s : Rebalance L2hashCollision) where
  abbrev pub memory_cache : KeyCache
  memory_cache = record {
    lookup = λ c key. in_memory (memory_lookup disk c key);
    insert = λ c key ctl. cache_insert disk h r s false true true c key ctl;
    remove = λ c key. cache_remove disk h r s c key;
  }

  -- The caches in memory do not find a key that was removed from them.
  pub memory_cache-IsCache : IsCache memory_cache (IsReady disk)
  memory_cache-IsCache = record {
    lookup-remove =
        λ c key ready. ap in_memory ((cache_remove-Uncached disk h r s key c ready).1.0);
  }
