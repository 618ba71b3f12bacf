-- ===== src/Store/Removed.antt =====
-- A record that is removed, and a read of it.
use eblob.Base.{err, enoent, ◌≡◌}
use eblob.Key.{Key}
use eblob.Cache.{Backend}
use eblob.Store.{KeyCache, Store}
use eblob.Store.Commands.{remove}

-- What is relied on of a cache while it is sound: a key that was removed from it is not found.
pub record IsCache (cache : KeyCache) (IsReady : Backend → Type 0) : Type 0 where
  pub lookup-remove :
      (c : Backend) (key : Key) → IsReady c → cache.lookup (cache.remove c key).1 key ≡ err enoent
