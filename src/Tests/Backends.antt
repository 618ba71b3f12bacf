-- ===== src/Tests/Backends.antt =====
-- `eblob_cache_insert` and `eblob_cache_remove` at concrete inputs.
use eblob.Base.{[], ◌∷◌, true, false, ◌≡◌, refl}
use eblob.Key.{id_cmp}
use eblob.Rbtree.{leaf, walk, link_and_color, link_node, assign}
use eblob.Rbtree.Plain.{plain}
use eblob.Cache.{Backend, cache_insert, cache_remove, blob_iter}
use eblob.Cache.Flush.{Flushed, indexsort_flush_cache, indexsort_flush_cache-Flushed}
use eblob.Cache.Counted.{IsReady, Cached, Uncached, cache_insert-Cached, cache_remove-Uncached}
use eblob.Tests.Samples.{header_of, key_of, sample_disk, rctl_at, nine-BelongsTo}
use eblob.Tests.Caches.{sample_tables, sample-IsSound}

-- A backend with the short-hash cache, which holds `key_of 7`.
abbrev short_hashes : Backend
short_hashes = record {
  use_l2hash = true;
  hash = record { root = leaf; dsize = 32 };
  l2hash = sample_tables;
  cached = 72;
}

cache_insert-Cached_example :
    let (res, b') =
      cache_insert sample_disk plain plain plain false true true short_hashes
        (key_of 9)
        (rctl_at 96 40) in
    IsReady sample_disk b' × Cached sample_disk short_hashes (key_of 9) (rctl_at 96 40) res b'
cache_insert-Cached_example =
    cache_insert-Cached sample_disk plain plain plain (key_of 9) true true short_hashes 0 96 40 1 5
      refl sample-IsSound (nine-BelongsTo 40)

cache_remove-Uncached_example :
    let out = cache_remove sample_disk plain plain plain short_hashes (key_of 7) in
    IsReady sample_disk out.1 × Uncached sample_disk short_hashes (key_of 7) out
cache_remove-Uncached_example =
    cache_remove-Uncached sample_disk plain plain plain (key_of 7) short_hashes sample-IsSound

-- The other cache counts a new key once.
abbrev long_keys : Backend
long_keys = record {
  use_l2hash = false;
  hash = record { root = leaf; dsize = 32 };
  l2hash = sample_tables;
  cached = 0;
}

abbrev once_inserted : Backend
once_inserted =
    (cache_insert sample_disk plain plain plain false true true long_keys (key_of 9)
      (rctl_at 96 10)).1

abbrev twice_inserted : Backend
twice_inserted =
    (cache_insert sample_disk plain plain plain false true true once_inserted (key_of 9)
      (rctl_at 96 20)).1

counts_once : (once_inserted.cached ≡ 120) × (twice_inserted.cached ≡ 120)
unfolding cache_insert walk link_and_color link_node plain assign id_cmp
counts_once = (refl, refl)

indexsort_flush_cache-Flushed_example :
    Flushed sample_disk plain plain plain
      (header_of 7 ∷ [])
      short_hashes
      (indexsort_flush_cache sample_disk plain plain plain (header_of 7 ∷ []) short_hashes)
indexsort_flush_cache-Flushed_example =
    indexsort_flush_cache-Flushed sample_disk plain plain plain (header_of 7 ∷ []) short_hashes
      sample-IsSound

-- Two headers loaded one after the other are both counted.
abbrev loaded : Backend
loaded =
    (blob_iter sample_disk plain plain plain true true
      (blob_iter sample_disk plain plain plain true true long_keys (header_of 9) (rctl_at 96 10)).1
      (header_of 7) (rctl_at 0 10)).1

counts_both : loaded.cached ≡ 240
unfolding blob_iter walk link_and_color link_node plain assign id_cmp
counts_both = refl
