-- ===== src/Cache/Lookup.antt =====
-- library/mobjects.c: `eblob_cache_lookup`, in memory and then on disk.
use eblob.Base.{
  ℕ, ◌<◌, Bool, true, false, Option, none, some, List, ◌∷◌, All, Outcome, ok, err, enoent, ◌≡◌,
  refl,
}
use eblob.Key.{Key}
use eblob.Record.{DiskControl, RamControl, Disk}
use eblob.Cache.{Backend, memory_lookup}
use eblob.Index.Search.{Bsearch}
use eblob.Index.Lookup.{BaseCtl, disk_index_lookup, IsUsable, Looked, disk_index_lookup-Looked}

-- `disk`, which is stored to `*diskp`, by what the lookup on disk returns.
abbrev pub is_ok : Outcome RamControl → Bool
is_ok (ok r) = true
is_ok (err e) = false

module _ (disk : Disk) (bs : Bsearch) (read : ℕ → ℕ → ℕ → Outcome (List DiskControl))
    (malloc : ℕ → Bool) (index_block_size : ℕ) where
  -- The result of the lookup on disk, with `disk`.
  abbrev pub on_disk : Option (Outcome RamControl) → Option (Outcome RamControl × Bool)
  on_disk none = none
  on_disk (some (ok r)) = some (ok r, true)
  on_disk (some (err e)) = some (err e, false)

  -- What follows the lookup in memory: only after -ENOENT the disk is looked at.
  abbrev pub or_on_disk :
      Outcome RamControl → Option (Outcome RamControl) → Option (Outcome RamControl × Bool)
  or_on_disk (err enoent) looked = on_disk looked
  or_on_disk r looked = some (r, false)

  -- `eblob_cache_lookup`
  unfoldable pub cache_lookup :
      Backend → List (List BaseCtl) → Key → Option (Outcome RamControl × Bool)
  cache_lookup b views key =
      or_on_disk (memory_lookup disk b key)
        (disk_index_lookup bs read malloc index_block_size key views)

  on_disk-Looked :
      (at : ℕ → ℕ → DiskControl) (size : ℕ → ℕ) (key : Key) (bases : List BaseCtl)
      (r : Outcome RamControl)
      → Looked bs read malloc index_block_size key at size bases r
      → (r' : Outcome RamControl) × (on_disk (some r) ≡ some (r', is_ok r'))
        × Looked bs read malloc index_block_size key at size bases r'
  on_disk-Looked at size key bases (ok c) h = (ok c, refl, h)
  on_disk-Looked at size key bases (err e) h = (err e, refl, h)

  -- `eblob_cache_lookup` of a key that memory does not have, over bases that are valid, each with a
  -- sorted index that the search can use or with none: it ends with the control of a header that is
  -- not removed in the first base of the list, the newest first, that has such a header, or returns
  -- -ENOENT if no sorted index has one; `*diskp` tells which.
  pub cache_lookup-Looked :
      (at : ℕ → ℕ → DiskControl) (size : ℕ → ℕ) (some_ : 0 < index_block_size) (key : Key)
      (b : Backend) (bases : List BaseCtl) (later : List (List BaseCtl))
      → memory_lookup disk b key ≡ err enoent
      → All (IsUsable bs read malloc index_block_size key at size) bases
      → (r : Outcome RamControl) × (cache_lookup b (bases ∷ later) key ≡ some (r, is_ok r))
        × Looked bs read malloc index_block_size key at size bases r
  unfolding cache_lookup
  cache_lookup-Looked at size some_ key b bases later missed usable =
      let v =
        disk_index_lookup-Looked bs read malloc index_block_size key at size some_ bases later
          usable in
      let w = on_disk-Looked at size key bases v.0 v.2 in
      (w.0, rw (cache_lookup, missed, v.1) w.1, w.2)
