-- ===== src/Index/Lookup.antt =====
-- library/index.c: `eblob_disk_index_lookup`, the search of a key in the sorted indexes of all bases.
--
-- A base may be invalidated by the thread that sorts data while the list of bases is walked, and the
-- walk then starts again: the list is given as it stands at each start, the newest base first. The
-- holds of a base, log lines and the counters of the search are not modelled.
use eblob.Base.{
  ℕ, ◌+◌, ◌*◌, ◌<◌, Bool, true, false, ltb, Option, none, some, List, [], ◌∷◌, All, Outcome, ok,
  err, Errno, enoent, edeadlk, ◌≡◌, refl, ◌⊎◌, inl, inr,
}
use eblob.Key.{Key}
use eblob.Record.{DiskControl, RamControl}
use eblob.Bloom.{bloom_get}
use eblob.Index.Search.{Bsearch, Sorted, find_on_disk, find_non_removed}
use eblob.Index.Search.Windows.{IsRead, IsHit, IsSame}
use eblob.Index.Search.Ordered.{IsOrdered, IsTable}
use eblob.Index.Search.Ahead.{IsShortRun}
use eblob.Index.Search.Found.{find_on_disk-Finds}

-- The fields of `struct eblob_base_ctl` that the lookup uses: the pointer to it, `index_fd`, which is
-- negative for a base that is invalidated, and the sorted index, if there is one.
pub record BaseCtl : Type 0 where
  pub bctl : ℕ
  pub index_fd : Option ℕ
  pub sorted : Option Sorted

-- `struct eblob_disk_control dc = { .key = *key, }`
abbrev pub dc_of : Key → DiskControl
dc_of key = record { key = key; flags = 0; data_size = 0; disk_size = 0; position = 0 }

-- The control that is filled from what is found.
abbrev pub rctl_of : ℕ → DiskControl → ℕ → RamControl
rctl_of bctl dc hdr_offset = record {
  data_offset = dc.position;
  index_offset = hdr_offset;
  size = dc.data_size;
  bctl = some bctl;
}

-- How a walk over the list ends: with what the function returns, at a base that is not valid any
-- more, or in a search that does not end on its fuel.
pub data Pass : Type 0 where
  finished : Outcome RamControl → Pass
  again : Errno → Pass
  unfinished : Pass

-- A walk that finds its first base not valid any more.
abbrev pub IsStale : List BaseCtl → Type 0
IsStale [] = ⊥
IsStale (b ∷ rest) = b.index_fd ≡ none

module _ (bs : Bsearch) (read : ℕ → ℕ → ℕ → Outcome (List DiskControl)) (malloc : ℕ → Bool)
    (index_block_size : ℕ) (key : Key) where
  -- One walk over the list, where `err` has been -`error` before.
  unfoldable pub lookup_pass : List BaseCtl → Errno → Pass
  lookup_pass [] error = finished (err error)
  lookup_pass (b ∷ rest) error = elim b.index_fd [
    | none ↦ again error
    | some fd ↦ elim b.sorted [
      | none ↦ lookup_pass rest error
      | some s ↦
          elim (find_on_disk bs (read b.bctl) index_block_size (malloc b.bctl) s (dc_of key)
            find_non_removed) [
              | none ↦ unfinished
              | some r ↦ elim r [
                | err e ↦ lookup_pass rest e
                | ok found ↦ finished (ok (rctl_of b.bctl found.0 found.1))
              ]
            ]
    ]
  ]

  -- The walks, one for each list; `none` where the lists given run out.
  unfoldable pub lookup_tries : List (List BaseCtl) → ℕ → Errno → Option (Outcome RamControl)
  lookup_tries [] tries error = none
  lookup_tries (bases ∷ later) tries error = elim (lookup_pass bases error) [
    | finished r ↦ some r
    | unfinished ↦ none
    | again e ↦ elim (ltb 10 tries) [
      | true ↦ some (err edeadlk)
      | false ↦ lookup_tries later (tries + 1) e
    ]
  ]

  -- `eblob_disk_index_lookup`
  unfoldable pub disk_index_lookup : List (List BaseCtl) → Option (Outcome RamControl)
  disk_index_lookup views = lookup_tries views 0 enoent

  module _ (at : ℕ → ℕ → DiskControl) (size : ℕ → ℕ) where
    -- A base whose sorted index, if there is one, can be read and is in order, with the blocks and
    -- the filter that belong to it, and has the headers of the key within the size of one block.
    pub record IsSearchable (b : BaseCtl) (s : Sorted) : Type 0 where
      pub reads : IsRead (at b.bctl) (read b.bctl) (size b.bctl)
      pub ordered : IsOrdered (at b.bctl) (size b.bctl)
      pub short_run :
          IsShortRun (at b.bctl) (read b.bctl) (size b.bctl) index_block_size (dc_of key) reads
      pub sized : s.sort_size ≡ size b.bctl * 96
      pub table : IsTable (at b.bctl) (size b.bctl) index_block_size s.index_blocks
      pub present :
          (t : ℕ)
          → t < size b.bctl
          → find_non_removed (at b.bctl t) ≡ true
          → bloom_get s.filter (at b.bctl t).key ≡ ok true
      pub allocates : malloc b.bctl ≡ true

    abbrev pub IsUsable : BaseCtl → Type 0
    IsUsable b =
        ((fd : ℕ) × (b.index_fd ≡ some fd)) × ((s : Sorted) → b.sorted ≡ some s → IsSearchable b s)

    -- The first base with a header of the key that is not removed gives the control; without one
    -- there is -ENOENT.
    abbrev pub Looked : List BaseCtl → Outcome RamControl → Type 0
    Looked [] r = r ≡ err enoent
    Looked (b ∷ rest) r = elim b.sorted [
      | none ↦ Looked rest r
      | some s ↦
          ((q : ℕ) × (q < size b.bctl)
            × IsHit (at b.bctl) (dc_of key) q
            × (r ≡ ok (rctl_of b.bctl (at b.bctl q) (q * 96))))
          ⊎ (((t : ℕ)
                → t < size b.bctl
                → IsSame (at b.bctl) (dc_of key) t
                → find_non_removed (at b.bctl t) ≡ false)
              × Looked rest r)
    ]

    lookup_pass-Looked :
        (some_ : 0 < index_block_size) (bases : List BaseCtl)
        → All IsUsable bases
        → (r : Outcome RamControl) × (lookup_pass bases enoent ≡ finished r) × Looked bases r
    unfolding lookup_pass
    lookup_pass-Looked some_ [] usable = (err enoent, refl, refl)
    lookup_pass-Looked some_ (b ∷ rest) usable =
        first b.sorted refl (lookup_pass-Looked some_ rest usable.1)
      where
        first :
            (o : Option Sorted)
            → b.sorted ≡ o
            → ((r : Outcome RamControl) × (lookup_pass rest enoent ≡ finished r) × Looked rest r)
            → (r : Outcome RamControl) × (lookup_pass (b ∷ rest) enoent ≡ finished r)
              × Looked (b ∷ rest) r
        first none e later = (later.0, rw (lookup_pass, usable.0.0.1, e) later.1, rw e later.2)
        first (some s) e later =
            let v = usable.0.1 s e in
            elim (find_on_disk-Finds (at b.bctl) (size b.bctl) (dc_of key) (read b.bctl)
              index_block_size v.reads v.ordered v.short_run some_ bs s v.sized v.table v.present) [
                | inl (q, inside, out, found) ↦ (
                  ok (rctl_of b.bctl (at b.bctl q) (q * 96)),
                  rw (lookup_pass, usable.0.0.1, e, v.allocates, out) refl,
                  rw e (inl (q, inside, found, refl)),
                )
                | inr (out, removed) ↦ (
                  later.0,
                  rw (lookup_pass, usable.0.0.1, e, v.allocates, out) later.1,
                  rw e (inr (removed, later.2)),
                )
              ]

    pub disk_index_lookup-Looked :
        (some_ : 0 < index_block_size) (bases : List BaseCtl) (later : List (List BaseCtl))
        → All IsUsable bases
        → (r : Outcome RamControl) × (disk_index_lookup (bases ∷ later) ≡ some r) × Looked bases r
    unfolding disk_index_lookup lookup_tries
    disk_index_lookup-Looked some_ bases later usable =
        let v = lookup_pass-Looked some_ bases usable in
        (v.0, rw (disk_index_lookup, lookup_tries, v.1) refl, v.2)
