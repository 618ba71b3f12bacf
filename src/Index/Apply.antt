-- ===== src/Index/Apply.antt =====
-- library/index.c: `sorted_index_bsearch_raw` and `indexsort_binlog_apply`, which marks the keys of
-- the binlog as removed in a sorted index and in the data file.
--
-- What `eblob_mark_index_removed` does with the data file is a parameter over some state. Log lines
-- are not modelled.
use Prim.Native.Nat.Ordering.{lt, eq, gt}
use eblob.Base.{
  ℕ, zero, suc, bit_or, Option, none, some, List, [], ◌∷◌, length, Outcome, ok, err, Errno,
}
use eblob.Key.{Key, id_cmp}
use eblob.Record.{DiskControl}
use eblob.Binlog.{BinlogCfg}
use eblob.Binlog.Replay.{replay}
use eblob.Index.{disk_control_sort}
use eblob.Index.Search.{Bsearch}
use eblob.Index.Lookup.{dc_of}
pub mod Marked
pub mod Applied

-- `sorted_index_bsearch_raw`; the index -1 is `none`.
unfoldable pub sorted_index_bsearch_raw : Bsearch → Key → List DiskControl → Option ℕ
sorted_index_bsearch_raw bs key base = bs.search_in DiskControl (disk_control_sort (dc_of key)) base

-- `dc->flags |= BLOB_DISK_CTL_REMOVE`
abbrev pub set_removed : DiskControl → DiskControl
set_removed dc = record dc { flags = bit_or dc.flags 1 }

module _ {W : Type 0} (mark : ℕ → W → Outcome (Unit {0}) × W) where
  -- The inner loop, from a header on.
  unfoldable pub mark_run : Key → List DiskControl → W → Outcome (Unit {0}) × List DiskControl × W
  unfolding id_cmp
  mark_run key [] w = (ok tt, [], w)
  mark_run key (dc ∷ dcs) w = elim (id_cmp key.id dc.key.id) [
    | lt ↦ (ok tt, dc ∷ dcs, w)
    | gt ↦ (ok tt, dc ∷ dcs, w)
    | eq ↦
        let marked = mark dc.position w in
        elim marked.0 [
          | err e ↦ (err e, set_removed dc ∷ dcs, marked.1)
          | ok u ↦ let rest = mark_run key dcs marked.1 in (rest.0, set_removed dc ∷ rest.1, rest.2)
        ]
  ]

  -- The same from the place that the search has given.
  unfoldable pub mark_from :
      ℕ → Key → List DiskControl → W → Outcome (Unit {0}) × List DiskControl × W
  unfolding mark_run
  mark_from zero key dcs w = mark_run key dcs w
  mark_from (suc i) key [] w = (ok tt, [], w)
  mark_from (suc i) key (dc ∷ dcs) w =
      let rest = mark_from i key dcs w in (rest.0, dc ∷ rest.1, rest.2)

  -- The loop over the keys; one that the index does not have is skipped.
  unfoldable pub apply_keys :
      Bsearch → List Key → List DiskControl → W → Outcome (Unit {0}) × List DiskControl × W
  unfolding mark_from sorted_index_bsearch_raw
  apply_keys bs [] dcs w = (ok tt, dcs, w)
  apply_keys bs (key ∷ keys) dcs w = elim (sorted_index_bsearch_raw bs key dcs) [
    | none ↦ apply_keys bs keys dcs w
    | some index ↦
        let out = mark_from index key dcs w in
        elim out.0 [ err e ↦ out | ok u ↦ apply_keys bs keys out.1 out.2 ]
  ]

  -- `indexsort_binlog_apply`
  unfoldable pub indexsort_binlog_apply :
      Bsearch → BinlogCfg → List DiskControl → W → Outcome (Unit {0}) × List DiskControl × W
  unfolding apply_keys replay
  indexsort_binlog_apply bs bcfg dcs w =
      apply_keys bs (replay (suc (length bcfg.removed_keys)) bcfg none) dcs w
