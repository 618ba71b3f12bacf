-- ===== src/Index/Search/Found.antt =====
-- What `eblob_find_on_disk` finds in a sorted index.
use Prim.Native.Nat.Ordering.{eq}
use eblob.Base.{
  ℕ, ◌*◌, ◌<◌, true, false, Bool-cases, none, some, Option-cases, List, get_elem?, Outcome, ok, err,
  Outcome-cases, enoent, ◌≡◌, refl, sym, ap, subst, ◌∙◌, inl, inr,
}
use eblob.Record.{DiskControl}
use eblob.Bloom.{bloom_get}
use eblob.Index.{IndexBlock, key_range_cmp}
use eblob.Index.Search.{
  Bsearch, Sorted, search_block, find_on_disk, find_non_removed, blocks_search,
  blocks_search_nobloom,
}
use eblob.Index.Search.Windows.{IsRead}
use eblob.Index.Search.Keys.{same_key}
use eblob.Index.Search.Ordered.{
  IsOrdered, IsTable, blocks-IsPartitioned, key_in_range, key_in_block,
}
use eblob.Index.Search.Ahead.{IsShortRun}
use eblob.Index.Search.Around.{Finds}
use eblob.Index.Search.Block.{search_block-Finds}

module _ (at : ℕ → DiskControl) (size : ℕ) (dc : DiskControl)
    (read : ℕ → ℕ → Outcome (List DiskControl)) (per_block : ℕ) (reads : IsRead at read size)
    (ordered : IsOrdered at size) (short_run : IsShortRun at read size per_block dc reads)
    (some_ : 0 < per_block) where
  -- `eblob_find_on_disk`, over an index in the order of its keys, with the blocks and the filter
  -- that belong to it, in which any two headers of the key lie less than a block apart: when the
  -- buffer is allocated and the reads succeed, it ends, and gives a header of the key that is not
  -- removed and its offset, or there is none and it returns -ENOENT.
  pub find_on_disk-Finds :
      (bs : Bsearch) (bctl : Sorted)
      → bctl.sort_size ≡ size * 96
      → IsTable at size per_block bctl.index_blocks
      → ((t : ℕ)
          → t < size
          → find_non_removed (at t) ≡ true
          → bloom_get bctl.filter (at t).key ≡ ok true)
      → Finds at size dc (find_on_disk bs read per_block true bctl dc find_non_removed)
  unfolding find_on_disk
  find_on_disk-Finds bs bctl sized table present =
      elim (Outcome-cases (bloom_get bctl.filter dc.key)) [
        | inl (e, h) ↦ unfiltered (rw (blocks_search, h) refl)
        | inr (true, h) ↦ unfiltered (rw (blocks_search, h) refl)
        | inr (false, h) ↦ inr (
          rw (find_on_disk, h) refl,
          λ t below same. elim (Bool-cases (find_non_removed (at t))) [
            | inr dead ↦ dead
            | inl live ↦
                absurd (
                  cc
                    (h, present t below live, ap (bloom_get bctl.filter) (same_key (at t) dc same)))
          ],
        )
      ]
    where
      step :
          (i : ℕ) (b : IndexBlock)
          → blocks_search bs bctl dc.key ≡ blocks_search_nobloom bs bctl dc.key
          → bs.search_in IndexBlock (key_range_cmp dc.key) bctl.index_blocks ≡ some i
          → get_elem? bctl.index_blocks i ≡ some b
          → find_on_disk bs read per_block true bctl dc find_non_removed
            ≡ search_block bs read per_block true bctl.sort_size dc find_non_removed b.start_offset
      step i b same_search e f =
          let nobloom : blocks_search_nobloom bs bctl dc.key ≡ some b =
            rw (blocks_search_nobloom, e) f in
          rw (find_on_disk, same_search ∙ nobloom) refl

      no_step :
          blocks_search bs bctl dc.key ≡ blocks_search_nobloom bs bctl dc.key
          → bs.search_in IndexBlock (key_range_cmp dc.key) bctl.index_blocks ≡ none
          → find_on_disk bs read per_block true bctl dc find_non_removed ≡ some (err enoent)
      no_step same_search e =
          let nobloom : blocks_search_nobloom bs bctl dc.key ≡ none =
            rw (blocks_search_nobloom, e) refl in
          rw (find_on_disk, same_search ∙ nobloom) refl

      unfiltered :
          blocks_search bs bctl dc.key ≡ blocks_search_nobloom bs bctl dc.key
          → Finds at size dc (find_on_disk bs read per_block true bctl dc find_non_removed)
      unfiltered same_search =
          let cmp = key_range_cmp dc.key in
          let parts =
            blocks-IsPartitioned at size ordered per_block some_ bctl.index_blocks table dc.key in
          elim (Option-cases (bs.search_in IndexBlock cmp bctl.index_blocks)) [
            | inl e ↦ inr (
              no_step same_search e,
              λ t below same.
                  let v = table.entry_of t below in
                  absurd (
                    bs.search_in-none IndexBlock cmp bctl.index_blocks parts e v.0 v.1 v.2 (
                      subst (λ k. key_range_cmp k v.1 ≡ eq) (same_key (at t) dc same)
                        (key_in_range at size ordered per_block some_ bctl.index_blocks table t v.0
                          v.1 below v.2 v.3 v.4))),
            )
            | inr (i, e) ↦
                let v = bs.search_in-eq IndexBlock cmp bctl.index_blocks parts i e in
                let w = table.entry i v.0 v.1 in
                subst (Finds at size dc)
                  (sym (
                    step i v.0 same_search e v.1
                    ∙ (ap
                          (λ z.
                            search_block bs read per_block true z dc find_non_removed
                              v.0.start_offset)
                          sized
                        ∙ ap (search_block bs read per_block true (size * 96) dc find_non_removed)
                            w.1)))
                  (search_block-Finds at size dc read per_block reads ordered short_run some_ bs
                    (i * per_block) w.0
                    (λ t below same.
                      key_in_block at size ordered per_block some_ bctl.index_blocks table dc t i
                        v.0 below same v.1 v.2))
          ]
