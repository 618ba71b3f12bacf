-- ===== src/Index/Fill.antt =====
-- library/index.c: `eblob_index_blocks_fill` around its two loops.
use eblob.Base.{
  ℕ, zero, suc, ◌+◌, ◌-◌, ◌*◌, ◌/◌, Bool, true, false, Option, none, some, List, [], ◌∷◌, Outcome,
  ok, err, enomem,
}
use eblob.Record.{DiskControl, Pread, hdr_size}
use eblob.Bloom.{BloomFilter}
use eblob.Index.{
  IndexBlock, IndexCtl, Filling, Progress, going, stopped, fill_blocks, bloom_size, bloom_func_num,
  index_blocks_destroy,
}

-- The bytes that `calloc` gives.
abbrev pub zeros : ℕ → List ℕ
zeros zero = []
zeros (suc n) = 0 ∷ zeros n

-- `howmany`
abbrev pub howmany : ℕ → ℕ → ℕ
howmany x y = (x + (y - 1)) / y

-- `struct eblob_disk_control` before anything is read into it, and a key of `calloc`.
abbrev pub unset : DiskControl
unset = record {
  key = record { id = zeros 64 };
  flags = 0;
  data_size = 0;
  disk_size = 0;
  position = 0;
}

-- The variables before the loops.
abbrev pub blank : BloomFilter → ℕ → Filling
blank filter corrupted = record {
  offset = 0;
  err_count = 0;
  removed = 0;
  removed_size = 0;
  corrupted = corrupted;
  filter = filter;
  dc = unset;
  start_key = unset.key;
}

-- The end of `eblob_index_blocks_fill`: the counters of removed records, or `err_out_drop_tree`.
unfoldable pub finish : IndexCtl → Progress → List IndexBlock → Outcome ℕ × IndexCtl
unfolding index_blocks_destroy
finish sized (going st) blocks = (
  ok 0,
  record sized {
    filter = st.filter;
    index_blocks = some blocks;
    stat_corrupted = st.corrupted;
    stat_removed = st.removed;
    stat_removed_size = st.removed_size;
  },
)
finish sized (stopped res st) blocks =
    (res, index_blocks_destroy (record sized { stat_corrupted = st.corrupted }))

-- After the allocation of the blocks, of 144 bytes each.
abbrev pub with_blocks : IndexCtl → ℕ → IndexCtl
with_blocks allocated index_block_size = record allocated {
  stat_index_blocks_size = howmany (allocated.sort_size / hdr_size) index_block_size * 144;
}

-- `eblob_index_blocks_fill`. `calloc_bloom` and `calloc_blocks` tell whether the two allocations
-- succeed. The result is the number returned; it is `none` where the loop has not ended on its
-- fuel, one round for each byte of the index and one more. Where the filter cannot be allocated
-- `err` is still 0, and so is its negation.
unfoldable pub index_blocks_fill :
    (ℕ → ℕ) → (ℕ → Pread) → ℕ → ℕ → Bool → Bool → IndexCtl → Option (Outcome ℕ × IndexCtl)
unfolding finish
index_blocks_fill scale pread index_block_size bloom_length calloc_bloom calloc_blocks bctl =
    let size = bloom_size bctl.sort_size index_block_size bloom_length in
    let func_num = bloom_func_num scale size bctl.sort_size in
    let filter : BloomFilter = record {
      bloom = some (zeros size);
      bloom_size = size;
      bloom_func_num = func_num;
    } in
    let allocated : IndexCtl = record bctl { filter = filter; stat_bloom_size = size } in
    let sized = with_blocks allocated index_block_size in
    elim calloc_bloom [
      | false ↦ some (ok 0, record bctl { filter = record filter { bloom = none } })
      | true ↦ elim calloc_blocks [
        | false ↦ some (err enomem, record allocated { index_blocks = none })
        | true ↦
            elim (fill_blocks pread bctl.sort_size bctl.data_size bctl.data_offset index_block_size
              (suc bctl.sort_size) (blank filter bctl.stat_corrupted)) [
                | none ↦ none
                | some (p, blocks) ↦ some (finish sized p blocks)
              ]
      ]
    ]
