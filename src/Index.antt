-- ===== src/Index.antt =====
-- library/index.c: the orders of headers and of index blocks, and the index blocks and the filter
-- of a base with a sorted index; `eblob_check_record` of library/blob.c.
--
-- The stream of headers is `pread` at an offset of the sorted index. Log lines are not modelled.
use Prim.Native.Nat.Ordering.{lt, eq, gt}
use eblob.Base.{
  ℕ, zero, suc, ◌+◌, ◌-◌, ◌*◌, ◌/◌, ◌%◌, ◌^◌, bit_and, Ordering, Bool, true, false, if◌then◌else◌,
  not, ◌&&◌, ◌||◌, ltb, leb, ◌==◌, Option, none, some, List, [], ◌∷◌, ◌++◌, Outcome, ok, err, Errno,
  enomem, espipe, errno, max,
}
use eblob.Key.{Key, id_cmp}
use eblob.Record.{DiskControl, Pread, full, short, failed, hdr_size}
use eblob.Bloom.{BloomFilter, bloom_set}
pub mod Fill
pub mod Scans
pub mod Tilings
pub mod Filled
pub mod Search
pub mod Lookup
pub mod Apply

-- `BLOB_DISK_CTL_REMOVE` in the flags.
abbrev pub is_removed : DiskControl → Bool
is_removed dc = not (bit_and dc.flags 1 == 0)

-- `eblob_key_sort` and `eblob_disk_control_sort`
unfoldable pub key_sort : Key → Key → Ordering
key_sort key1 key2 = id_cmp key1.id key2.id

unfoldable pub disk_control_sort : DiskControl → DiskControl → Ordering
disk_control_sort dc1 dc2 = id_cmp dc1.key.id dc2.key.id

-- `eblob_disk_control_sort_with_flags`: of equal keys the removed ones come first.
unfoldable pub disk_control_sort_with_flags : DiskControl → DiskControl → Ordering
disk_control_sort_with_flags dc1 dc2 = elim (id_cmp dc1.key.id dc2.key.id) [
  | lt ↦ lt
  | gt ↦ gt
  | eq ↦
      if is_removed dc1 && not (is_removed dc2)
      then lt
      else if not (is_removed dc1) && is_removed dc2
      then gt
      else eq
]

-- `struct eblob_index_block`
pub record IndexBlock : Type 0 where
  pub start_key : Key
  pub end_key : Key
  pub start_offset : ℕ
  pub end_offset : ℕ

-- `eblob_key_range_cmp`
unfoldable pub key_range_cmp : Key → IndexBlock → Ordering
key_range_cmp key index = elim (id_cmp key.id index.start_key.id) [
  | lt ↦ lt
  | eq ↦ eq
  | gt ↦ elim (id_cmp key.id index.end_key.id) [ lt ↦ eq | eq ↦ eq | gt ↦ gt ]
]

-- `eblob_index_block_cmp`
unfoldable pub index_block_cmp : IndexBlock → IndexBlock → Ordering
unfolding key_range_cmp
index_block_cmp k index = key_range_cmp k.start_key index

-- The fields of `struct eblob_base_ctl` and of its counters that the index uses.
pub record IndexCtl : Type 0 where
  pub data_size : ℕ
  pub data_offset : ℕ
  pub sort_size : ℕ
  pub filter : BloomFilter
  pub index_blocks : Option (List IndexBlock)
  pub stat_bloom_size : ℕ
  pub stat_index_blocks_size : ℕ
  pub stat_corrupted : ℕ
  pub stat_removed : ℕ
  pub stat_removed_size : ℕ

-- `eblob_check_record`; `0` is `ok tt`. The sums are those of 64-bit unsigned words.
unfoldable pub check_record : ℕ → ℕ → DiskControl → Outcome (Unit {0})
check_record data_size data_offset dc =
    let bctl_size = if ltb data_offset data_size then data_size else data_offset in
    if ltb dc.disk_size ((dc.data_size + hdr_size) % 2 ^ 64)
      && not (dc.disk_size == 0 && (dc.data_size == 0))
    then err espipe
    else if ltb bctl_size ((dc.position + dc.disk_size) % 2 ^ 64)
    then err espipe
    else ok tt

-- `eblob_index_blocks_destroy`
unfoldable pub index_blocks_destroy : IndexCtl → IndexCtl
index_blocks_destroy bctl = record bctl {
  filter = record bctl.filter { bloom = none };
  index_blocks = none;
  stat_bloom_size = 0;
  stat_index_blocks_size = 0;
}

-- `eblob_bloom_size`
unfoldable pub bloom_size : ℕ → ℕ → ℕ → ℕ
bloom_size sort_size index_block_size index_block_bloom_length =
    (sort_size / hdr_size / index_block_size + 1) * index_block_bloom_length / 8

-- `eblob_bloom_func_num`; `scale` is the conversion of `bits_per_key * 0.69` to 8 bits.
unfoldable pub bloom_func_num : (ℕ → ℕ) → ℕ → ℕ → ℕ
bloom_func_num scale size sort_size =
    let func_num = scale (8 * size / (sort_size / hdr_size)) in
    if func_num == 0 then 1 else if ltb 20 func_num then 20 else func_num

-- `EBLOB_BLOB_INDEX_CORRUPT_MAX`
abbrev pub corrupt_max : ℕ
corrupt_max = 1024

-- The variables of the loops of `eblob_index_blocks_fill`.
pub record Filling : Type 0 where
  pub offset : ℕ
  pub err_count : ℕ
  pub removed : ℕ
  pub removed_size : ℕ
  pub corrupted : ℕ
  pub filter : BloomFilter
  pub dc : DiskControl
  pub start_key : Key

-- A loop goes on, or leaves for `err_out_drop_tree` with `err`: `ok n` is the number n itself.
pub data Progress : Type 0 where
  going : Filling → Progress
  stopped : Outcome ℕ → Filling → Progress

module _ (pread : ℕ → Pread) (size data_size data_offset index_block_size : ℕ) where
  -- What a valid header does.
  abbrev pub accept : ℕ → DiskControl → Filling → Filling
  accept i dc st = record st {
    offset = st.offset + hdr_size;
    removed = if is_removed dc then st.removed + 1 else st.removed;
    removed_size =
        if is_removed dc then (st.removed_size + dc.disk_size) % 2 ^ 64 else st.removed_size;
    filter = if is_removed dc then st.filter else bloom_set st.filter dc.key;
    dc = dc;
    start_key = if i == 0 then dc.key else st.start_key;
  }

  -- The inner loop, with `left` records of the block to go: the record `i` is next.
  unfoldable pub fill_block : ℕ → ℕ → Filling → Progress
  unfolding check_record bloom_set
  fill_block zero i st = going st
  fill_block (suc left) i st = elim (ltb st.offset size) [
    | false ↦ going st
    | true ↦ elim (pread st.offset) [
      | failed n ↦ stopped (err (errno n)) st
      | short n ↦ stopped (ok n) st
      | full dc ↦ elim (check_record data_size data_offset dc) [
        | ok u ↦ fill_block left (i + 1) (accept i dc st)
        | err e ↦
            let seen : Filling = record st {
              err_count = st.err_count + 1;
              corrupted = st.corrupted + 1;
              dc = dc;
            } in
            elim (ltb corrupt_max st.err_count || (i == 0) || (i == index_block_size - 1)) [
              | true ↦ stopped (err e) seen
              | false ↦ fill_block left (i + 1) (record seen { offset = st.offset + hdr_size })
            ]
      ]
    ]
  ]

  -- The outer loop, on fuel: the blocks that it fills from here on.
  unfoldable pub fill_blocks : ℕ → Filling → Option (Progress × List IndexBlock)
  unfolding fill_block
  fill_blocks zero st = none
  fill_blocks (suc fuel) st = elim (ltb st.offset size) [
    | false ↦ some (going st, [])
    | true ↦ elim (fill_block index_block_size 0 st) [
      | stopped res st' ↦ some (stopped res st', [])
      | going st' ↦ elim (fill_blocks fuel st') [
        | none ↦ none
        | some (p, blocks) ↦
            let block : IndexBlock = record {
              start_key = st'.start_key;
              end_key = st'.dc.key;
              start_offset = st.offset;
              end_offset = st'.offset;
            } in
            some (p, block ∷ blocks)
      ]
    ]
  ]
