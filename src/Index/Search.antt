-- ===== src/Index/Search.antt =====
-- library/index.c: the search of a key in a sorted index, `eblob_index_blocks_search_nolock` and
-- `eblob_find_on_disk`.
--
-- `bsearch` of the C library is a parameter, `Bsearch`. What `__eblob_read_ll` returns for a range
-- of the sorted index is a function of the offset and the size, and gives the headers there; a read
-- that fails is taken to leave the buffer as it was. The lock of the blocks, log lines and the
-- counters of `struct eblob_disk_search_stat`, which are only logged, are not modelled.
use Prim.Native.Nat.Ordering.{lt, eq, gt}
use eblob.Base.{
  ℕ, zero, suc, ◌+◌, ◌-◌, ◌*◌, ◌/◌, ◌%◌, ◌≤◌, ◌<◌, Ordering, Bool, true, false, if◌then◌else◌, not,
  ◌&&◌, ◌||◌, ltb, leb, ◌==◌, min, Option, none, some, List, [], ◌∷◌, get_elem?, Outcome, ok, err,
  Errno, enoent, enomem, efault, assertion, ◌≡◌,
}
use eblob.Key.{Key}
use eblob.Record.{DiskControl, hdr_size}
use eblob.Bloom.{BloomFilter, bloom_get}
use eblob.Index.{IndexBlock, is_removed, key_range_cmp, disk_control_sort}
pub mod Windows
pub mod Forward
pub mod Keys
pub mod Ordered
pub mod Ahead
pub mod Backward
pub mod Behind
pub mod Around
pub mod Block
pub mod Found

abbrev pub rank : Ordering → ℕ
rank lt = 0
rank eq = 1
rank gt = 2

-- An array as `bsearch` wants it: all elements that the key is greater than, then all that it is
-- equal to, then all that it is less than.
abbrev pub IsPartitioned : {E : Type 0} → (E → Ordering) → List E → Type 0
IsPartitioned {E} cmp xs =
    (i j : ℕ) (x y : E)
    → i ≤ j
    → get_elem? xs i ≡ some x
    → get_elem? xs j ≡ some y
    → rank (cmp y) ≤ rank (cmp x)

-- `bsearch` of <stdlib.h>, by the comparison of the key with an element: the place of an element
-- that is equal to the key, if there is one. Which one of several it is, is not said.
pub record Bsearch : Type 1 where
  pub search_in : (E : Type 0) → (E → Ordering) → List E → Option ℕ
  pub search_in-eq :
      (E : Type 0) (cmp : E → Ordering) (xs : List E)
      → IsPartitioned cmp xs
      → (i : ℕ) → search_in E cmp xs ≡ some i
      → (x : E) × (get_elem? xs i ≡ some x) × (cmp x ≡ eq)
  pub search_in-none :
      (E : Type 0) (cmp : E → Ordering) (xs : List E)
      → IsPartitioned cmp xs
      → search_in E cmp xs ≡ none
      → (i : ℕ) (x : E) → get_elem? xs i ≡ some x
      → cmp x ≡ eq
      → ⊥

-- The fields of `struct eblob_base_ctl` that the search reads; the blocks are an array.
pub record Sorted : Type 0 where
  pub sort_size : ℕ
  pub filter : BloomFilter
  pub index_blocks : List IndexBlock

-- `eblob_index_blocks_search_nolock_bsearch_nobloom`
unfoldable pub blocks_search_nobloom : Bsearch → Sorted → Key → Option IndexBlock
unfolding key_range_cmp
blocks_search_nobloom bs bctl key =
    elim (bs.search_in IndexBlock (key_range_cmp key) bctl.index_blocks) [
      | none ↦ none
      | some i ↦ get_elem? bctl.index_blocks i
    ]

-- `eblob_index_blocks_search_nolock`. Only a result of 0 of `eblob_bloom_get` ends it; an error, as
-- of a base that has no filter, does not.
unfoldable pub blocks_search : Bsearch → Sorted → Key → Option IndexBlock
unfolding blocks_search_nobloom bloom_get
blocks_search bs bctl key = elim (bloom_get bctl.filter key) [
  | ok present ↦ if not present then none else blocks_search_nobloom bs bctl key
  | err e ↦ blocks_search_nobloom bs bctl key
]

-- `eblob_find_non_removed_callback`
abbrev pub find_non_removed : DiskControl → Bool
find_non_removed sorted = not (is_removed sorted)

-- What a read of `__eblob_read_ll` leaves in the buffer: the headers read, and behind them what was
-- there before.
abbrev pub refill : List DiskControl → List DiskControl → List DiskControl
refill [] old = old
refill (x ∷ new) [] = x ∷ new
refill (x ∷ new) (o ∷ old) = x ∷ refill new old

-- The variables of the loops of `eblob_find_on_disk`. `sorted` is the place in the buffer.
pub record Search : Type 0 where
  pub hdr_block : List DiskControl
  pub hdr_block_offset : ℕ
  pub hdr_block_size : ℕ
  pub num : ℕ
  pub sorted : ℕ
  pub error : Errno

-- How a loop ends: by `found`, without it, or not on its fuel.
pub data Scan : Type 0 where
  hit : Search → Scan
  miss : Search → Scan
  unfinished : Scan

-- A step to the next block of headers: it is read, or the loop is left.
pub data Move : Type 0 where
  moved : Search → Move
  ended : Search → Move

module _ (read : ℕ → ℕ → Outcome (List DiskControl)) (sort_size index_block_size : ℕ) where
  -- The headers from an offset on, as many as a block has at most.
  abbrev pub headers_from : ℕ → ℕ
  headers_from offset = min ((sort_size - offset) / hdr_size) index_block_size

  -- `__eblob_read_ll` into the buffer.
  unfoldable pub read_block : Search → Move
  read_block s = elim (read s.hdr_block_offset s.hdr_block_size) [
    | err e ↦ ended (record s { error = e })
    | ok got ↦ moved (record s { hdr_block = refill got s.hdr_block })
  ]

  -- `++sorted > end`: the block behind this one.
  unfoldable pub next_block : Search → Move
  unfolding read_block
  next_block s =
      let offset = s.hdr_block_offset + s.hdr_block_size in
      let num = headers_from offset in
      if leb sort_size offset
      then ended (record s { hdr_block_offset = offset })
      else read_block (record s {
        hdr_block_offset = offset;
        num = num;
        hdr_block_size = num * hdr_size;
        sorted = 0;
      })

  -- The block in front of this one.
  unfoldable pub previous_block : Search → Move
  unfolding read_block
  previous_block s =
      if s.hdr_block_offset == 0
      then ended s
      else if ltb s.hdr_block_offset s.hdr_block_size
      then read_block (record s {
        hdr_block_size = s.hdr_block_offset;
        num = s.hdr_block_offset / hdr_size;
        hdr_block_offset = 0;
      })
      else read_block (record s { hdr_block_offset = s.hdr_block_offset - s.hdr_block_size })

  module _ (callback : DiskControl → Bool) (dc : DiskControl) where
    -- The forward search. A read outside of the buffer is -EFAULT.
    unfoldable pub forward : ℕ → Search → Scan
    unfolding disk_control_sort next_block
    forward zero s = unfinished
    forward (suc fuel) s = elim (get_elem? s.hdr_block s.sorted) [
      | none ↦ miss (record s { error = efault })
      | some x ↦ elim (disk_control_sort x dc) [
        | lt ↦ miss s
        | gt ↦ miss s
        | eq ↦ elim (callback x) [
          | true ↦ hit s
          | false ↦ elim (ltb (s.num - 1) (s.sorted + 1)) [
            | false ↦ forward fuel (record s { sorted = s.sorted + 1 })
            | true ↦ elim (next_block s) [ ended s' ↦ miss s' | moved s' ↦ forward fuel s' ]
          ]
        ]
      ]
    ]

    -- The backward search, with the number of the headers of the buffer that are still to come:
    -- the pointer is in front of the buffer where it is 0. `saved` and `orig` are
    -- `saved_hdr_block_offset` and the place of `sorted_orig`.
    unfoldable pub backward : ℕ → ℕ → ℕ → Search → ℕ → Scan
    unfolding disk_control_sort previous_block
    backward saved orig zero s left = unfinished
    backward saved orig (suc fuel) s (suc i) = elim (get_elem? s.hdr_block i) [
      | none ↦ miss (record s { error = efault })
      | some x ↦ elim (disk_control_sort x dc) [
        | lt ↦ miss s
        | gt ↦ miss s
        | eq ↦ elim (callback x) [
          | true ↦ hit (record s { sorted = i })
          | false ↦ backward saved orig fuel s i
        ]
      ]
    ]
    backward saved orig (suc fuel) s zero = elim (previous_block s) [
      | ended s' ↦ miss s'
      | moved s' ↦
          backward saved orig fuel s' (if s'.hdr_block_offset == saved then orig else s'.num)
    ]

    -- `if (found)`: the header is copied to `*dc`, and its offset to `*hdr_offset`.
    abbrev pub report : Search → Option (Outcome (DiskControl × ℕ))
    report s = elim (get_elem? s.hdr_block s.sorted) [
      | none ↦ some (err efault)
      | some x ↦ some (ok (x, s.hdr_block_offset + s.sorted * hdr_size))
    ]

    -- The two loops, from what `bsearch` found on.
    unfoldable pub search_around : ℕ → ℕ → ℕ → Search → Option (Outcome (DiskControl × ℕ))
    unfolding forward backward
    search_around saved orig fuel s = elim (forward fuel s) [
      | unfinished ↦ none
      | hit found ↦ report found
      | miss s' ↦
          elim (backward saved orig fuel
            (record s' { hdr_block_offset = saved + s'.hdr_block_size }) 0) [
              | unfinished ↦ none
              | hit found ↦ report found
              | miss s'' ↦ some (err s''.error)
            ]
    ]

-- The fuel of either loop: each round passes a header, or reads the block of the next one.
abbrev pub rounds_for : ℕ → ℕ
rounds_for sort_size = 2 * (sort_size / hdr_size) + 4

-- What `eblob_find_on_disk` does with the block found, which starts at `start`.
unfoldable pub search_block :
    Bsearch
    → (ℕ → ℕ → Outcome (List DiskControl))
    → ℕ
    → Bool
    → ℕ
    → DiskControl
    → (DiskControl → Bool)
    → ℕ
    → Option (Outcome (DiskControl × ℕ))
unfolding search_around read_block disk_control_sort
search_block bs read index_block_size malloc sort_size dc callback start =
    let num = headers_from read sort_size index_block_size start in
    if ((sort_size - start) / hdr_size == 0) || not ((sort_size - start) % hdr_size == 0)
    then some (err assertion)
    else if not malloc
    then some (err enomem)
    else elim (read_block read sort_size index_block_size (record {
      hdr_block = [];
      hdr_block_offset = start;
      hdr_block_size = num * hdr_size;
      num = num;
      sorted = 0;
      error = enoent;
    })) [
      | ended s ↦ some (err s.error)
      | moved s ↦ elim (bs.search_in DiskControl (disk_control_sort dc) s.hdr_block) [
        | none ↦ some (err enoent)
        | some orig ↦
            search_around read sort_size index_block_size callback dc start orig
              (rounds_for sort_size) (record s { sorted = orig })
      ]
    ]

-- `eblob_find_on_disk`: what it returns, with the header that it copies to `*dc` and `*hdr_offset`.
-- `malloc` tells whether the allocation succeeds; `none` is for a loop that does not end on its fuel.
unfoldable pub find_on_disk :
    Bsearch
    → (ℕ → ℕ → Outcome (List DiskControl))
    → ℕ
    → Bool
    → Sorted
    → DiskControl
    → (DiskControl → Bool)
    → Option (Outcome (DiskControl × ℕ))
unfolding blocks_search search_block
find_on_disk bs read index_block_size malloc bctl dc callback =
    elim (blocks_search bs bctl dc.key) [
      | none ↦ some (err enoent)
      | some block ↦
          search_block bs read index_block_size malloc bctl.sort_size dc callback block.start_offset
    ]
