-- ===== src/Tests/Generates.antt =====
-- The sort of the index of a base in which the key 7 is removed meanwhile.
use eblob.Base.{ℕ, true, false, Option, none, some, List, [], ◌∷◌, ◌++◌, Outcome, ok}
use eblob.Rbtree.Plain.{plain}
use eblob.Cache.Generate.{Sorting, Answers, generate_sorted_index}
use eblob.Cache.Generate.Generated.{Generated}
use eblob.Tests.Samples.{key_of, sample_disk}
use eblob.Tests.Searches.{linear, no_cache}
use eblob.Tests.Applies.{four_headers, note_mark}

abbrev unsorted : Sorting (List ℕ)
unsorted = record {
  backend = no_cache;
  defrag_generation = 0;
  binlog = record { enabled = false; removed_keys = [] };
  sort_fd = none;
  ctl = record {
    data_size = 424;
    data_offset = 424;
    sort_size = 0;
    filter = record { bloom = none; bloom_size = 0; bloom_func_num = 0 };
    index_blocks = none;
    stat_bloom_size = 0;
    stat_index_blocks_size = 0;
    stat_corrupted = 0;
    stat_removed = 0;
    stat_removed_size = 0;
  };
  sorted_file = [];
  is_renamed = false;
  is_closed = false;
  world = [];
}

abbrev all_well : Answers
all_well = record {
  malloc_file = true;
  malloc_dst_file = true;
  has_sorted = false;
  fd = ok 9;
  index_size = ok 384;
  preallocated = ok tt;
  malloc_index = true;
  headers = ok four_headers;
  written = ok tt;
  synced = ok tt;
  locked = ok tt;
  rewritten = ok tt;
  resynced = ok tt;
  calloc_bloom = true;
  calloc_blocks = true;
}

abbrev seven_is_removed : Sorting (List ℕ) → Sorting (List ℕ)
seven_is_removed st = record st {
  binlog = record st.binlog { removed_keys = st.binlog.removed_keys ++ (key_of 7 ∷ []) };
}

abbrev generated : Option (Outcome ℕ × Sorting (List ℕ))
generated =
    generate_sorted_index sample_disk plain plain plain linear note_mark (λ n. n) 2 8
      (λ cmp dcs. dcs) seven_is_removed false all_well unsorted

-- The state that a call leaves.
abbrev left_by : Option (Outcome ℕ × Sorting (List ℕ)) → Sorting (List ℕ)
left_by none = unsorted
left_by (some (res, st)) = st
