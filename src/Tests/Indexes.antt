-- ===== src/Tests/Indexes.antt =====
-- `eblob_index_blocks_fill` at a concrete index of three headers.
use eblob.Base.{ℕ, ◌==◌, if◌then◌else◌, none}
use eblob.Record.{Pread, full, short}
use eblob.Index.{IndexCtl, bloom_size}
use eblob.Tests.Samples.{header_of}

abbrev three_headers : ℕ → Pread
three_headers offset =
    if offset == 0
    then full (header_of 3)
    else if offset == 96
    then full (header_of 7)
    else if offset == 192
    then full (header_of 9)
    else short 0

abbrev unfilled : IndexCtl
unfilled = record {
  data_size = 318;
  data_offset = 318;
  sort_size = 288;
  filter = record { bloom = none; bloom_size = 0; bloom_func_num = 0 };
  index_blocks = none;
  stat_bloom_size = 0;
  stat_index_blocks_size = 0;
  stat_corrupted = 0;
  stat_removed = 0;
  stat_removed_size = 0;
}
