-- ===== src/Tests/Ranges.antt =====
-- Range requests at the index of three headers, and at a cache of two keys.
use eblob.Base.{
  ℕ, ◌*◌, ◌/◌, ◌+◌, ◌<◌, Bool, false, Option, some, Outcome, ok, [], ◌≡◌, refl, ap, arith,
}
use eblob.Key.{id_cmp, memcmp}
use eblob.Record.{DiskControl, RamControl}
use eblob.Rbtree.{leaf, node}
use eblob.Hash.{Hash}
use eblob.Index.Search.Keys.{Le}
use eblob.Range.{RangeRequest, RangeBase, bsearch_fuzzy, read_range_in_memory}
use eblob.Range.Fuzzy.{IsStart, bsearch_fuzzy-IsStart}
use eblob.Tests.Samples.{key_of}
use eblob.Tests.Searches.{headers, headers-IsOrdered}

abbrev read_one : ℕ → Outcome DiskControl
read_one off = ok (headers (off / 96))

read_one_at : (t : ℕ) → t < 3 → read_one (t * 96) ≡ ok (headers t)
read_one_at t h = let e : t * 96 / 96 ≡ t = omega arith in ap (λ k. ok (headers k)) e

eight-le-nine : Le (key_of 8) (key_of 9)
unfolding id_cmp memcmp
eight-le-nine = λ e. cc

bsearch_fuzzy-IsStart_example :
    (r : Option ℕ) × (bsearch_fuzzy read_one 288 (key_of 8) (key_of 9) ≡ some r)
    × IsStart headers 3 (key_of 8) (key_of 9) r
bsearch_fuzzy-IsStart_example =
    bsearch_fuzzy-IsStart headers 3 (key_of 8) (key_of 9) read_one read_one_at headers-IsOrdered
      eight-le-nine

found_nine : bsearch_fuzzy read_one 288 (key_of 8) (key_of 9) ≡ some (some 2)
unfolding bsearch_fuzzy id_cmp memcmp
found_nine = refl

-- A cache of the keys 7, 8 and 9: the larger ones stand to the left.
abbrev rctl_in : ℕ → RamControl
rctl_in base = record { data_offset = 0; index_offset = 0; size = 10; bctl = some base }

abbrev three_keys : Hash RamControl
three_keys = record {
  root =
      node (node leaf (record { key = key_of 9; bytes = rctl_in 1 }) leaf)
        (record { key = key_of 8; bytes = rctl_in 1 })
        (node leaf (record { key = key_of 7; bytes = rctl_in 1 }) leaf);
  dsize = 32;
}

-- The callback counts the records in `current_pos`.
abbrev count_it : RangeRequest → Outcome Bool × RangeRequest
count_it req = (ok false, record req { current_pos = req.current_pos + 1 })

abbrev request : ℕ → RangeRequest
request limit = record {
  start = (key_of 8).id;
  end = (key_of 9).id;
  requested_limit_start = 0;
  requested_limit_num = limit;
  current_pos = 0;
  record_key = [];
  record_fd = 0;
  record_offset = 0;
  record_size = 0;
}

abbrev one_base : Option ℕ → RangeBase
one_base b = record { index = 0; data_fd = 3; has_sort = false }

-- The larger of the two keys comes last; a limit of one stops behind the first.
two_in_range :
    read_range_in_memory count_it one_base 0 [] false three_keys (request 5)
    ≡ ok (record (request 5) {
      current_pos = 2;
      record_key = (key_of 9).id;
      record_fd = 3;
      record_offset = 96;
      record_size = 10;
    })
unfolding read_range_in_memory id_cmp memcmp
two_in_range = refl

one_in_limit :
    read_range_in_memory count_it one_base 0 [] false three_keys (request 1)
    ≡ ok (record (request 1) {
      current_pos = 1;
      record_key = (key_of 8).id;
      record_fd = 3;
      record_offset = 96;
      record_size = 10;
    })
unfolding read_range_in_memory id_cmp memcmp
one_in_limit = refl
