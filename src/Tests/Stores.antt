-- ===== src/Tests/Stores.antt =====
-- Requests of library/blob.c on a store of one base.
use eblob.Base.{
  ℕ, ◌<◌, ◌+◌, ◌-◌, true, false, if◌then◌else◌, ◌==◌, Option, none, some, List, [], ◌∷◌, length,
  All, Outcome, ok, err, enoent, ok_inj, Bool-cases, ap, sym, ◌≡◌, refl, inl, inr, arith,
}
use eblob.Rbtree.{Tree, leaf}
use eblob.Cache.{Backend}
use eblob.Defrag.{not_started}
use eblob.Files.{File, failed}
use eblob.Store.{w64, KeyCache, Store, BaseCtl}
use eblob.Record.{hdr_size}
use eblob.Store.Control.{WriteControl, Iovec, zero_wc, iovec_get_bounds}
use eblob.Store.Writes.{writev_raw, write_commit_footer}
use eblob.Store.Prepare.{dont_copy, place, reserve_fill, reserve_in}
use eblob.Store.Commands.{overwrite, writev_return, remove}
use eblob.Store.Reads.{csum_ok, read_data}
use eblob.Store.Confined.{overwrite-outside}
use eblob.Store.Touched.{writev_raw-outside}
use eblob.Store.Sums.{IsDigest, csum_ok-write_commit_footer}
use eblob.Store.Vectors.{put_all, AllInside, writev_raw-put_all}
use eblob.Store.Reserved.{answer_of, reserve_in-rolled_back}
use eblob.Store.Advanced.{space, reserve_in-advanced}
use eblob.Store.Extents.{Covers, total, iovec_get_bounds_lem}
use eblob.Tests.Samples.{key_of, fill}

-- A cache of one key at most: it is there while the counter is not 0.
abbrev one_key : KeyCache
one_key = record {
  lookup = λ c key.
      if c.cached == 0
      then err enoent
      else ok
          (record { data_offset = 0; index_offset = 0; size = c.cached - 1; bctl = some 1 }, false);
  insert = λ c key ctl. (ok tt, record c { cached = ctl.size + 1 });
  remove = λ c key. (ok tt, record c { cached = 0 });
}

abbrev pub no_keys : Backend
no_keys = record {
  use_l2hash = false;
  hash = record { root = leaf; dsize = 32 };
  l2hash = record { root = leaf; collisions = leaf };
  cached = 0;
}

abbrev pub first_base : BaseCtl
first_base = record {
  index = 0;
  data_fd = 10;
  fds = record { index_fd = some 11; sort_fd = none };
  data_offset = 0;
  index_size = 0;
  binlog = record { enabled = false; removed_keys = [] };
  records_total = 0;
  base_size = 0;
  records_removed = 0;
  removed_size = 0;
}

abbrev pub empty_store : Store
empty_store = record {
  cfg = record {
    blob_size = 1000000;
    records_in_blob = 1000;
    blob_size_limit = 0;
    no_footer = false;
    no_free_space_check = true;
    reserve_10_percents = false;
  };
  bases = 1 ∷ [];
  base = λ i. first_base;
  files = λ fd. record { size = 0; byte = λ i. 0 };
  cache = no_keys;
  scheduler = record {
    disable_threads = false;
    auto_datasort = true;
    auto_indexsort = false;
    want_defrag = not_started;
  };
  generation = 0;
  avail = 1000000000;
  total = 2000000000;
  summary_size = 0;
  answers = [];
  allocs = [];
  opened = [];
}

other_file : Path (Option ℕ) (some 11) (some 10) → ⊥
other_file e = cc

-- A digest: the first byte of the range, 64 times.
abbrev first_byte : File → ℕ → ℕ → Outcome (List ℕ)
first_byte f off n = if n == 0 then ok (fill 64 0) else ok (fill 64 (f.byte off))

abbrev three_bytes : List Iovec
three_bytes = record { bytes = 5 ∷ 6 ∷ 7 ∷ []; offset = 0 } ∷ []

-- A record is written, read back, and removed.
abbrev written : Store
written = (writev_return one_key first_byte (key_of 7) three_bytes 0 empty_store).1

written_reads : (read_data first_byte one_key (key_of 7) 0 0 true written).0 ≡ ok (5 ∷ 6 ∷ 7 ∷ [])
unfolding writev_return read_data
written_reads = refl

first_byte-IsDigest : IsDigest first_byte
first_byte-IsDigest = record {
  length = λ f off n csum h. elim (Bool-cases (n == 0)) [
    | inl e ↦ ap length (sym (ok_inj (rw e at h)))
    | inr e ↦ ap length (sym (ok_inj (rw e at h)))
  ];
  local_ = λ f g off n csum h longer same. elim (Bool-cases (n == 0)) [
    | inl e ↦ rw e (rw e at h)
    | inr e ↦
        let positive : off < off + n = ground (arith, e) in
        rw (e, same off (omega arith) positive) (rw e at h)
  ];
}

-- The record of `written`.
abbrev found_record : WriteControl
found_record = record zero_wc {
  size = 3;
  data_fd = 10;
  index_fd = some 11;
  data_offset = 96;
  total_size = 171;
  total_data_size = 3;
  bctl = 1;
}

overwrite-outside_example :
    ((overwrite one_key first_byte (key_of 7) three_bytes zero_wc found_record written).1.files
        10).byte
      200
    ≡ (written.files 10).byte 200
overwrite-outside_example =
    overwrite-outside 10 200 one_key first_byte first_byte-IsDigest.length (key_of 7) three_bytes
      zero_wc found_record written refl (record { header = omega arith; fits = omega arith })
      (omega arith, tt)
      (record { in_data = inr (inr (omega arith)); in_index = inl (λ e. other_file e) })

csum_ok-write_commit_footer_example :
    (csum_ok first_byte found_record (write_commit_footer first_byte found_record empty_store).1).0
    ≡ ok tt
unfolding write_commit_footer
csum_ok-write_commit_footer_example =
    csum_ok-write_commit_footer first_byte first_byte-IsDigest found_record
      (record { room = omega arith; fits = omega arith; committed = refl; summed = refl })
      empty_store refl refl refl

writev_raw-put_all_example :
    ((writev_raw found_record three_bytes empty_store).1.files 10
      ≡ put_all found_record true three_bytes (empty_store.files 10))
    × AllInside found_record true three_bytes
unfolding writev_raw
writev_raw-put_all_example =
    writev_raw-put_all found_record found_record three_bytes empty_store refl

-- A store whose disk fails at once.
abbrev failing_store : Store
failing_store = record empty_store { answers = failed 5 ∷ [] }

reserve_in-rolled_back_example :
    ((reserve_in (key_of 7) 1 found_record 0 dont_copy 0 none failing_store).1.base
      ≡ failing_store.base)
    × ((reserve_in (key_of 7) 1 found_record 0 dont_copy 0 none failing_store).0
        ≡ answer_of
            (reserve_fill
              (key_of 7)
              1
              (place failing_store.cfg 1 first_base 0 found_record)
              dont_copy
              0
              none
              failing_store).0)
unfolding reserve_fill place
reserve_in-rolled_back_example =
    reserve_in-rolled_back (key_of 7) 1 found_record 0 dont_copy 0 none failing_store (omega arith)
      (omega arith) refl

-- The cache of library/hash.c that holds `key_of 7`.
abbrev seven_cached : Store
seven_cached = record written {
  cache = record {
    use_l2hash = false;
    hash = record {
      root =
          Tree.node leaf
            (record {
              key = key_of 7;
              bytes = record { data_offset = 0; index_offset = 0; size = 3; bctl = some 1 };
            })
            leaf;
      dsize = 32;
    };
    l2hash = record { root = leaf; collisions = leaf };
    cached = 128;
  };
}

iovec_get_bounds_lem_example :
    All (Covers (iovec_get_bounds three_bytes)) three_bytes
    × ((iovec_get_bounds three_bytes).contiguous ≡ true
        → (iovec_get_bounds three_bytes).max ≡ total three_bytes)
iovec_get_bounds_lem_example = iovec_get_bounds_lem three_bytes (omega arith, tt)

writev_raw-outside_example :
    ((writev_raw found_record three_bytes written).1.files 10).byte 95 ≡ (written.files 10).byte 95
writev_raw-outside_example =
    writev_raw-outside found_record three_bytes written 10 95 (inr (inl (omega arith)))
      (omega arith, tt)

reserve_in-advanced_example :
    space 1 (reserve_in (key_of 7) 1 found_record 0 dont_copy 0 none empty_store).1 ≡ (
      if 1 == 1
      then (
        w64 (0 + (place empty_store.cfg 1 first_base 0 found_record).total_size),
        w64 (0 + hdr_size),
      )
      else space 1 empty_store)
unfolding reserve_fill place
reserve_in-advanced_example =
    reserve_in-advanced (key_of 7) 1 found_record 0 dont_copy 0 none empty_store refl 1
