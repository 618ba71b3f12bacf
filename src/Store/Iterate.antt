-- ===== src/Store/Iterate.antt =====
-- library/blob.c: `eblob_check_disk`, which passes the headers of an index to the callback of an
-- iterator.
use eblob.Base.{
  ℕ, ◌+◌, ◌==◌, Bool, true, false, if◌then◌else◌, not, ◌&&◌, ◌||◌, none, some, List, [], ◌∷◌,
  Outcome, ok, err, eagain, ◌≡◌,
}
use eblob.Record.{DiskControl, RamControl, get_index_fd, hdr_size}
use eblob.Index.{check_record, is_removed}
use eblob.Files.Headers.{encode, decode}
use eblob.Store.{
  BaseCtl, Store, Step, pure, ◌>>=◌, ◌>>◌, change_base, pread, pwrite, w64, with_flag, ctl_remove,
}

-- The flags of `struct eblob_iterate_control` that are tested, EBLOB_ITERATE_FLAGS_*.
pub record IterateFlags : Type 0 where
  pub all : Bool
  pub initial_load : Bool
  pub readonly : Bool

-- The offsets of `struct eblob_iterate_local`.
pub record IterateLocal : Type 0 where
  pub index_offset : ℕ
  pub last_valid_offset : ℕ

-- A record that is removed in the data file is marked removed in the index, too.
unfoldable pub mend : IterateFlags → BaseCtl → ℕ → DiskControl → Step DiskControl
unfolding pread pwrite decode encode
mend flags bc index_offset dc =
    let fixed : DiskControl = record dc { flags = with_flag ctl_remove dc.flags } in
    if flags.all && not flags.readonly && not (is_removed dc)
    then (do
      bytes ← pread (some bc.data_fd) dc.position hdr_size
      (if is_removed (decode bytes)
          then pwrite (get_index_fd bc.fds) index_offset (encode fixed) >> pure fixed
          else pure dc))
    else pure dc

-- The counters of removed records while the base is loaded.
abbrev tally : IterateFlags → ℕ → DiskControl → Step (Unit {0})
tally flags c dc =
    if flags.initial_load && is_removed dc
    then change_base c (λ b. record b {
      records_removed = b.records_removed + 1;
      removed_size = w64 (b.removed_size + dc.disk_size);
    })
    else pure tt

-- The end of `eblob_check_disk_one`: the callback, unless the header is not for it.
abbrev pub Callback : Type 0
Callback = DiskControl → RamControl → ℕ → ℕ → Step (Unit {0})

abbrev has_sort : BaseCtl → Bool
has_sort bc = elim bc.fds.sort_fd [ none ↦ false | some fd ↦ true ]

unfoldable pub deliver : Callback → IterateFlags → ℕ → BaseCtl → ℕ → DiskControl → Step (Unit {0})
deliver iterator flags c bc index_offset dc =
    if is_removed dc || (has_sort bc && not flags.all)
    then pure tt
    else iterator dc
        (record {
          data_offset = dc.position;
          index_offset = index_offset;
          size = dc.data_size;
          bctl = some c;
        })
        bc.data_fd (w64 (dc.position + hdr_size))

-- `eblob_check_disk_one`, with the offsets that it leaves. `data_size` is that of the base, which
-- these steps do not change.
unfoldable pub check_disk_one :
    Callback
    → IterateFlags
    → ℕ
    → ℕ
    → IterateLocal
    → DiskControl
    → Step (Outcome (Unit {0}) × IterateLocal)
unfolding check_record mend deliver
check_disk_one iterator flags c data_size loc dc s =
    let bc = s.base c in
    let seen : IterateLocal = record loc { last_valid_offset = loc.index_offset } in
    if data_size == 0
    then (ok (err eagain, loc), s)
    else elim (check_record data_size bc.data_offset dc) [
      | err e ↦ (ok (err e, loc), s)
      | ok u ↦
          let (r, s') =
            (mend flags bc loc.index_offset dc >>= λ dc'.
            tally flags c dc' >> deliver iterator flags c bc loc.index_offset dc')
              s in
          (ok (r, seen), s')
    ]

-- The test of `err` between two headers.
abbrev go_on :
    (IterateLocal → Step (Outcome (Unit {0}) × IterateLocal))
    → Outcome (Unit {0}) × IterateLocal
    → Step (Outcome (Unit {0}) × IterateLocal)
go_on rest (err e, loc) = pure (err e, loc)
go_on rest (ok u, loc) = rest (record loc { index_offset = loc.index_offset + hdr_size })

-- `eblob_check_disk`: it stops at the first header that fails.
unfoldable pub check_disk :
    Callback
    → IterateFlags
    → ℕ
    → ℕ
    → IterateLocal
    → List DiskControl
    → Step (Outcome (Unit {0}) × IterateLocal)
unfolding check_disk_one
check_disk iterator flags c data_size loc [] = pure (ok tt, loc)
check_disk iterator flags c data_size loc (dc ∷ dcs) =
    check_disk_one iterator flags c data_size loc dc
    >>= go_on (λ k. check_disk iterator flags c data_size k dcs)

-- A header that passes the check of records of a base, and is not removed.
abbrev pub IsValid : ℕ → DiskControl → Type 0
IsValid data_size dc =
    (is_removed dc ≡ false) × ((data_offset : ℕ) × (check_record data_size data_offset dc ≡ ok tt))
