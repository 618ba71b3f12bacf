-- ===== src/Store/Prepare.antt =====
-- library/blob.c: `eblob_write_prepare_disk_ll`, which reserves the space of a record in the last
-- base, and `eblob_write_prepare_disk`, which calls it under the lock.
--
-- The assertion that the last base is not sorted is taken to hold.
use Prim.Native.Nat.Ordering.{lt, eq, gt}
use eblob.Base.{
  ℕ, ◌+◌, ◌*◌, ◌/◌, Bool, true, false, if◌then◌else◌, not, ◌&&◌, ◌||◌, ltb, leb, ◌==◌, Option, none,
  some, List, [], ◌∷◌, Outcome, ok, err, enoent, eagain, assertion,
}
use eblob.Key.{Key, memcmp}
use eblob.Record.{DiskControl, RamControl, hdr_size}
use eblob.Files.Headers.{decode}
use eblob.Defrag.Requests.{force_sort}
use eblob.Store.{
  Config, KeyCache, Step, pure, raise, gets, ◌>>=◌, ◌>>◌, raise_if, change_base, pread, preallocate,
  copy, add_new_base, w64, sub64, has, without_flag, ctl_append, BaseCtl,
}
use eblob.Store.Control.{WriteControl, calculate_size, check_free_space}
use eblob.Store.Writes.{commit_disk, mark_entry_removed}

abbrev is_open : Option ℕ → Bool
is_open none = false
is_open (some fd) = true

-- `enum eblob_copy_flavour`
pub data CopyFlavour : Type 0 where
  dont_copy copy_record : CopyFlavour

abbrev pub copies : CopyFlavour → Bool
copies dont_copy = false
copies copy_record = true

-- `list_last_entry`
abbrev last_of : ℕ → List ℕ → ℕ
last_of c [] = c
last_of c (d ∷ ds) = last_of d ds

abbrev last_base : Step ℕ
last_base s = elim s.bases [ [] ↦ (err assertion, s) | c ∷ cs ↦ (ok (last_of c cs), s) ]

-- A base that takes no more records.
unfoldable pub is_full : Config → BaseCtl → Bool
is_full cfg ctl =
    leb cfg.blob_size ctl.data_offset
    || is_open ctl.fds.sort_fd
    || leb cfg.records_in_blob (ctl.index_size / hdr_size)

-- `datasort_force_sort`; what it returns is not looked at.
abbrev request_sort : Step (Unit {0})
request_sort s = (
  ok tt,
  record s {
    scheduler = elim (force_sort (some s.scheduler)).1 [ some b ↦ b | none ↦ s.scheduler ];
  },
)

-- The base that a record goes to: the last one, or a new one.
unfoldable pub open_base : Step ℕ
unfolding add_new_base is_full force_sort
open_base = do
  bases ← gets (λ s. s.bases)
  elim bases [ [] ↦ add_new_base | c ∷ cs ↦ pure tt ]
  c ← last_base
  ctl ← gets (λ s. s.base c)
  cfg ← gets (λ s. s.cfg)
  (if is_full cfg ctl
      then (do add_new_base; (if is_open ctl.fds.sort_fd then pure tt else request_sort); last_base)
      else pure c)

-- What an append takes from the old record: the offset and, where there is none, more space.
unfoldable pub account_old : Option RamControl → WriteControl → ℕ → Step (WriteControl × ℕ)
account_old none wc prepare_disk_size =
    if has ctl_append wc.flags
    then pure (
      record wc { flags = without_flag ctl_append wc.flags },
      w64 (prepare_disk_size + wc.size * 4),
    )
    else pure (wc, prepare_disk_size)
account_old (some old) wc prepare_disk_size = elim old.bctl [
  | none ↦ raise assertion
  | some c ↦ do
    ctl ← gets (λ s. s.base c)
    raise_if (not (is_open ctl.fds.index_fd)) eagain
    (if has ctl_append wc.flags
        then pure (record wc { offset = w64 (wc.offset + old.size) }, prepare_disk_size)
        else pure (wc, prepare_disk_size))
]

-- Where the record goes in the base `c`, and how much space it takes.
unfoldable pub place : Config → ℕ → BaseCtl → ℕ → WriteControl → WriteControl
unfolding calculate_size
place cfg c ctl prepare_disk_size wc =
    let data_size = w64 (wc.offset + wc.size) in
    let size =
      calculate_size cfg 0
        (if ltb data_size prepare_disk_size then prepare_disk_size else data_size) in
    record wc {
      data_fd = ctl.data_fd;
      index_fd = ctl.fds.index_fd;
      index = ctl.index;
      on_disk = false;
      ctl_index_offset = ctl.index_size;
      ctl_data_offset = ctl.data_offset;
      data_offset = w64 (ctl.data_offset + hdr_size + wc.offset);
      total_data_size = data_size;
      bctl = c;
      total_size = if has ctl_append wc.flags then w64 (size * 2) else size;
    }

-- `ctl->data_offset` and `ctl->index_size` move past the record, and back.
unfoldable pub advance : ℕ → BaseCtl → BaseCtl
advance total_size ctl = record ctl {
  data_offset = w64 (ctl.data_offset + total_size);
  index_size = w64 (ctl.index_size + hdr_size);
}

unfoldable pub rollback : ℕ → BaseCtl → BaseCtl
rollback total_size ctl = record ctl {
  data_offset = sub64 ctl.data_offset total_size;
  index_size = sub64 ctl.index_size hdr_size;
}

abbrev pub same_key : Key → Key → Bool
same_key a b = elim (memcmp a.id b.id) [ eq ↦ true | lt ↦ false | gt ↦ false ]

-- The data of the old record moves, if its header on disk has the key; false where it has not.
unfoldable pub copy_data_of :
    Key → WriteControl → ℕ → RamControl → BaseCtl → DiskControl → Step (Bool × WriteControl)
unfolding memcmp copy
copy_data_of key wc copy_offset old ctl old_dc =
    if not (same_key old_dc.key key)
    then pure (false, wc)
    else copy ctl.data_fd (w64 (old.data_offset + hdr_size)) wc.data_fd
        (w64 (wc.ctl_data_offset + hdr_size + copy_offset)) (sub64 old_dc.disk_size hdr_size)
      >> pure (true, wc)

-- The copy of the old record, at `copy_offset` in the new one.
unfoldable pub copy_old : Key → WriteControl → ℕ → RamControl → Step (Bool × WriteControl)
unfolding pread decode copy_data_of
copy_old key wc copy_offset old = elim old.bctl [
  | none ↦ raise assertion
  | some c ↦
      let append = has ctl_append wc.flags && not (copy_offset == 0) in
      let wc' : WriteControl = record wc {
        data_offset = if append then w64 (wc.data_offset + copy_offset) else wc.data_offset;
        total_data_size =
            if append then w64 (wc.total_data_size + copy_offset) else wc.total_data_size;
      } in
      do
        ctl ← gets (λ s. s.base c)
        bytes ← pread (some ctl.data_fd) old.data_offset hdr_size
        copy_data_of key wc' copy_offset old ctl (decode bytes)
]

-- The space of a record that is not written to its end at once.
unfoldable pub extend : CopyFlavour → WriteControl → Config → Step (Unit {0})
unfolding preallocate
extend flavour wc cfg =
    if cfg.no_footer || copies flavour
    then preallocate wc.data_fd wc.ctl_data_offset wc.total_size
    else pure tt

unfoldable pub carry :
    Key → WriteControl → CopyFlavour → ℕ → Option RamControl → Step (Bool × WriteControl)
unfolding copy_old
carry key wc flavour copy_offset none = pure (true, wc)
carry key wc flavour copy_offset (some old) =
    if copies flavour then copy_old key wc copy_offset old else pure (true, wc)

-- From the reservation to the copy: all that is rolled back when it fails. The answer false stands
-- for the jump to the rollback with no error set.
unfoldable pub fill_reserved :
    Key → WriteControl → CopyFlavour → ℕ → Option RamControl → Step (Bool × WriteControl)
unfolding commit_disk extend carry
fill_reserved key wc flavour copy_offset old = do
  wc' ← commit_disk key wc false
  cfg ← gets (λ s. s.cfg)
  extend flavour wc' cfg
  carry key wc' flavour copy_offset old

-- The counters of a base and of all bases.
abbrev pub account : ℕ → ℕ → Step (Unit {0})
account c size s = (
  ok tt,
  record s {
    base = λ i.
        if i == c
        then record (s.base c) {
          base_size = w64 ((s.base c).base_size + size);
          records_total = (s.base c).records_total + 1;
        }
        else s.base i;
    summary_size = w64 (s.summary_size + size);
  },
)

-- The old record is marked, and the counters follow; an error here is not rolled back.
unfoldable pub retire_old : Key → WriteControl → Option RamControl → Step WriteControl
unfolding mark_entry_removed
retire_old key wc old = do
  elim old [ none ↦ pure tt | some o ↦ mark_entry_removed key o ]
  account wc.bctl (wc.total_size + hdr_size)
  pure wc

-- What follows the reservation, by how `fill_reserved` ended.
unfoldable pub finish_reserved :
    Key → ℕ → WriteControl → Option RamControl → Outcome (Bool × WriteControl) → Step WriteControl
unfolding rollback retire_old
finish_reserved key c wc old (err e) = change_base c (rollback wc.total_size) >> raise e
finish_reserved key c wc old (ok (false, wc')) = change_base c (rollback wc.total_size) >> pure wc'
finish_reserved key c wc old (ok (true, wc')) = retire_old key wc' old

-- The reservation in the base `c`, up to the copy.
unfoldable pub reserve_fill :
    Key → ℕ → WriteControl → CopyFlavour → ℕ → Option RamControl → Step (Bool × WriteControl)
unfolding advance fill_reserved
reserve_fill key c placed flavour copy_offset old =
    change_base c (advance placed.total_size) >> fill_reserved key placed flavour copy_offset old

-- The reservation in the base `c`, and what follows it.
unfoldable pub reserve_in :
    Key → ℕ → WriteControl → ℕ → CopyFlavour → ℕ → Option RamControl → Step WriteControl
unfolding place reserve_fill finish_reserved
reserve_in key c wc prepare_disk_size flavour copy_offset old s =
    let placed = place s.cfg c (s.base c) prepare_disk_size wc in
    let (r, s') = reserve_fill key c placed flavour copy_offset old s in
    finish_reserved key c placed old r s'

-- `eblob_write_prepare_disk_ll`, with the write control that it leaves where it returns 0.
unfoldable pub write_prepare_disk_ll :
    Key → WriteControl → ℕ → CopyFlavour → ℕ → Option RamControl → Step WriteControl
unfolding open_base account_old reserve_in
write_prepare_disk_ll key wc prepare_disk_size flavour copy_offset old = do
  c ← open_base
  (wc', size) ← account_old old wc prepare_disk_size
  reserve_in key c wc' size flavour copy_offset old

module _ (cache : KeyCache) where
  -- The old record that counts: the cache is asked again where a defragmentation came between.
  unfoldable pub current_old : Key → Option RamControl → ℕ → Step (Option RamControl)
  current_old key old defrag_generation s =
      if s.generation == defrag_generation then (ok old, s) else elim (cache.lookup s.cache key) [
        | ok (found, on_disk) ↦ (ok (some found), s)
        | err enoent ↦ (ok none, s)
        | err e ↦ (err e, s)
      ]

  -- `eblob_write_prepare_disk`
  unfoldable pub write_prepare_disk :
      Key → WriteControl → ℕ → CopyFlavour → ℕ → Option RamControl → ℕ → Step WriteControl
  unfolding current_old calculate_size check_free_space write_prepare_disk_ll
  write_prepare_disk key wc prepare_disk_size flavour copy_offset old defrag_generation = do
    old' ← current_old key old defrag_generation
    let size = w64 (wc.size + wc.offset)
    λ s.
        let space = check_free_space s (
          calculate_size s.cfg 0
            (if ltb size prepare_disk_size then prepare_disk_size else size)) in
        elim space [
          | err e ↦ (err e, s)
          | ok u ↦ write_prepare_disk_ll key wc prepare_disk_size flavour copy_offset old' s
        ]
