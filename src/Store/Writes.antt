-- ===== src/Store/Writes.antt =====
-- library/blob.c: the steps that write the parts of a record, and those that remove one.
use eblob.Base.{
  not, ℕ, ◌+◌, ◌-◌, Bool, true, false, if◌then◌else◌, ◌&&◌, ◌||◌, ltb, none, some, List, [], ◌∷◌,
  ◌++◌, Outcome, ok, err, enoent, enomem, erange, efault, assertion,
}
use eblob.Key.{Key}
use eblob.Record.{RamControl, get_index_fd, hdr_size}
use eblob.Binlog.{binlog_entry_new, binlog_append, binlog_enabled}
use eblob.Files.{File}
use eblob.Files.Headers.{le64, encode}
use eblob.Store.{
  BaseCtl, Config, KeyCache, Store, Step, pure, raise, gets, ◌>>=◌, ◌>>◌, change_base, pwrite,
  next_alloc, mark_index_removed, w64, sub64, has, with_flag, without_flag, ctl_remove, ctl_nocsum,
  ctl_append, ctl_exthdr,
}
use eblob.Store.Control.{WriteControl, Iovec, size_of, wc_to_dc, wc_to_rctl, footer_size}

-- The loop of `eblob_writev_raw`; `head` is set for the first round.
unfoldable pub writev_loop : WriteControl → Bool → Outcome (Unit {0}) → List Iovec → Step (Unit {0})
unfolding pwrite
writev_loop wc head status [] s = (status, s)
writev_loop wc head status (iov ∷ iovs) s =
    let offset_min = w64 (wc.ctl_data_offset + hdr_size) in
    let offset_max = w64 (wc.ctl_data_offset + wc.total_size) in
    let offset =
      if head && has ctl_exthdr wc.flags then offset_min else w64 (wc.data_offset + iov.offset) in
    elim (ltb offset_max (w64 (offset + size_of iov)) || ltb offset offset_min) [
      | true ↦ (err erange, s)
      | false ↦
          let (r, s') = pwrite (some wc.data_fd) offset iov.bytes s in
          elim r [ err e ↦ (err e, s') | ok u ↦ writev_loop wc false (ok tt) iovs s' ]
    ]

-- `eblob_writev_raw`, with the write control that it leaves.
unfoldable pub writev_raw : WriteControl → List Iovec → Step WriteControl
unfolding writev_loop
writev_raw wc iovs s =
    let shift : ℕ = elim iovs [ [] ↦ 0 | iov ∷ rest ↦ size_of iov ] in
    if has ctl_exthdr wc.flags && has ctl_append wc.flags
    then (if ltb wc.total_data_size shift
        then (err erange, s)
        else let wc' : WriteControl = record wc {
          data_offset = sub64 wc.data_offset shift;
          total_data_size = wc.total_data_size - shift;
        } in
          (writev_loop wc' true (err efault) iovs >> pure wc') s)
    else (writev_loop wc true (err efault) iovs >> pure wc) s

-- `eblob_commit_disk`: the header goes to the index, then to the data file.
unfoldable pub commit_disk : Key → WriteControl → Bool → Step WriteControl
unfolding pwrite wc_to_dc encode
commit_disk key wc remove =
    let flags =
      if remove then with_flag ctl_remove wc.flags else without_flag ctl_remove wc.flags in
    let wc' : WriteControl = record wc { flags = flags } in
    let dc = encode (wc_to_dc key wc') in
    do
      pwrite wc'.index_fd wc'.ctl_index_offset dc
      pwrite (some wc'.data_fd) wc'.ctl_data_offset dc
      pure wc'

-- The key goes into the binlog of its base, if that is on.
unfoldable pub log_removed : Key → ℕ → BaseCtl → Step (Unit {0})
unfolding binlog_entry_new binlog_append binlog_enabled
log_removed key c ctl s =
    let (enough, allocs) = next_alloc s.allocs in
    let s1 : Store = record s { allocs = allocs } in
    if not (binlog_enabled ctl.binlog) then (ok tt, s) else elim (binlog_entry_new enough key) [
      | none ↦ (err enomem, s1)
      | some entry ↦
          let (r, binlog) = binlog_append ctl.binlog entry in
          (r, (change_base c (λ b. record b { binlog = binlog }) s1).1)
    ]

-- The counters of a base that has lost a record.
abbrev pub count_removed : ℕ → RamControl → Step (Unit {0})
count_removed c old = change_base c (λ b. record b {
  records_removed = b.records_removed + 1;
  removed_size = w64 (b.removed_size + old.size);
})

-- `eblob_mark_entry_removed`. A control without a base is a null pointer.
unfoldable pub mark_entry_removed : Key → RamControl → Step (Unit {0})
unfolding mark_index_removed log_removed get_index_fd
mark_entry_removed key old = elim old.bctl [
  | none ↦ raise assertion
  | some c ↦ do
    ctl ← gets (λ s. s.base c)
    log_removed key c ctl
    mark_index_removed (get_index_fd ctl.fds) old.index_offset
    mark_index_removed (some ctl.data_fd) old.data_offset
    count_removed c old
]

-- `memset(&f, 0, sizeof(f))`: the checksum of 64 bytes.
abbrev pub zero_csum : List ℕ
zero_csum = le64 0 ++ le64 0 ++ le64 0 ++ le64 0 ++ le64 0 ++ le64 0 ++ le64 0 ++ le64 0

module _ (file_hash : File → ℕ → ℕ → Outcome (List ℕ)) where
  -- `eblob_write_commit_footer`, with the configuration and the data file; `file_hash` is
  -- `sha512_file`.
  unfoldable pub footer_of : WriteControl → Config → File → Step (Unit {0})
  unfolding pwrite le64
  footer_of wc cfg data_file =
      let csum : Outcome (List ℕ) =
        if has ctl_nocsum wc.flags
        then ok zero_csum
        else file_hash data_file (w64 (wc.ctl_data_offset + hdr_size)) wc.total_data_size in
      if cfg.no_footer then pure tt else elim csum [
        | err e ↦ raise e
        | ok bytes ↦
            pwrite (some wc.data_fd) (sub64 (wc.ctl_data_offset + wc.total_size) footer_size)
              (bytes ++ le64 wc.ctl_data_offset)
      ]

  unfoldable pub write_commit_footer : WriteControl → Step (Unit {0})
  unfolding footer_of
  write_commit_footer wc s = footer_of wc s.cfg (s.files wc.data_fd) s

-- -ENOENT is no error.
abbrev pub unless_absent : Outcome (Unit {0}) → Outcome (Unit {0})
unless_absent (err enoent) = ok tt
unless_absent other = other

module _ (cache : KeyCache) where
  -- `eblob_commit_ram`
  unfoldable pub commit_ram : Key → WriteControl → Step (Unit {0})
  unfolding wc_to_rctl
  commit_ram key wc s =
      if wc.on_disk
      then (ok tt, s)
      else let (r, c) = cache.insert s.cache key (wc_to_rctl wc) in (r, record s { cache = c })

  -- `eblob_mark_entry_removed_purge`: -ENOENT of the cache is no error.
  unfoldable pub mark_entry_removed_purge : Key → RamControl → Step (Unit {0})
  unfolding mark_entry_removed
  mark_entry_removed_purge key old = do
    mark_entry_removed key old
    λ s. let (r, c) = cache.remove s.cache key in (unless_absent r, record s { cache = c })

  module _ (file_hash : File → ℕ → ℕ → Outcome (List ℕ)) where
    -- `eblob_write_commit_nolock`
    unfoldable pub write_commit_nolock : Key → WriteControl → Step WriteControl
    unfolding write_commit_footer commit_disk commit_ram
    write_commit_nolock key wc = do
      write_commit_footer file_hash wc
      wc' ← commit_disk key wc false
      commit_ram key wc'
      pure wc'
