-- ===== src/Store/Commands.antt =====
-- library/blob.c: the requests that write a record or remove it.
--
-- The arguments are no null pointers. A request that fails leaves no write control: what a failing
-- step has changed of it is not read any more.
use eblob.Base.{
  ℕ, ◌+◌, ◌-◌, ◌^◌, bit_and, Bool, true, false, if◌then◌else◌, not, ◌&&◌, ◌||◌, ltb, leb, ◌==◌,
  Option, none, some, List, [], ◌∷◌, length, Outcome, ok, err, Errno, number, einval, erange, e2big,
  erofs, enotsup, assertion,
}
use eblob.Key.{Key}
use eblob.Record.{DiskControl, RamControl, get_index_fd, hdr_size}
use eblob.Binlog.{binlog_enabled}
use eblob.Files.{File}
use eblob.Files.Headers.{decode}
use eblob.Store.{
  Config, KeyCache, Step, pure, gets, ◌>>=◌, ◌>>◌, raise_if, pread, w64, has, with_flag,
  without_flag, ctl_nocsum, ctl_append, ctl_exthdr, ctl_uncommitted, BaseCtl,
}
use eblob.Store.Control.{
  WriteControl, zero_wc, calculate_size, Iovec, size_of, Bounds, iovec_get_bounds,
  check_writev_return_flags,
}
use eblob.Store.Writes.{writev_raw, mark_entry_removed_purge, commit_ram, write_commit_nolock}
use eblob.Store.Prepare.{
  CopyFlavour, dont_copy, copy_record, write_prepare_disk_ll, write_prepare_disk,
}

abbrev lift : {A : Type 0} → Outcome A → Step A
lift r s = (r, s)

-- The status of a step as a value, with the write control that it leaves, or the one given.
abbrev attempt : WriteControl → Step WriteControl → Step (Outcome (Unit {0}) × WriteControl)
attempt wc m s =
    let (r, s') = m s in (ok (elim r [ err e ↦ (err e, wc) | ok wc' ↦ (ok tt, wc') ]), s')

-- Whether a call returned a negated errno of this number.
abbrev returned : ℕ → Outcome (Unit {0}) → Bool
returned n (ok u) = false
returned n (err e) = number e == n

-- `if (b->cfg.blob_flags & EBLOB_NO_FOOTER) flags |= BLOB_DISK_CTL_NOCSUM`
abbrev new_flags : Config → ℕ → ℕ
new_flags cfg flags = if cfg.no_footer then with_flag ctl_nocsum flags else flags

-- What `eblob_fill_write_control_from_ram` returns, with the write control and `*old` it leaves.
pub record Filled : Type 0 where
  pub status : Outcome (Unit {0})
  pub wc : WriteControl
  pub old : Option RamControl

-- Where the cache says that the record is.
unfoldable pub locate : Bool → ℕ → BaseCtl → RamControl → WriteControl → WriteControl
unfolding get_index_fd
locate for_write c base ctl wc =
    let offset =
      if for_write && has ctl_append wc.flags then w64 (wc.offset + ctl.size) else wc.offset in
    record wc {
      offset = offset;
      data_fd = base.data_fd;
      index_fd = get_index_fd base.fds;
      index = base.index;
      ctl_index_offset = ctl.index_offset;
      ctl_data_offset = ctl.data_offset;
      data_offset = w64 (ctl.data_offset + hdr_size + offset);
      bctl = c;
    }

-- What the header of the record says of its sizes, and whether the write fits in it.
unfoldable pub measure : Config → Bool → RamControl → WriteControl → DiskControl → Filled
unfolding calculate_size
measure cfg for_write old wc dc =
    let end_ = w64 (wc.offset + wc.size) in
    let size = if wc.size == 0 then dc.data_size else wc.size in
    record {
      status =
          if for_write && ltb dc.disk_size (calculate_size cfg wc.offset size)
          then err e2big
          else ok tt;
      wc = record wc {
        flags = dc.flags;
        total_size = dc.disk_size;
        total_data_size = if ltb dc.data_size end_ then end_ else dc.data_size;
        size = size;
      };
      old = some old;
    }

module _ (cache : KeyCache) where
  -- `eblob_fill_write_control_from_ram`. A control without a base is a null pointer.
  unfoldable pub fill_write_control_from_ram : Key → WriteControl → Bool → Step Filled
  unfolding locate pread decode measure
  fill_write_control_from_ram key wc for_write s = elim (cache.lookup s.cache key) [
    | err e ↦ (ok (record { status = err e; wc = wc; old = none }), s)
    | ok (ctl, on_disk) ↦ elim ctl.bctl [
      | none ↦ (err assertion, s)
      | some c ↦
          let found = locate for_write c (s.base c) ctl (record wc { on_disk = on_disk }) in
          let (r, s') = pread found.index_fd ctl.index_offset hdr_size s in
          elim r [
            | err e ↦ (ok (record { status = err e; wc = found; old = some ctl }), s')
            | ok bytes ↦ (ok (measure s.cfg for_write ctl found (decode bytes)), s')
          ]
    ]
  ]

  -- `eblob_cache_lookup` where it has to find the key.
  abbrev ask : Key → Step RamControl
  ask key s = (elim (cache.lookup s.cache key) [ err e ↦ err e | ok (ctl, on_disk) ↦ ok ctl ], s)

  -- Where the binlog of its base is on, the record gets a new place of the size given; whether it
  -- did. No flag is set meanwhile.
  unfoldable pub move_if_logged : Key → WriteControl → ℕ → Step (Bool × WriteControl)
  unfolding binlog_enabled write_prepare_disk_ll
  move_if_logged key wc size = do
    base ← gets (λ s. s.base wc.bctl)
    (if not (binlog_enabled base.binlog) then pure (false, wc) else do
      rctl ← ask key
      wc' ← write_prepare_disk_ll key (record wc { flags = 0 }) size copy_record 0 (some rctl)
      pure (true, wc'))

  -- `eblob_write_prepare`
  unfoldable pub write_prepare : Key → ℕ → ℕ → Step (Unit {0})
  unfolding fill_write_control_from_ram calculate_size write_prepare_disk commit_ram
  write_prepare key size flags = do
    generation ← gets (λ s. s.generation)
    cfg ← gets (λ s. s.cfg)
    f ← fill_write_control_from_ram key zero_wc true
    let absent = returned 2 f.status
    let found = not absent && not (returned 7 f.status)
    lift (if found then f.status else ok tt)
    (if found && leb (calculate_size cfg 0 size) f.wc.total_size then pure tt else do
      wc ←
          write_prepare_disk cache key
            (record f.wc { flags = with_flag ctl_uncommitted (new_flags cfg flags) }) size
            copy_record 0 (if absent then none else f.old) generation
      commit_ram cache key wc)

  -- `eblob_remove`
  unfoldable pub remove : Key → Step (Unit {0})
  unfolding mark_entry_removed_purge
  remove key = do ctl ← ask key; mark_entry_removed_purge cache key ctl

  -- What `eblob_try_overwritev` returns, with the write control, the old record and the generation
  -- that it leaves.
  pub record Tried : Type 0 where
    pub status : Outcome (Unit {0})
    pub wc : WriteControl
    pub old : Option RamControl
    pub generation : ℕ

  -- The copy of a record whose place is too small or must not be written to: whether there is one,
  -- and where it starts.
  unfoldable pub copy_plan : ℕ → Bounds → List Iovec → WriteControl → Outcome (CopyFlavour × ℕ)
  copy_plan flags bounds iovs wc =
      let uses =
        has ctl_append flags
        || not (bounds.min == 0)
        || ltb bounds.max wc.total_data_size
        || not bounds.contiguous in
      let grows = has ctl_exthdr flags && not (has ctl_exthdr wc.flags) in
      if not (has ctl_exthdr flags) && has ctl_exthdr wc.flags
      then err einval
      else ok (
        if uses || grows then copy_record else dont_copy,
        if grows then elim iovs [ [] ↦ 0 | iov ∷ rest ↦ size_of iov ] else 0,
      )

  module _ (file_hash : File → ℕ → ℕ → Outcome (List ℕ)) where
    -- `eblob_write_commit`
    unfoldable pub write_commit : Key → ℕ → ℕ → Step (Unit {0})
    unfolding fill_write_control_from_ram move_if_logged write_commit_nolock
    write_commit key size flags = do
      f ← fill_write_control_from_ram key zero_wc true
      lift f.status
      raise_if (ltb f.wc.total_size size) erange
      (moved, wc) ← move_if_logged key f.wc size
      cfg ← gets (λ s. s.cfg)
      let kept = if flags == 2 ^ 64 - 1 then f.wc.flags else flags
      let all = size == 2 ^ 64 - 1
      write_commit_nolock cache file_hash key (record wc {
        flags = new_flags cfg kept;
        size = if all then wc.size else size;
        total_data_size = if all then wc.total_data_size else size;
      })
      pure tt

    -- The rest of `eblob_try_overwritev`, once the record is found; `wc` is what the call was given.
    unfoldable pub overwrite :
        Key → List Iovec → WriteControl → WriteControl → Step (Outcome (Unit {0}) × WriteControl)
    unfolding binlog_enabled writev_raw write_commit_nolock
    overwrite key iovs wc found = do
      base ← gets (λ s. s.base found.bctl)
      let alone = has ctl_exthdr wc.flags && has ctl_append wc.flags && found.offset == 0
      let ready : WriteControl = record found {
        flags = if alone then without_flag ctl_append wc.flags else wc.flags;
        size = wc.size;
        total_data_size = w64 (found.offset + wc.size);
      }
      (if not (bit_and wc.flags ctl_exthdr == bit_and found.flags ctl_exthdr)
          then pure (err e2big, found)
          else if binlog_enabled base.binlog
          then pure (err erofs, found)
          else attempt ready
              (writev_raw ready iovs >>= λ wc'. write_commit_nolock cache file_hash key wc'))

    -- `eblob_try_overwritev`
    unfoldable pub try_overwritev : Key → List Iovec → WriteControl → Step Tried
    unfolding fill_write_control_from_ram overwrite
    try_overwritev key iovs wc = do
      generation ← gets (λ s. s.generation)
      f ← fill_write_control_from_ram key wc true
      (status, wc') ← elim f.status [
        | err e ↦ pure (err e, f.wc)
        | ok u ↦ overwrite key iovs wc f.wc
      ]
      pure (record { status = status; wc = wc'; old = f.old; generation = generation })

    -- `eblob_writev_return`, where the record could not be overwritten in its place.
    unfoldable pub rewrite : Key → List Iovec → ℕ → Bounds → Errno → Tried → Step WriteControl
    unfolding copy_plan write_prepare_disk writev_raw write_commit_nolock
    rewrite key iovs flags bounds e t =
        let absent = number e == 2 in
        do
          raise_if (not (number e == 7 || absent || number e == 30)) e
          cfg ← gets (λ s. s.cfg)
          (flavour, copy_offset) ←
              (if absent then pure (dont_copy, 0) else lift (copy_plan flags bounds iovs t.wc))
          let fresh : WriteControl = record t.wc { offset = 0; flags = new_flags cfg flags }
          wc ←
              write_prepare_disk cache key (if absent then t.wc else fresh) 0 flavour copy_offset
                (if absent then none else t.old) t.generation
          wc' ← writev_raw wc iovs
          write_commit_nolock cache file_hash key wc'

    -- `eblob_writev_return`; `eblob_writev`, `eblob_write` and `eblob_write_return` call it.
    unfoldable pub writev_return : Key → List Iovec → ℕ → Step WriteControl
    unfolding check_writev_return_flags iovec_get_bounds try_overwritev rewrite
    writev_return key iovs flags =
        let bounds = iovec_get_bounds iovs in
        do
          lift (check_writev_return_flags flags (length iovs))
          cfg ← gets (λ s. s.cfg)
          t ← try_overwritev key iovs (record zero_wc {
            size = bounds.max;
            flags = new_flags cfg flags;
            index = 2 ^ 32 - 1;
          })
          elim t.status [ ok u ↦ pure t.wc | err e ↦ rewrite key iovs flags bounds e t ]

  -- `eblob_plain_writev`; `eblob_plain_write` calls it.
  unfoldable pub plain_writev : Key → List Iovec → ℕ → Step (Unit {0})
  unfolding iovec_get_bounds fill_write_control_from_ram move_if_logged writev_raw commit_ram
  plain_writev key iovs flags =
      let bounds = iovec_get_bounds iovs in
      do
        raise_if (ltb (length iovs) 1 || ltb 128 (length iovs)) e2big
        f ← fill_write_control_from_ram key (record zero_wc { size = bounds.max }) true
        lift f.status
        raise_if (has ctl_exthdr flags && not (has ctl_exthdr f.wc.flags)) enotsup
        (prepared, wc) ← move_if_logged key f.wc (w64 (f.wc.total_data_size + bounds.max))
        cfg ← gets (λ s. s.cfg)
        wc' ← writev_raw (record wc { flags = new_flags cfg flags }) iovs
        (if prepared then commit_ram cache key wc' else pure tt)
