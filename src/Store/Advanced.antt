-- ===== src/Store/Advanced.antt =====
-- The space of the bases after a reservation that got to its end.
use eblob.Base.{
  ℕ, ◌+◌, ◌==◌, ==_iff, Bool, true, false, if◌then◌else◌, Option, none, some, Option-cases, Outcome,
  ok, err, ◌≡◌, refl, sym, ap, ◌∙◌, inl, inr, Bool-cases, Outcome-cases,
}
use eblob.Key.{Key}
use eblob.Record.{RamControl, get_index_fd, hdr_size}
use eblob.Binlog.{binlog_append, binlog_entry_new, binlog_enabled}
use eblob.Files.Headers.{le64}
use eblob.Store.{
  BaseCtl, Store, Step, pure, ◌>>=◌, ◌>>◌, change_base, next_alloc, mark_index_removed, ctl_remove,
  w64,
}
use eblob.Store.Frames.{Keeps, then-Keeps}
use eblob.Store.Control.{WriteControl}
use eblob.Store.Writes.{log_removed, count_removed, mark_entry_removed}
use eblob.Store.Prepare.{
  CopyFlavour, place, advance, account, retire_old, fill_reserved, finish_reserved, reserve_fill,
  reserve_in,
}
use eblob.Store.Reserved.{pwrite-KeepsBases, fill_reserved-KeepsBases, is_filled}

module _ (i : ℕ) where
  -- The ends of the data and of the index of a base.
  abbrev pub space : Store → ℕ × ℕ
  space s = ((s.base i).data_offset, (s.base i).index_size)

  change_base-space :
      (c : ℕ) (f : BaseCtl → BaseCtl)
      → ((b : BaseCtl) → ((f b).data_offset ≡ b.data_offset) × ((f b).index_size ≡ b.index_size))
      → Keeps space (change_base c f)
  change_base-space c f h s = elim (Bool-cases (i == c)) [
    | inl e ↦ rw e (same (h (s.base i)).0 (h (s.base i)).1)
    | inr e ↦ rw e refl
  ]
    where
      same : {a b c d : ℕ} → a ≡ b → c ≡ d → Path (ℕ × ℕ) (a, c) (b, d)
      same p q = rw (p, q) refl

  log_removed-space :
      (key : Key) (c : ℕ) (s : Store) → space (log_removed key c (s.base c) s).1 ≡ space s
  unfolding log_removed
  log_removed-space key c s = elim (Bool-cases (binlog_enabled (s.base c).binlog)) [
    | inr off ↦ rw off refl
    | inl on ↦ elim (Option-cases (binlog_entry_new (next_alloc s.allocs).0 key)) [
      | inl e ↦ rw (on, e) refl
      | inr (entry, e) ↦
          rw (on, e)
            (change_base-space c
              (λ b. record b { binlog = (binlog_append (s.base c).binlog entry).1 })
              (λ b. (refl, refl)) (record s { allocs = (next_alloc s.allocs).1 }))
    ]
  ]

  mark_index_removed-space : (fd : Option ℕ) (off : ℕ) → Keeps space (mark_index_removed fd off)
  unfolding mark_index_removed
  mark_index_removed-space fd off s =
      ap (λ (base : ℕ → BaseCtl). ((base i).data_offset, (base i).index_size))
        (pwrite-KeepsBases fd (off + 64) (le64 ctl_remove) s)

  mark_entry_removed-space :
      (key : Key) (old : RamControl) → Keeps space (mark_entry_removed key old)
  unfolding mark_entry_removed
  mark_entry_removed-space key old s = elim (Option-cases old.bctl) [
    | inl e ↦ rw e refl
    | inr (c, e) ↦
        let ctl = s.base c in
        let in_data = mark_index_removed (some ctl.data_fd) old.data_offset in
        let in_index = mark_index_removed (get_index_fd ctl.fds) old.index_offset in
        let rest =
          then-Keeps space in_index (in_data >> count_removed c old)
            (mark_index_removed-space (get_index_fd ctl.fds) old.index_offset)
            (then-Keeps space in_data (count_removed c old)
              (mark_index_removed-space (some ctl.data_fd) old.data_offset)
              (change_base-space c
                (λ b. record b {
                  records_removed = b.records_removed + 1;
                  removed_size = w64 (b.removed_size + old.size);
                })
                (λ b. (refl, refl)))) in
        rw e (logged c (in_index >> (in_data >> count_removed c old)) rest)
  ]
    where
      logged :
          (c : ℕ) (k : Step (Unit {0}))
          → Keeps space k
          → space ((log_removed key c (s.base c) >> k) s).1 ≡ space s
      logged c k h = elim (Outcome-cases (log_removed key c (s.base c) s).0) [
        | inl (x, r) ↦ rw (◌>>◌, ◌>>=◌, r) (log_removed-space key c s)
        | inr (u, r) ↦
            rw (◌>>◌, ◌>>=◌, r) (h (log_removed key c (s.base c) s).1 ∙ log_removed-space key c s)
      ]

  account-space : (c size : ℕ) → Keeps space (account c size)
  account-space c size s = elim (Bool-cases (i == c)) [
    | inr e ↦ rw e refl
    | inl e ↦
        let here : c ≡ i = sym ((==_iff i c).0 e) in
        rw e (ap (λ k. ((s.base k).data_offset, (s.base k).index_size)) here)
  ]

  retire_old-space :
      (key : Key) (wc : WriteControl) (old : Option RamControl)
      → Keeps space (retire_old key wc old)
  unfolding retire_old
  retire_old-space key wc none =
      then-Keeps space (account wc.bctl (wc.total_size + hdr_size)) (pure wc)
        (account-space wc.bctl (wc.total_size + hdr_size)) (λ s. refl)
  retire_old-space key wc (some o) =
      then-Keeps space (mark_entry_removed key o)
        (account wc.bctl (wc.total_size + hdr_size) >> pure wc) (mark_entry_removed-space key o)
        (then-Keeps space (account wc.bctl (wc.total_size + hdr_size)) (pure wc)
          (account-space wc.bctl (wc.total_size + hdr_size)) (λ s. refl))

finish_reserved-space :
    (key : Key) (c i : ℕ) (wc : WriteControl) (old : Option RamControl)
    (r : Outcome (Bool × WriteControl)) (s : Store)
    → is_filled r ≡ true
    → space i (finish_reserved key c wc old r s).1 ≡ space i s
unfolding finish_reserved
finish_reserved-space key c i wc old (err e) s h = absurd cc
finish_reserved-space key c i wc old (ok (false, w)) s h = absurd cc
finish_reserved-space key c i wc old (ok (true, w)) s h = retire_old-space i key w old s

-- A reservation that gets to its end moves the ends of its base by the size of the record, modulo
-- 2^64, and by one header, and leaves those of every other base; also where the mark on the old
-- record then fails.
pub reserve_in-advanced :
    (key : Key) (c : ℕ) (wc : WriteControl) (prepare_disk_size : ℕ) (flavour : CopyFlavour)
    (copy_offset : ℕ) (old : Option RamControl) (s : Store)
    → is_filled
        (reserve_fill key c
          (place s.cfg c (s.base c) prepare_disk_size wc)
          flavour
          copy_offset
          old
          s).0
      ≡ true
    → (i : ℕ)
    → space i (reserve_in key c wc prepare_disk_size flavour copy_offset old s).1 ≡ (
        if i == c
        then (
          w64 ((s.base i).data_offset + (place s.cfg c (s.base c) prepare_disk_size wc).total_size),
          w64 ((s.base i).index_size + hdr_size),
        )
        else space i s)
unfolding reserve_in reserve_fill advance
reserve_in-advanced key c wc size flavour copy_offset old s filled i =
    let placed = place s.cfg c (s.base c) size wc in
    let s1 = (change_base c (advance placed.total_size) s).1 in
    let (r, s2) = fill_reserved key placed flavour copy_offset old s1 in
    let kept : s2.base ≡ s1.base = fill_reserved-KeepsBases key placed flavour copy_offset old s1 in
    finish_reserved-space key c i placed old r s2 filled
    ∙ (ap (λ (base : ℕ → BaseCtl). ((base i).data_offset, (base i).index_size)) kept
        ∙ moved (i == c) placed.total_size)
  where
    moved :
        (b : Bool) (t : ℕ)
        → Path
            (ℕ × ℕ)
            (
              (if b then advance t (s.base i) else s.base i).data_offset,
              (if b then advance t (s.base i) else s.base i).index_size,
            )
            (if b
              then (w64 ((s.base i).data_offset + t), w64 ((s.base i).index_size + hdr_size))
              else space i s)
    moved true t = refl
    moved false t = refl
