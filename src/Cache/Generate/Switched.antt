-- ===== src/Cache/Generate/Switched.antt =====
-- library/index.c: the part of `eblob_generate_sorted_index` that runs under the locks.
use eblob.Base.{
  ℕ, ◌+◌, ◌==◌, Ordering, true, false, Bool-cases, Option, some, Option-cases, some_inj, ok_inj,
  List, Outcome, ok, err, Outcome-cases, Errno, ◌≡◌, refl, sym, ap, subst, arith, inl, inr,
}
use eblob.Key.{Key}
use eblob.Record.{DiskControl, RamControl, Disk}
use eblob.Rbtree.{Rebalance}
use eblob.Hash.{HashEntry}
use eblob.L2hash.{L2hashEntry, L2hashCollision}
use eblob.Binlog.{binlog_stop, binlog_enabled}
use eblob.Index.Fill.{index_blocks_fill}
use eblob.Index.Search.{Bsearch}
use eblob.Index.Apply.{indexsort_binlog_apply}
use eblob.Index.Apply.Marked.{Both, IsMarked, KeyIn, IsFlagged}
use eblob.Index.Apply.Applied.{indexsort_binlog_apply-Both}
use eblob.Cache.{Backend}
use eblob.Cache.Counted.{IsReady}
use eblob.Cache.Flush.{Flushed, indexsort_flush_cache, indexsort_flush_cache-Flushed}
use eblob.Cache.Generate.{
  Sorting, Answers, pread_of, install, apply_and_flush, rename_and_stop, stop_and_close,
}

abbrev pub Result : Type 0 → Type 0
Result W = Option (Outcome ℕ × Sorting W)

pub failed_ne :
    {W : Type 0} (e : Errno) (s t : Sorting W)
    → ◌≡◌ {A = Result W} (some (err e, s)) (some (ok 0, t))
    → ⊥
failed_ne e s t h = cc

module _ {W : Type 0} (disk : Disk) (h : Rebalance (HashEntry RamControl))
    (r : Rebalance L2hashEntry) (s : Rebalance L2hashCollision) (bs : Bsearch)
    (mark : ℕ → W → Outcome (Unit {0}) × W) (scale : ℕ → ℕ) (index_block_size bloom_length : ℕ)
    (qsort : (DiskControl → DiskControl → Ordering) → List DiskControl → List DiskControl) where
  abbrev installed : Answers → ℕ → ℕ → Sorting W → Result W
  installed = install disk h r s bs mark scale index_block_size bloom_length qsort

  abbrev applied : Answers → ℕ → ℕ → List DiskControl → Sorting W → Result W
  applied = apply_and_flush disk h r s bs mark scale index_block_size bloom_length qsort

  -- The file is the sorted index of the base from now on, and the binlog is stopped.
  pub record IsInstalled (fd : ℕ) (file : List DiskControl) (b : Backend) (t : Sorting W)
      : Type 0 where
    pub serves : t.sort_fd ≡ some fd
    pub file_is : t.sorted_file ≡ file
    pub backend_is : t.backend ≡ b
    pub stopped : t.binlog.enabled ≡ false
    pub named : t.is_renamed ≡ true

  rename_and_stop-IsInstalled :
      (fd : ℕ) (st t : Sorting W)
      → st.sort_fd ≡ some fd
      → rename_and_stop st ≡ (ok 0, t)
      → IsInstalled fd st.sorted_file st.backend t
  unfolding rename_and_stop stop_and_close binlog_stop binlog_enabled
  rename_and_stop-IsInstalled fd st t set out = elim (Bool-cases st.binlog.enabled) [
    | inl e ↦
        let out' = rw (rename_and_stop, binlog_stop, e) at out in
        subst (IsInstalled fd st.sorted_file st.backend) (ap (λ p. p.1) out') (record {
          serves = set;
          file_is = refl;
          backend_is = refl;
          stopped = rw (binlog_stop, e) refl;
          named = refl;
        })
    | inr e ↦ absurd (cc (rw (rename_and_stop, binlog_stop, e) at out))
  ]

  install-IsInstalled :
      (a : Answers) (fd n : ℕ) (st t : Sorting W)
      → installed a fd n st ≡ some (ok 0, t)
      → IsInstalled fd st.sorted_file st.backend t
  unfolding install
  install-IsInstalled a fd n st t out =
      let set : Sorting W = record st {
        sort_fd = some fd;
        ctl = record st.ctl { sort_size = n };
        defrag_generation = st.defrag_generation + 1;
      } in
      let run =
        index_blocks_fill scale (pread_of st.sorted_file) index_block_size bloom_length
          a.calloc_bloom a.calloc_blocks set.ctl in
      elim (Option-cases run) [
        | inl e ↦ absurd (cc (rw (install, e) at out))
        | inr (p, e) ↦ elim (Outcome-cases p.0) [
          | inl (z, f) ↦ absurd (failed_ne z _ t (rw (install, e, f) at out))
          | inr (k, f) ↦ elim (Bool-cases (k == 0)) [
            | inl g ↦
                rename_and_stop-IsInstalled fd (record set { ctl = p.1 }) t refl
                  (some_inj (rw (install, e, f, g) at out))
            | inr g ↦ absurd (other k g (ap (λ o. o.0) (some_inj (rw (install, e, f, g) at out))))
          ]
        ]
      ]
    where
      other : (k : ℕ) → (k == 0) ≡ false → ◌≡◌ {A = Outcome ℕ} (ok k) (ok 0) → ⊥
      other k g z = ground (arith, ok_inj z)

  -- What the locked part leaves: the index is marked with the keys of the binlog, and its keys are
  -- gone from the cache.
  pub record IsSwitched (fd : ℕ) (dcs : List DiskControl) (keys : List Key) (b : Backend)
      (t : Sorting W) : Type 0 where
    pub marked : Both (IsMarked (KeyIn keys)) dcs t.sorted_file
    pub flushed : Flushed disk h r s t.sorted_file b t.backend
    pub serves : t.sort_fd ≡ some fd
    pub stopped : t.binlog.enabled ≡ false
    pub named : t.is_renamed ≡ true

  pub apply_and_flush-IsSwitched :
      (a : Answers) (fd n : ℕ) (dcs : List DiskControl) (keys : List Key) (st t : Sorting W)
      → st.binlog ≡ record { enabled = true; removed_keys = keys }
      → IsFlagged dcs
      → IsReady disk st.backend
      → applied a fd n dcs st ≡ some (ok 0, t)
      → IsSwitched fd dcs keys st.backend t
  unfolding apply_and_flush
  apply_and_flush-IsSwitched a fd n dcs keys st t log flagged ready out =
      let run = indexsort_binlog_apply mark bs st.binlog dcs st.world in
      elim (Outcome-cases a.locked) [
        | inl (z, e) ↦ absurd (failed_ne z _ t (rw (apply_and_flush, e) at out))
        | inr (u1, e) ↦ elim (Outcome-cases run.0) [
          | inl (z, f) ↦ absurd (failed_ne z _ t (rw (apply_and_flush, e, f) at out))
          | inr (u2, f) ↦ elim (Outcome-cases a.rewritten) [
            | inl (z, g) ↦ absurd (failed_ne z _ t (rw (apply_and_flush, e, f, g) at out))
            | inr (u3, g) ↦ elim (Outcome-cases a.resynced) [
              | inl (z, k) ↦ absurd (failed_ne z _ t (rw (apply_and_flush, e, f, g, k) at out))
              | inr (u4, k) ↦
                  switched
                    (subst
                      (λ b.
                        (indexsort_binlog_apply mark bs b dcs st.world).0 ≡ ok tt
                        → Both (IsMarked (KeyIn keys)) dcs
                            (indexsort_binlog_apply mark bs b dcs st.world).1)
                      (sym log) (indexsort_binlog_apply-Both mark bs true keys dcs st.world flagged)
                      f)
                    (install-IsInstalled a fd n
                      (record st {
                        world = run.2;
                        sorted_file = run.1;
                        backend = indexsort_flush_cache disk h r s run.1 st.backend;
                      })
                      t (rw (apply_and_flush, e, f, g, k) at out))
            ]
          ]
        ]
      ]
    where
      switched :
          let file = (indexsort_binlog_apply mark bs st.binlog dcs st.world).1 in
          Both (IsMarked (KeyIn keys)) dcs file
          → IsInstalled fd file (indexsort_flush_cache disk h r s file st.backend) t
          → IsSwitched fd dcs keys st.backend t
      switched both v =
          let file = (indexsort_binlog_apply mark bs st.binlog dcs st.world).1 in
          record {
            marked = subst (Both (IsMarked (KeyIn keys)) dcs) (sym v.file_is) both;
            flushed =
                subst (λ f. Flushed disk h r s f st.backend t.backend) (sym v.file_is)
                  (subst (Flushed disk h r s file st.backend) (sym v.backend_is)
                    (indexsort_flush_cache-Flushed disk h r s file st.backend ready));
            serves = v.serves;
            stopped = v.stopped;
            named = v.named;
          }
