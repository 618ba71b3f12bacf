-- ===== src/Index/Scans.antt =====
-- library/index.c: the loops of `eblob_index_blocks_fill`, what they have passed and why they stop.
use eblob.Base.{
  ℕ, zero, suc, ◌+◌, ◌-◌, ◌*◌, ◌<◌, ◌≤◌, true, false, if◌then◌else◌, ◌||◌, ltb, ltb→lt, ◌==◌, List,
  Outcome, ok, err, Errno, enomem, ◌≡◌, refl, ap, subst, arith, Bool-cases, Outcome-cases, if_elim,
  ◌⊎◌, inl, inr,
}
use eblob.Key.{Key}
use eblob.Record.{DiskControl, Pread, full, short, failed}
use eblob.Bloom.{BloomFilter, bloom_set, bloom_get}
use eblob.Bloom.Members.{
  IsAllocated, bloom_get-bloom_set, bloom_get-bloom_set_kept, bloom_set-IsAllocated_self,
}
use eblob.Index.{
  Filling, Progress, going, stopped, accept, fill_block, check_record, corrupt_max, is_removed,
}

pub Progress-cases :
    (p : Progress)
    → ((res : Outcome ℕ) × (st : Filling) × (p ≡ stopped res st))
      ⊎ ((st : Filling) × (p ≡ going st))
Progress-cases (going st) = inr (st, refl)
Progress-cases (stopped res st) = inl (res, st, refl)

Pread-cases :
    (r : Pread)
    → ((n : ℕ) × (r ≡ failed n))
      ⊎ (((n : ℕ) × (r ≡ short n)) ⊎ ((dc : DiskControl) × (r ≡ full dc)))
Pread-cases (failed n) = inl (n, refl)
Pread-cases (short n) = inr (inl (n, refl))
Pread-cases (full dc) = inr (inr (dc, refl))

module _ (pread : ℕ → Pread) (size data_size data_offset index_block_size : ℕ) where
  -- The key of the `j`-th header is in the filter, if the header is valid and not removed.
  abbrev pub Present : BloomFilter → ℕ → Type 0
  Present filter j =
      (dc : DiskControl)
      → pread (j * 96) ≡ full dc
      → check_record data_size data_offset dc ≡ ok tt
      → is_removed dc ≡ false
      → bloom_get filter dc.key ≡ ok true

  -- The loops have passed some whole number of headers, and the keys of all of them are present.
  pub record IsScanned (offset : ℕ) (filter : BloomFilter) : Type 0 where
    pub count : ℕ
    pub at : offset ≡ count * 96
    pub bloom : List ℕ
    pub allocated : IsAllocated filter bloom
    pub present : (j : ℕ) → j < count → Present filter j

  -- One more header, with a filter that keeps what was present and has its key.
  next-IsScanned :
      (offset : ℕ) (filter filter' : BloomFilter) (bloom : List ℕ)
      → (v : IsScanned offset filter) → IsAllocated filter' bloom
      → ((q : Key) → bloom_get filter q ≡ ok true → bloom_get filter' q ≡ ok true)
      → Present filter' v.count
      → IsScanned (offset + 96) filter'
  next-IsScanned offset filter filter' bloom v allocated kept new = record {
    count = suc v.count;
    at = omega (arith, v.at);
    bloom = bloom;
    allocated = allocated;
    present = λ j inside dc read valid live. elim (earlier j inside) [
      | inl before ↦ kept dc.key (v.present j before dc read valid live)
      | inr now ↦ new dc (subst (λ k. pread (k * 96) ≡ full dc) now read) valid live
    ];
  }
    where
      earlier : (j : ℕ) → j < suc v.count → (j < v.count) ⊎ (j ≡ v.count)
      earlier j h = ground arith

  -- The header at the offset is the one counted next.
  same_header :
      (offset : ℕ) (filter : BloomFilter) (v : IsScanned offset filter) (dc dc' : DiskControl)
      → pread offset ≡ full dc
      → pread (v.count * 96) ≡ full dc'
      → dc ≡ dc'
  same_header offset filter v dc dc' h k = cc (h, k, ap pread v.at)

  accept-IsScanned :
      (offset : ℕ) (filter : BloomFilter) (dc : DiskControl)
      → pread offset ≡ full dc
      → IsScanned offset filter
      → IsScanned (offset + 96) (if is_removed dc then filter else bloom_set filter dc.key)
  accept-IsScanned offset filter dc read v =
      if_elim (λ f. IsScanned (offset + 96) f) (is_removed dc) filter (bloom_set filter dc.key)
        (λ gone.
          next-IsScanned offset filter filter v.bloom v v.allocated (λ q h. h)
            (λ dc' read' valid live.
              absurd
                (cc (gone, live, ap is_removed (same_header offset filter v dc dc' read read')))))
        (λ live.
          next-IsScanned offset filter (bloom_set filter dc.key) _ v
            (bloom_set-IsAllocated_self filter v.allocated dc.key)
            (bloom_get-bloom_set_kept filter v.allocated dc.key)
            (λ dc' read' valid live'.
              subst (λ d. bloom_get (bloom_set filter dc.key) d.key ≡ ok true)
                (same_header offset filter v dc dc' read read')
                (bloom_get-bloom_set filter v.allocated dc.key)))

  reject-IsScanned :
      (offset : ℕ) (filter : BloomFilter) (dc : DiskControl) (e : Errno)
      → pread offset ≡ full dc
      → check_record data_size data_offset dc ≡ err e
      → IsScanned offset filter
      → IsScanned (offset + 96) filter
  reject-IsScanned offset filter dc e read bad v =
      next-IsScanned offset filter filter v.bloom v v.allocated (λ q h. h)
        (λ dc' read' valid live. absurd (
          cc (
            bad,
            valid,
            ap (check_record data_size data_offset) (same_header offset filter v dc dc' read read'),
          )))

  -- A header of the index that cannot be read or is not valid.
  abbrev pub Fault : Type 0
  Fault =
      (j : ℕ) × (j * 96 < size)
      × ((dc : DiskControl)
          → pread (j * 96) ≡ full dc
          → check_record data_size data_offset dc ≡ ok tt
          → ⊥)

  -- The header at the offset is one, whatever it reads as.
  fault_at :
      (offset : ℕ) (filter : BloomFilter) (r : Pread)
      → IsScanned offset filter
      → ltb offset size ≡ true
      → pread offset ≡ r
      → ((dc : DiskControl) → r ≡ full dc → check_record data_size data_offset dc ≡ ok tt → ⊥)
      → Fault
  fault_at offset filter r v inside read bad = (
    v.count,
    omega (arith, ltb→lt offset size inside, v.at),
    λ dc read' valid. bad dc (cc (read, read', ap pread v.at)) valid,
  )

  -- What the inner loop leaves: it stopped for a fault, or it has passed headers, and all of them
  -- are scanned.
  abbrev pub Passed : ℕ → Progress → Type 0
  Passed lo (going st) = (lo ≤ st.offset) × IsScanned st.offset st.filter
  Passed lo (stopped res st) = Fault

  later : (lo lo' : ℕ) (p : Progress) → lo ≤ lo' → Passed lo' p → Passed lo p
  later lo lo' (going st) h k = (omega (arith, h, k.0), k.1)
  later lo lo' (stopped res st) h k = k

  abbrev pub block : ℕ → ℕ → Filling → Progress
  block left i st = fill_block pread size data_size data_offset index_block_size left i st

  abbrev valid_of : Pread → Outcome (Unit {0})
  valid_of (full dc) = check_record data_size data_offset dc
  valid_of (short n) = err enomem
  valid_of (failed n) = err enomem

  -- One round of the inner loop, by what the rounds after it do.
  pub round-Passed :
      (left i : ℕ) (st : Filling)
      → ((i' : ℕ) (st' : Filling)
          → IsScanned st'.offset st'.filter
          → Passed st'.offset (block left i' st'))
      → ltb st.offset size ≡ true
      → IsScanned st.offset st.filter
      → Passed (st.offset + 96) (block (suc left) i st)
  unfolding fill_block
  round-Passed left i st rest inside v = elim (Pread-cases (pread st.offset)) [
    | inl (n, h) ↦
        rw (inside, fill_block, h)
          (fault_at st.offset st.filter (failed n) v inside h (λ dc q k. absurd cc))
    | inr (inl (n, h)) ↦
        rw (inside, fill_block, h)
          (fault_at st.offset st.filter (short n) v inside h (λ dc q k. absurd cc))
    | inr (inr (dc, h)) ↦ elim (Outcome-cases (check_record data_size data_offset dc)) [
      | inr (u, k) ↦
          rw (inside, fill_block, h, k)
            (rest (i + 1) (accept pread size data_size data_offset index_block_size i dc st)
              (accept-IsScanned st.offset st.filter dc h v))
      | inl (e, k) ↦
          elim (Bool-cases
            (ltb corrupt_max st.err_count || (i == 0) || (i == index_block_size - 1))) [
              | inl b ↦
                  rw (inside, fill_block, h, k, b)
                    (fault_at st.offset st.filter (full dc) v inside h
                      (λ dc' q good. cc (good, k, ap valid_of q)))
              | inr b ↦
                  rw (inside, fill_block, h, k, b)
                    (rest (i + 1) _ (reject-IsScanned st.offset st.filter dc e h k v))
            ]
    ]
  ]

  pub fill_block-Passed :
      (left i : ℕ) (st : Filling)
      → IsScanned st.offset st.filter
      → Passed st.offset (block left i st)
  unfolding fill_block
  fill_block-Passed zero i st v = (omega arith, v)
  fill_block-Passed (suc left) i st v = elim (Bool-cases (ltb st.offset size)) [
    | inr e ↦ rw (e, fill_block) (omega arith, v)
    | inl e ↦
        later st.offset (st.offset + 96) (block (suc left) i st) (omega arith)
          (round-Passed left i st (λ i' st' w. fill_block-Passed left i' st' w) e v)
  ]
