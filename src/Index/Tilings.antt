-- ===== src/Index/Tilings.antt =====
-- The outer loop of `eblob_index_blocks_fill`: the blocks lie side by side, over headers that are
-- scanned.
use eblob.Base.{
  ℕ, zero, suc, ◌+◌, ◌<◌, ◌≤◌, ltb, ltb→lt, some, List, [], ◌∷◌, ◌≡◌, refl, sym, subst, arith,
  Bool-cases, inl, inr,
}
use eblob.Key.{Key}
use eblob.Record.{Pread}
use eblob.Index.{IndexBlock, Filling, Progress, going, stopped, fill_blocks}
use eblob.Index.Scans.{
  IsScanned, Fault, Passed, Progress-cases, block, round-Passed, fill_block-Passed,
}

-- Neighbouring blocks, none of them empty, from one offset to another.
abbrev pub Tiles : ℕ → List IndexBlock → ℕ → Type 0
Tiles lo [] hi = lo ≡ hi
Tiles lo (b ∷ bs) hi =
    (b.start_offset ≡ lo) × (b.start_offset < b.end_offset) × Tiles b.end_offset bs hi

module _ (pread : ℕ → Pread) (size data_size data_offset index_block_size : ℕ) where
  abbrev pub Done : ℕ → Progress → List IndexBlock → Type 0
  Done lo (going st) blocks =
      (size ≤ st.offset)
      × IsScanned pread size data_size data_offset index_block_size st.offset st.filter
      × Tiles lo blocks st.offset
  Done lo (stopped res st) blocks = Fault pread size data_size data_offset index_block_size

  extend :
      (lo hi : ℕ) (first last : Key) (p : Progress) (blocks : List IndexBlock)
      → lo < hi
      → Done hi p blocks
      → Done lo p (
          record { start_key = first; end_key = last; start_offset = lo; end_offset = hi } ∷ blocks)
  extend lo hi first last (going st) blocks h d = (d.0, d.1, (refl, h, d.2))
  extend lo hi first last (stopped res st) blocks h d = d

  -- The outer loop ends on a fuel larger than the bytes that are left, if a block pread size data_size data_offset index_block_size has any records.
  pub fill_blocks-Done :
      (per_block fuel : ℕ) (st : Filling)
      → index_block_size ≡ suc per_block
      → 0 < fuel
      → size < st.offset + fuel
      → IsScanned pread size data_size data_offset index_block_size st.offset st.filter
      → (p : Progress) × (blocks : List IndexBlock) × (fill_blocks pread size data_size data_offset
            index_block_size fuel st
          ≡ some (p, blocks))
        × Done st.offset p blocks
  unfolding fill_blocks
  fill_blocks-Done per_block zero st some_ left enough v = absurd (omega (arith, left))
  fill_blocks-Done per_block (suc fuel) st some_ left enough v =
      elim (Bool-cases (ltb st.offset size)) [
        | inr e ↦ (going st, [], rw (e, fill_blocks) refl, (ground arith, v, refl))
        | inl e ↦
            let inside : st.offset < size = ltb→lt st.offset size e in
            let passed : Passed pread size data_size data_offset index_block_size (st.offset + 96)
                (block pread size data_size data_offset index_block_size index_block_size 0 st) =
              subst
                (λ n.
                  Passed pread size data_size data_offset index_block_size (st.offset + 96)
                    (block pread size data_size data_offset index_block_size n 0 st))
                (sym some_)
                (round-Passed pread size data_size data_offset index_block_size per_block 0 st
                  (λ i st' w.
                    fill_block-Passed pread size data_size data_offset index_block_size per_block i
                      st' w)
                  e v) in
            elim (Progress-cases
              (block pread size data_size data_offset index_block_size index_block_size 0 st)) [
                | inl (res, st', h) ↦
                    let fault : Passed pread size data_size data_offset index_block_size
                        (st.offset + 96) (stopped res st') =
                      subst
                        (Passed pread size data_size data_offset index_block_size (st.offset + 96))
                        h passed in
                    (stopped res st', [], rw (e, fill_blocks, h) refl, fault)
                | inr (st', h) ↦
                    let now : Passed pread size data_size data_offset index_block_size
                        (st.offset + 96) (going st') =
                      subst
                        (Passed pread size data_size data_offset index_block_size (st.offset + 96))
                        h passed in
                    let rest =
                      fill_blocks-Done per_block fuel st' some_ (omega (arith, inside, enough))
                        (omega (arith, inside, enough, now.0)) now.1 in
                    (
                      rest.0,
                      _ ∷ rest.1,
                      rw (e, fill_blocks, h, rest.2) refl,
                      extend st.offset st'.offset st'.start_key st'.dc.key rest.0 rest.1
                          (omega (arith, now.0)) rest.3,
                    )
              ]
      ]
