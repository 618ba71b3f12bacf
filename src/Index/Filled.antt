-- ===== src/Index/Filled.antt =====
-- library/index.c: what `eblob_index_blocks_fill` leaves.
use eblob.Base.{ℕ, ◌*◌, ◌<◌, ◌≤◌, none, some, Outcome, ok, ◌≡◌}
use eblob.Record.{Pread}
use eblob.Index.{IndexCtl}
use eblob.Index.Scans.{Fault, Present}
use eblob.Index.Tilings.{Tiles}

-- What a call that returned `res` left: where there are blocks, they lie side by side from the start
-- of the index to its end, and the key of every valid header that is not removed is in the filter;
-- where there are none, some header cannot be read or is not valid.
abbrev pub IsFilled : (ℕ → Pread) → IndexCtl → Outcome ℕ → IndexCtl → Type 0
IsFilled pread bctl res bctl' = elim bctl'.index_blocks [
  | none ↦ Fault pread bctl.sort_size bctl.data_size bctl.data_offset 0
  | some blocks ↦
      (res ≡ ok 0)
      × ((end : ℕ) × (bctl.sort_size ≤ end) × Tiles 0 blocks end)
      × ((j : ℕ)
          → j * 96 < bctl.sort_size
          → Present pread bctl.sort_size bctl.data_size bctl.data_offset 0 bctl'.filter j)
]
