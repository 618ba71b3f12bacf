-- ===== src/Defrag/Wants.antt =====
-- library/defrag.c: what `eblob_want_defrag` and the first loop of `eblob_defrag` may remove.
use eblob.Base.{
  ℕ, ◌+◌, ◌*◌, ◌%◌, ◌^◌, ◌≤◌, Bool, true, false, List, [], ◌∷◌, Option, none, some, length, ok, All,
  ◌≡◌, arith,
}
use eblob.Defrag.Signed.{eqℤ, u64}
use eblob.Defrag.{remove_needed, BaseCtl, Limits, want_defrag}

-- Every record that was ever written to the base is removed, by its two counters and by the size of
-- its index, in headers of 96 bytes.
abbrev pub IsEmptied : BaseCtl → Type 0
IsEmptied b = (eqℤ b.total b.removed ≡ true) × (b.index_size ≡ u64 b.removed * 96 % 2 ^ 64)

-- A base is removed only if it is not the last one and all its records are removed.
pub remove_needed_lem :
    (cfg : Limits) (is_last : Bool) (b : BaseCtl)
    → want_defrag cfg is_last b ≡ ok remove_needed
    → (is_last ≡ false) × IsEmptied b
unfolding want_defrag
remove_needed_lem cfg is_last b h = (ground arith, (ground arith, ground arith))

-- The last base of a list.
abbrev pub last : List BaseCtl → Option BaseCtl
last [] = none
last (b ∷ []) = some b
last (b ∷ c ∷ bs) = last (c ∷ bs)

-- What the first loop may do to the bases.
pub record IsSafe (bases : List BaseCtl) (room : ℕ) (kept dropped taken : List BaseCtl)
    : Type 0 where
  pub emptied : All IsEmptied dropped
  pub none_lost : length kept + length dropped ≡ length bases
  pub within : length taken ≤ room
  pub last_kept : last kept ≡ last bases
