-- ===== src/Datasort.antt =====
-- library/datasort.c: the merge of sorted chunks, `datasort_merge` and what it calls.
--
-- The steps are those of Store: the bytes of the files and what the system answers are its state. A
-- null pointer that is returned is the error number 0.
use Prim.Native.Nat.Ordering.{lt, eq, gt}
use eblob.Base.{
  ℕ, zero, suc, ◌+◌, ◌-◌, ◌%◌, ◌^◌, ◌==◌, Bool, true, false, if◌then◌else◌, not, Option, none, some,
  List, [], ◌∷◌, ◌++◌, length, Outcome, ok, err, errno,
}
use eblob.Record.{DiskControl, hdr_size}
use eblob.Index.{disk_control_sort}
use eblob.Files.{drop}
use eblob.Files.Headers.{encode}
use eblob.Store.{Store, Step, pure, raise, ◌>>=◌, ◌>>◌, raise_if, pwrite, malloc, copy, w64, sub64}
pub mod Smallest
pub mod Merged

-- The fields of `struct datasort_chunk` that a merge uses; `count` is the length of `index`.
pub record Chunk : Type 0 where
  pub fd : ℕ
  pub offset : ℕ
  pub index : List DiskControl
  pub merge_count : ℕ

abbrev pub nth : ℕ → List DiskControl → Option DiskControl
nth n [] = none
nth zero (d ∷ ds) = some d
nth (suc n) (d ∷ ds) = nth n ds

-- `&chunk->index[chunk->merge_count]`, if it is there.
abbrev pub current : Chunk → Option DiskControl
current c = nth c.merge_count c.index

-- The smallest entry so far, with the place of its chunk, and the entry of the next chunk.
unfoldable pub better : ℕ → Option (ℕ × DiskControl) → Option DiskControl → Option (ℕ × DiskControl)
unfolding disk_control_sort
better i best none = best
better i none (some dc) = some (i, dc)
better i (some (j, smallest)) (some dc) = elim (disk_control_sort smallest dc) [
  | gt ↦ some (i, dc)
  | eq ↦ some (j, smallest)
  | lt ↦ some (j, smallest)
]

-- The loop of `datasort_merge_get_smallest`, at the chunk of place `i`.
unfoldable pub smallest_loop : ℕ → Option (ℕ × DiskControl) → List Chunk → Option (ℕ × DiskControl)
unfolding better
smallest_loop i best [] = best
smallest_loop i best (c ∷ cs) = smallest_loop (suc i) (better i best (current c)) cs

-- `merge_count++` in the chunk at a place.
unfoldable pub bump : ℕ → List Chunk → List Chunk
bump i [] = []
bump zero (c ∷ cs) = record c { merge_count = suc c.merge_count } ∷ cs
bump (suc i) (c ∷ cs) = c ∷ bump i cs

-- The descriptor of the chunk at a place.
abbrev pub fd_of : ℕ → List Chunk → ℕ
fd_of i [] = 0
fd_of zero (c ∷ cs) = c.fd
fd_of (suc i) (c ∷ cs) = fd_of i cs

-- `datasort_merge_get_smallest`: the descriptor of the chunk, its entry, and the chunks after it.
unfoldable pub merge_get_smallest : List Chunk → Option (ℕ × DiskControl × List Chunk)
unfolding smallest_loop bump
merge_get_smallest chunks = elim (smallest_loop 0 none chunks) [
  | none ↦ none
  | some (i, dc) ↦ some (fd_of i chunks, dc, bump i chunks)
]

-- `datasort_copy_record`
unfoldable pub copy_record : ℕ → ℕ → DiskControl → ℕ → Step (Unit {0})
unfolding pwrite encode copy
copy_record from_fd to_fd dc offset = do
  pwrite (some to_fd) offset (encode (record dc { position = offset }))
  copy from_fd (w64 (dc.position + hdr_size)) to_fd (w64 (offset + hdr_size))
      (sub64 dc.disk_size hdr_size)

-- `datasort_merge_index_size`
unfoldable pub merge_index_size : List Chunk → ℕ
merge_index_size [] = 0
merge_index_size (c ∷ cs) = length c.index + merge_index_size cs

abbrev pub append_to : Chunk → DiskControl → Chunk
append_to merged dc = record merged {
  index = merged.index ++ (record dc { position = merged.offset } ∷ []);
  offset = w64 (merged.offset + dc.disk_size);
}

-- The loop of `datasort_merge`, on fuel: a round merges one entry.
unfoldable pub merge_loop : ℕ → List Chunk → Chunk → Step Chunk
unfolding merge_get_smallest copy_record
merge_loop zero chunks merged = pure merged
merge_loop (suc fuel) chunks merged = elim (merge_get_smallest chunks) [
  | none ↦ pure merged
  | some (fd, dc, chunks') ↦
      copy_record fd merged.fd dc merged.offset >> merge_loop fuel chunks' (append_to merged dc)
]

-- `datasort_merge`; `fd` is that of the chunk that `datasort_add_chunk` gives.
unfoldable pub merge : ℕ → List Chunk → Step Chunk
unfolding merge_index_size merge_loop
merge fd chunks = do
  raise_if (merge_index_size chunks == 0) (errno 0)
  enough ← malloc
  raise_if (not enough) (errno 0)
  merge_loop (merge_index_size chunks) chunks
      (record { fd = fd; offset = 0; index = []; merge_count = 0 })
