-- ===== src/Tests/Merges.antt =====
-- The merge of library/datasort.c at a concrete input.
use eblob.Base.{List, [], ◌∷◌, ◌≡◌, refl}
use mathlib.Core.List.Permᴰ.{Permᴰ}
use eblob.Key.{id_cmp}
use eblob.Record.{DiskControl}
use eblob.Store.{Store}
use eblob.Datasort.{Chunk, merge}
use eblob.Datasort.Smallest.{IsSorted, entries}
use eblob.Datasort.Merged.{placed, merge-Merged}
use eblob.Tests.Samples.{header_of}
use eblob.Tests.Stores.{empty_store}

-- Files of 1000 bytes.
abbrev full_store : Store
full_store = record empty_store { files = λ fd. record { size = 1000; byte = λ i. 0 } }

abbrev two_chunks : List Chunk
two_chunks =
    record { fd = 20; offset = 106; index = header_of 9 ∷ []; merge_count = 0 }
    ∷ record { fd = 21; offset = 106; index = header_of 7 ∷ []; merge_count = 0 }
    ∷ []

abbrev merged_chunk : Chunk
merged_chunk = record {
  fd = 30;
  offset = 212;
  index = header_of 7 ∷ record (header_of 9) { position = 106 } ∷ [];
  merge_count = 0;
}

merge-Merged_example :
    (taken : List DiskControl) × (merged_chunk.index ≡ placed 0 taken)
    × Permᴰ taken (entries two_chunks)
    × IsSorted taken
unfolding merge id_cmp
merge-Merged_example =
    merge-Merged 30 two_chunks full_store merged_chunk ((tt, tt), ((tt, tt), tt)) refl
